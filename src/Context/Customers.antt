-- ===== src/Context/Customers.antt =====
-- `InMemoryCustomerRepository` of context_engine/customer_repository.py. A method holds the lock
-- for its whole call. The new ids and the clock are read from a supply, in the order in which the
-- code asks for them; the repository's record counts what was drawn.
pub mod Links
use penny_core.Prelude.{
  ℕ, suc, ◌≡◌, String, Bool, true, false, Option, none, some, List, [], ◌∷◌, ◌&&◌, ◌==◌,
  if◌then◌else◌, string_eq, pair_eq, length, select,
}
use penny_core.Dict
use penny_core.Dict.{Dict}
use penny_core.Exec.{
  Exn, Result, ok, err, Exec, pure, raise, raise_if, ◌>>=◌, ◌>>◌, validation_error, key_error,
  identity_collision,
}
use penny_core.Contracts.{Timestamp, fits, fits_optional}
use penny_core.Contracts.Texts.{Texts, strip}
use penny_core.Contracts.Customers.{
  IdentityKind, kind_eq, Customer, CustomerIdentity, ignores_case, validated_value,
}

abbrev pub LinkKey : Type 0
LinkKey = String × (IdentityKind × String)

pub record Customers : Type 0 where
  pub customers : Dict (String × String) Customer
  pub identities : Dict (String × String) CustomerIdentity
  pub identity_index : Dict LinkKey String
  pub drawn : ℕ

-- `new_customer_id`, `new_identity_id` and the clock, read a first and a second time, at each turn.
pub record Supply : Type 0 where
  pub new_customer_id : ℕ → String
  pub new_identity_id : ℕ → String
  pub now : ℕ → Timestamp
  pub later : ℕ → Timestamp

abbrev pub empty_customers : Customers
empty_customers = record { customers = []; identities = []; identity_index = []; drawn = 0 }

-- `clear`
unfoldable pub clear_customers : Customers → Customers
clear_customers repo = record empty_customers { drawn = repo.drawn }

unfoldable pub get_customer : String → String → Customers → Option Customer
get_customer tenant_id customer_id repo = Dict.get repo.customers (tenant_id, customer_id)

unfoldable pub find_customer_by_identity :
    String → IdentityKind → String → Customers → Option Customer
find_customer_by_identity tenant_id identity_kind identity_value repo =
    elim (Dict.get repo.identity_index (tenant_id, (identity_kind, identity_value))) [
      | none ↦ none
      | some cid ↦ Dict.get repo.customers (tenant_id, cid)
    ]

abbrev rows : Dict (String × String) CustomerIdentity → List CustomerIdentity
rows [] = []
rows ((key, ident) ∷ d) = ident ∷ rows d

unfoldable pub list_identities : String → String → Customers → List CustomerIdentity
list_identities tenant_id customer_id repo = rows (
    select
      (λ (row : (String × String) × CustomerIdentity).
        row.0.0 == tenant_id && row.1.customer_id == customer_id)
      repo.identities)

-- `count`; without a tenant it counts all customers.
unfoldable pub count_customers : Option String → Customers → ℕ
count_customers none repo = length repo.customers
count_customers (some tenant_id) repo =
    length (select (λ (c : (String × String) × Customer). c.0.0 == tenant_id) repo.customers)

-- The row that `add_identity` returns for an identity that its customer has already.
unfoldable pub find_row :
    String
    → String
    → IdentityKind
    → String
    → Dict (String × String) CustomerIdentity
    → Option CustomerIdentity
find_row tenant_id customer_id kind value [] = none
find_row tenant_id customer_id kind value ((key, ident) ∷ d) =
    if key.0 == tenant_id
      && ident.customer_id == customer_id
      && ident.identity_kind == kind
      && ident.identity_value == value
    then some ident
    else find_row tenant_id customer_id kind value d

module _ (tx : Texts) where
  -- `_ident_index_value`
  unfoldable pub ident_index_value : IdentityKind → String → String
  unfolding ignores_case
  ident_index_value kind value =
      let v = strip tx value in if ignores_case kind then tx.lower v else v

  -- `CustomerIdentity(...)`: Pydantic's checks of the fields and the validator.
  unfoldable pub new_identity :
      Supply → ℕ → String → String → IdentityKind → String → Result Exn CustomerIdentity
  new_identity supply turn tenant_id customer_id kind value =
      if fits 64 (supply.new_identity_id turn)
        && fits 64 tenant_id
        && fits 64 customer_id
        && fits 256 value
      then elim (validated_value tx kind value) [
        | none ↦ err validation_error
        | some v ↦ ok (record {
          id = supply.new_identity_id turn;
          tenant_id = tenant_id;
          customer_id = customer_id;
          identity_kind = kind;
          identity_value = v;
          created_at = supply.now turn;
        })
      ]
      else err validation_error

  -- The two writes of `_insert_identity_locked`.
  unfoldable pub store_identity : String → String → CustomerIdentity → Customers → Customers
  store_identity tenant_id customer_id identity repo = record repo {
    identities = Dict.put repo.identities (tenant_id, identity.id) identity;
    identity_index =
        Dict.put repo.identity_index (tenant_id, (identity.identity_kind, identity.identity_value))
          customer_id;
  }

  unfoldable pub insert_identity :
      Supply → String → String → IdentityKind → String → Exec Customers CustomerIdentity
  insert_identity supply tenant_id customer_id kind value repo =
      let turned : Customers = record repo { drawn = suc repo.drawn } in
      elim (new_identity supply repo.drawn tenant_id customer_id kind value) [
        | err x ↦ (err x, turned)
        | ok identity ↦ (ok identity, store_identity tenant_id customer_id identity turned)
      ]

  -- The pre-flight loop of `create_customer`.
  unfoldable pub any_linked : String → List (IdentityKind × String) → Customers → Bool
  any_linked tenant_id [] repo = false
  any_linked tenant_id ((kind, value) ∷ rest) repo =
      if Dict.contains repo.identity_index (tenant_id, (kind, ident_index_value kind value))
      then true
      else any_linked tenant_id rest repo

  unfoldable pub insert_identities :
      Supply → String → String → List (IdentityKind × String) → Exec Customers (Unit {0})
  insert_identities supply tenant_id customer_id [] = pure tt
  insert_identities supply tenant_id customer_id ((kind, value) ∷ rest) =
      insert_identity supply tenant_id customer_id kind value
      >> insert_identities supply tenant_id customer_id rest

  -- `Customer(...)`
  unfoldable pub new_customer : Supply → ℕ → String → Option String → Result Exn Customer
  new_customer supply turn tenant_id display_name =
      if fits 64 (supply.new_customer_id turn)
        && fits 64 tenant_id
        && fits_optional 128 display_name
      then ok (record {
        id = supply.new_customer_id turn;
        tenant_id = tenant_id;
        display_name = display_name;
        created_at = supply.now turn;
        updated_at = supply.later turn;
        metadata = [];
      })
      else err validation_error

  unfoldable pub store_customer : String → Customer → Customers → Customers
  store_customer tenant_id customer repo = record repo {
    customers = Dict.put repo.customers (tenant_id, customer.id) customer;
  }

  unfoldable pub create_customer :
      Supply → String → List (IdentityKind × String) → Option String → Exec Customers Customer
  create_customer supply tenant_id identities display_name repo =
      let turned : Customers = record repo { drawn = suc repo.drawn } in
      if any_linked tenant_id identities repo
      then (err identity_collision, repo)
      else elim (new_customer supply repo.drawn tenant_id display_name) [
        | err x ↦ (err x, turned)
        | ok customer ↦
            (insert_identities supply tenant_id customer.id identities >> pure customer)
              (store_customer tenant_id customer turned)
      ]

  unfoldable pub add_identity :
      Supply → String → String → IdentityKind → String → Exec Customers CustomerIdentity
  add_identity supply tenant_id customer_id kind value repo =
      let normalized = ident_index_value kind value in
      let inserted =
        if Dict.contains repo.customers (tenant_id, customer_id)
        then insert_identity supply tenant_id customer_id kind value repo
        else (err key_error, repo) in
      elim (Dict.get repo.identity_index (tenant_id, (kind, normalized))) [
        | none ↦ inserted
        | some existing ↦
            if existing == customer_id
            then elim (find_row tenant_id customer_id kind normalized repo.identities) [
              | none ↦ inserted
              | some ident ↦ (ok ident, repo)
            ]
            else (err identity_collision, repo)
      ]
