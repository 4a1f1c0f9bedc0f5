-- ===== src/Context/Customers/Links/Writes.antt =====
-- What `create_customer` and `add_identity` leave, on every way they end.
use penny_core.Prelude.{
  ◌≡◌, refl, sym, subst, String, Bool, true, false, Option, none, List, [], ◌∷◌, map, inl, inr,
  eq_iff, string_eq, pair_eq, arith, Option-cases, Bool-cases, ◌&&◌, ◌==◌, if◌then◌else◌, suc,
}
use penny_core.Dict
use penny_core.Dict.{get-put, get-put_self, contains-get}
use penny_core.Exec.{Exn, Result, ok, err, validation_error, key_error, identity_collision}
use penny_core.Contracts.{fits, fits_optional}
use penny_core.Contracts.Texts.{Texts}
use penny_core.Contracts.Customers.{IdentityKind, kind_eq, Customer, CustomerIdentity}
use penny_core.Context.Customers.{
  LinkKey, Customers, Supply, ident_index_value, insert_identity, any_linked, insert_identities,
  new_customer, store_customer, create_customer, add_identity, find_row,
}
use penny_core.Context.Customers.Links.{
  Grows, Grows-refl, Grows-trans, Grows-turned, IsFree, AllFree, AllLead,
}
use penny_core.Context.Customers.Links.Growth.{
  index_key, turned, Fills, insert_identities-Fills, insert_identity-Grows,
}

module _ (tx : Texts) where
  store_customer-Grows :
      (t : String) (c : Customer) (repo : Customers)
      → c.tenant_id ≡ t
      → Grows t repo (store_customer tx t c repo)
  unfolding store_customer
  store_customer-Grows t c repo tenant =
      let at = λ (u cid : String). get-put repo.customers (t, c.id) (u, cid) c in
      record {
        linked = λ v. record {
          leads = λ u h cid e.
              let (old, there) = v.leads u h cid e in
              contains-get (Dict.put repo.customers (t, c.id) c) (u, cid)
                (ground (arith, at u cid, there));
          keyed = λ u cid d e.
              ground (arith, at u cid, eq_iff t u, eq_iff c.id cid, v.keyed u cid d, tenant, e);
        };
        kept = λ k cid e. e;
        present = λ u cid e. ground (arith, at u cid, e);
        other_links = λ u h n. refl;
        other_customers = λ u cid n. ground (arith, at u cid, eq_iff t u, n);
      }

  -- The pre-flight of `create_customer` passes on `repo`, whose links `row` has too.
  any_linked-AllFree :
      (t cid : String) (hints : List (IdentityKind × String)) (repo row : Customers)
      → row.identity_index ≡ repo.identity_index
      → any_linked tx t hints repo ≡ false
      → AllFree row cid (map (index_key tx t) hints)
  unfolding any_linked
  any_linked-AllFree t cid [] repo row same h = tt
  any_linked-AllFree t cid (k ∷ hints) repo row same h =
      elim (Option-cases (Dict.get repo.identity_index (index_key tx t k))) [
        | inl free ↦ (
          inl (cc (free, same)),
          any_linked-AllFree t cid hints repo row same (ground (arith, free, h)),
        )
        | inr (c, there) ↦ ground (arith, there, h)
      ]

  -- The customer that a call makes.
  abbrev pub made : Supply → String → Option String → Customers → Customer
  made supply t name repo = record {
    id = supply.new_customer_id repo.drawn;
    tenant_id = t;
    display_name = name;
    created_at = supply.now repo.drawn;
    updated_at = supply.later repo.drawn;
    metadata = [];
  }

  abbrev pub customer_fits : Supply → String → Option String → Customers → Bool
  customer_fits supply t name repo =
      fits 64 (supply.new_customer_id repo.drawn) && fits 64 t && fits_optional 128 name

  -- The repository with the new customer's row, before its identities are inserted.
  abbrev pub with_row : Supply → String → Option String → Customers → Customers
  with_row supply t name repo = store_customer tx t (made supply t name repo) (turned tx repo)

  abbrev pub finish : Customer → Result Exn (Unit {0}) × Customers → Result Exn Customer × Customers
  finish c (ok _, repo) = (ok c, repo)
  finish c (err x, repo) = (err x, repo)

  pub create_customer_lem :
      (supply : Supply) (t : String) (hints : List (IdentityKind × String)) (name : Option String)
      (repo : Customers)
      → create_customer tx supply t hints name repo ≡ (
          if any_linked tx t hints repo
          then (err identity_collision, repo)
          else if customer_fits supply t name repo
          then finish (made supply t name repo) (
              insert_identities tx supply t
                (made supply t name repo).id
                hints
                (with_row supply t name repo))
          else (err validation_error, turned tx repo))
  unfolding create_customer new_customer
  create_customer_lem supply t hints name repo = ground arith

  -- What a call of `create_customer` leaves, by how it ended.
  abbrev pub Creates : String → List LinkKey → Customers → Result Exn Customer × Customers → Type 0
  Creates t keys repo (err x, after) = Grows t repo after
  Creates t keys repo (ok c, after) =
      Grows t repo after
      × (Dict.contains after.customers (t, c.id) ≡ true)
      × AllLead after c.id keys

  finish-Creates :
      (t : String) (keys : List LinkKey) (c : Customer) (repo row : Customers)
      (r : Result Exn (Unit {0}) × Customers)
      → Grows t repo row
      → Dict.contains row.customers (t, c.id) ≡ true
      → Fills tx t c.id keys row r
      → Creates t keys repo (finish c r)
  finish-Creates t keys c repo row (ok _, after) first there (g, l) =
      (Grows-trans t repo row after first g, g.present t c.id there, l refl)
  finish-Creates t keys c repo row (err x, after) first there (g, l) =
      Grows-trans t repo row after first g

  with_row-Grows :
      (supply : Supply) (t : String) (name : Option String) (repo : Customers)
      → Grows t repo (with_row supply t name repo)
  with_row-Grows supply t name repo =
      Grows-trans t repo (turned tx repo) (with_row supply t name repo)
        (Grows-turned t repo (suc repo.drawn))
        (store_customer-Grows t (made supply t name repo) (turned tx repo) refl)

  pub with_row-there :
      (supply : Supply) (t : String) (name : Option String) (repo : Customers)
      → Dict.contains (with_row supply t name repo).customers (t, (made supply t name repo).id)
        ≡ true
  unfolding store_customer
  with_row-there supply t name repo =
      let c = made supply t name repo in ground (arith, get-put_self repo.customers (t, c.id) c)

  pub with_row-AllFree :
      (supply : Supply) (t cid : String) (name : Option String)
      (hints : List (IdentityKind × String)) (repo : Customers)
      → any_linked tx t hints repo ≡ false
      → AllFree (with_row supply t name repo) cid (map (index_key tx t) hints)
  unfolding store_customer
  with_row-AllFree supply t cid name hints repo free =
      any_linked-AllFree t cid hints repo (with_row supply t name repo) refl free

  pub create_customer-Creates :
      (supply : Supply) (t : String) (hints : List (IdentityKind × String)) (name : Option String)
      (repo : Customers)
      → Creates t (map (index_key tx t) hints) repo (create_customer tx supply t hints name repo)
  create_customer-Creates supply t hints name repo =
      let keys = map (index_key tx t) hints in
      let c = made supply t name repo in
      let row = with_row supply t name repo in
      subst (Creates t keys repo) (sym (create_customer_lem supply t hints name repo))
        (elim (Bool-cases (any_linked tx t hints repo)) [
          | inl linked ↦ rw linked (Grows-refl t repo)
          | inr free ↦ elim (Bool-cases (customer_fits supply t name repo)) [
            | inl fit ↦
                rw (free, fit)
                  (finish-Creates t keys c repo row (insert_identities tx supply t c.id hints row)
                    (with_row-Grows supply t name repo) (with_row-there supply t name repo)
                    (insert_identities-Fills tx supply t c.id hints row
                      (with_row-there supply t name repo)
                      (with_row-AllFree supply t c.id name hints repo free)))
            | inr unfit ↦ rw (free, unfit) (Grows-turned t repo (suc repo.drawn))
          ]
        ])

  -- The insert of `add_identity`, behind the check that the customer is stored.
  abbrev guarded_insert :
      Supply
      → String
      → String
      → IdentityKind
      → String
      → Customers
      → Result Exn CustomerIdentity × Customers
  guarded_insert supply t cid kind value repo =
      if Dict.contains repo.customers (t, cid)
      then insert_identity tx supply t cid kind value repo
      else (err key_error, repo)

  guarded_insert-Grows :
      (supply : Supply) (t cid : String) (kind : IdentityKind) (value : String) (repo : Customers)
      → IsFree repo (index_key tx t (kind, value)) cid
      → Grows t repo (guarded_insert supply t cid kind value repo).1
  guarded_insert-Grows supply t cid kind value repo free =
      elim (Bool-cases (Dict.contains repo.customers (t, cid))) [
        | inl there ↦ rw there (insert_identity-Grows tx supply t cid kind value repo there free)
        | inr missing ↦ rw missing (Grows-refl t repo)
      ]

  pub add_identity-Grows :
      (supply : Supply) (t cid : String) (kind : IdentityKind) (value : String) (repo : Customers)
      → Grows t repo (add_identity tx supply t cid kind value repo).1
  unfolding add_identity
  add_identity-Grows supply t cid kind value repo =
      let row = find_row t cid kind (ident_index_value tx kind value) repo.identities in
      elim (Option-cases (Dict.get repo.identity_index (index_key tx t (kind, value)))) [
        | inl free ↦
            rw (free, add_identity) (guarded_insert-Grows supply t cid kind value repo (inl free))
        | inr (existing, linked) ↦ elim (Bool-cases (existing == cid)) [
          | inr other ↦ rw (linked, other, add_identity) (Grows-refl t repo)
          | inl same ↦ elim (Option-cases row) [
            | inr (ident, found) ↦ rw (linked, same, found, add_identity) (Grows-refl t repo)
            | inl unfound ↦
                rw (linked, same, unfound, add_identity)
                  (guarded_insert-Grows supply t cid kind value repo
                    (ground (arith, linked, same, eq_iff existing cid)))
          ]
        ]
      ]

  -- A free identity is inserted for a customer that is stored.
  pub add_identity_free :
      (supply : Supply) (t cid : String) (kind : IdentityKind) (value : String) (repo : Customers)
      → Dict.get repo.identity_index (index_key tx t (kind, value)) ≡ none
      → Dict.contains repo.customers (t, cid) ≡ true
      → add_identity tx supply t cid kind value repo
        ≡ insert_identity tx supply t cid kind value repo
  unfolding add_identity
  add_identity_free supply t cid kind value repo free there = ground (arith, free, there)
