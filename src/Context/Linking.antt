-- ===== src/Context/Linking.antt =====
-- context_engine/linking.py: the customer that a request is about, by its explicit id or by the
-- identities in its payload, and what is linked to the customer on the way.
use penny_core.Prelude.{
  String, Bool, true, false, not, Option, none, some, List, [], ◌∷◌, ◌==◌, map, pair_eq, string_eq,
  select, if◌then◌else◌,
}
use penny_core.Exec.{
  Exn, Result, ok, err, Exec, pure, raise, ◌>>=◌, ◌>>◌, lookup_error, identity_collision,
}
use penny_core.Contracts.Texts.{Texts}
use penny_core.Contracts.Customers.{
  IdentityKind, external_id, email, phone, chat_handle, kind_eq, Customer,
}
use penny_core.Context.Ingestion.{IngestionRequest}
use penny_core.Context.Customers.{
  Customers, Supply, get_customer, find_customer_by_identity, create_customer, add_identity,
}
pub mod Hints
pub mod Attaching
pub mod Walk
pub mod Resolving
pub mod Returning
pub mod Guarantees
pub mod Replays
pub mod Races
pub mod Inserting
pub mod Creating
mod Tests
use Hints.{IdentityHint, extract_identity_hints, extract_display_name, lookup_priority}

pub record LinkingOutcome : Type 0 where
  pub customer_id : String
  pub customer_created : Bool
  pub matched : Option IdentityHint
  pub identities_added : List IdentityHint

-- `[h for h in hints if h is not hint]`: the hints of a request are distinct values.
unfoldable pub all_but : IdentityHint → List IdentityHint → List IdentityHint
all_but hint hints = select (λ h. not (h == hint)) hints

-- The two loops of the priority walk, up to the first match.
unfoldable pub match_kind :
    String → IdentityKind → List IdentityHint → Customers → Option (IdentityHint × Customer)
match_kind tenant_id kind [] repo = none
match_kind tenant_id kind (hint ∷ hints) repo =
    let rest = match_kind tenant_id kind hints repo in
    if hint.0 == kind
    then elim (find_customer_by_identity tenant_id hint.0 hint.1 repo) [
      | none ↦ rest
      | some customer ↦ some (hint, customer)
    ]
    else rest

unfoldable pub match_kinds :
    List IdentityKind → String → List IdentityHint → Customers → Option (IdentityHint × Customer)
match_kinds [] tenant_id hints repo = none
match_kinds (kind ∷ kinds) tenant_id hints repo = elim (match_kind tenant_id kind hints repo) [
  | none ↦ match_kinds kinds tenant_id hints repo
  | some found ↦ some found
]

-- `except IdentityCollision`
abbrev pub is_collision : Exn → Bool
is_collision identity_collision = true
is_collision _ = false

module _ (tx : Texts) (supply : Supply) where
  -- `_attach_new_identities`
  unfoldable pub attach_new_identities :
      String → String → List IdentityHint → Exec Customers (List IdentityHint)
  attach_new_identities customer_id tenant_id [] repo = (ok [], repo)
  attach_new_identities customer_id tenant_id (hint ∷ hints) repo =
      elim (find_customer_by_identity tenant_id hint.0 hint.1 repo) [
        | none ↦
            (do
              _ ← add_identity tx supply tenant_id customer_id hint.0 hint.1
              added ← attach_new_identities customer_id tenant_id hints
              pure (hint ∷ added))
              repo
        | some existing ↦
            if existing.id == customer_id
            then attach_new_identities customer_id tenant_id hints repo
            else (err identity_collision, repo)
      ]

  -- A match, enriched with the other hints.
  unfoldable pub link_match :
      String → List IdentityHint → IdentityHint × Customer → Exec Customers LinkingOutcome
  unfolding all_but
  link_match tenant_id hints (hint, customer) = do
    added ← attach_new_identities customer.id tenant_id (all_but hint hints)
    pure (record {
      customer_id = customer.id;
      customer_created = false;
      matched = some hint;
      identities_added = added;
    })

  -- The priority walk, where `missing` is what follows it when no hint matches.
  unfoldable pub match_or :
      Exec Customers LinkingOutcome → String → List IdentityHint → Exec Customers LinkingOutcome
  match_or missing tenant_id hints repo = elim (match_kinds lookup_priority tenant_id hints repo) [
    | none ↦ missing repo
    | some found ↦ link_match tenant_id hints found repo
  ]

  -- What `create_customer` left in step 3: its customer, or the second walk after a collision.
  unfoldable pub after_create :
      String → List IdentityHint → Result Exn Customer → Exec Customers LinkingOutcome
  after_create tenant_id hints (ok customer) repo = (
    ok (record {
      customer_id = customer.id;
      customer_created = true;
      matched = none;
      identities_added = hints;
    }),
    repo,
  )
  after_create tenant_id hints (err x) repo =
      if is_collision x then match_or (raise x) tenant_id hints repo else (err x, repo)

  -- Step 3, for which other threads may have changed the repository since step 2.
  unfoldable pub create_or_match :
      String → List IdentityHint → Option String → Exec Customers LinkingOutcome
  create_or_match tenant_id hints display_name repo =
      let (created, repo') = create_customer tx supply tenant_id hints display_name repo in
      after_create tenant_id hints created repo'

  -- Step 1
  unfoldable pub link_explicit : String → String → List IdentityHint → Exec Customers LinkingOutcome
  link_explicit tenant_id customer_id hints repo = elim (get_customer tenant_id customer_id repo) [
    | none ↦ (err lookup_error, repo)
    | some existing ↦
        (do
          added ← attach_new_identities existing.id tenant_id hints
          pure (record {
            customer_id = existing.id;
            customer_created = false;
            matched = none;
            identities_added = added;
          }))
          repo
  ]

  -- `resolve_customer`, where `between` is what other threads do to the repository between the
  -- walk that finds nothing and `create_customer`.
  unfoldable pub resolve_customer :
      (Customers → Customers) → IngestionRequest → Exec Customers LinkingOutcome
  resolve_customer between request =
      let hints = extract_identity_hints tx request.payload in
      elim request.customer_id [
        | some customer_id ↦ link_explicit request.tenant_id customer_id hints
        | none ↦
            match_or
              (λ repo.
                create_or_match request.tenant_id hints (extract_display_name tx request.payload)
                  (between repo))
              request.tenant_id hints
      ]
