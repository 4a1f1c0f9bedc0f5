-- ===== src/Context/Linking/Walk.antt =====
-- The priority walk: what it finds, and what its finding nothing means.
use penny_core.Prelude.{
  ◌≡◌, refl, String, true, none, some, List, [], ◌∷◌, inl, inr, string_eq, pair_eq, pair_beq_iff,
  arith, Option-cases, mem, ap,
}
use penny_core.Contracts.Customers.{
  IdentityKind, external_id, email, phone, chat_handle, kind_eq, kind_beq, kind_beq_iff, Customer,
}
use penny_core.Context.Customers.{Customers, find_customer_by_identity}
use penny_core.Context.Linking.{match_kind, match_kinds}
use penny_core.Context.Linking.Hints.{IdentityHint, lookup_priority}

module _ (t : String) (repo : Customers) where
  match_kind-found :
      (kind : IdentityKind) (hints : List IdentityHint) (h : IdentityHint) (c : Customer)
      → match_kind t kind hints repo ≡ some (h, c)
      → (mem h hints ≡ true) × (find_customer_by_identity t h.0 h.1 repo ≡ some c)
  unfolding match_kind mem
  match_kind-found kind [] h c e = ground (arith, e)
  match_kind-found kind (g ∷ hints) h c e =
      elim (Option-cases (find_customer_by_identity t g.0 g.1 repo)) [
        | inl missing ↦
            ground (arith, missing, match_kind-found kind hints h c, pair_beq_iff h g, e)
        | inr (d, found) ↦
            ground (arith, found, match_kind-found kind hints h c, pair_beq_iff h g, e)
      ]

  match_kind-missing :
      (kind : IdentityKind) (hints : List IdentityHint) (h : IdentityHint)
      → match_kind t kind hints repo ≡ none
      → mem h hints ≡ true
      → h.0 ≡ kind
      → find_customer_by_identity t h.0 h.1 repo ≡ none
  unfolding match_kind mem
  match_kind-missing kind [] h e m k = ground (arith, m)
  match_kind-missing kind (g ∷ hints) h e m k =
      elim (Option-cases (find_customer_by_identity t g.0 g.1 repo)) [
        | inl missing ↦ ground (
          arith,
          missing,
          match_kind-missing kind hints h,
          pair_beq_iff h g,
          ap (λ (f : IdentityHint). find_customer_by_identity t f.0 f.1 repo),
          e,
          m,
          k,
        )
        | inr (d, found) ↦ ground (
          arith,
          found,
          match_kind-missing kind hints h,
          pair_beq_iff h g,
          kind_beq_iff g.0 kind,
          ap (λ (f : IdentityHint). f.0),
          e,
          m,
          k,
        )
      ]

  match_kinds-found :
      (kinds : List IdentityKind) (hints : List IdentityHint) (h : IdentityHint) (c : Customer)
      → match_kinds kinds t hints repo ≡ some (h, c)
      → (mem h hints ≡ true) × (find_customer_by_identity t h.0 h.1 repo ≡ some c)
  unfolding match_kinds
  match_kinds-found [] hints h c e = ground (arith, e)
  match_kinds-found (kind ∷ kinds) hints h c e =
      elim (Option-cases (match_kind t kind hints repo)) [
        | inl missing ↦ match_kinds-found kinds hints h c (ground (arith, missing, e))
        | inr (f, found) ↦ match_kind-found kind hints h c (ground (arith, found, e))
      ]

  match_kinds-missing :
      (kinds : List IdentityKind) (hints : List IdentityHint) (h : IdentityHint)
      → match_kinds kinds t hints repo ≡ none
      → mem h hints ≡ true
      → mem h.0 kinds ≡ true
      → find_customer_by_identity t h.0 h.1 repo ≡ none
  unfolding match_kinds mem
  match_kinds-missing [] hints h e m k = ground (arith, k)
  match_kinds-missing (kind ∷ kinds) hints h e m k =
      elim (Option-cases (match_kind t kind hints repo)) [
        | inl missing ↦ ground (
          arith,
          missing,
          match_kind-missing kind hints h missing m,
          match_kinds-missing kinds hints h,
          kind_beq_iff h.0 kind,
          e,
          m,
          k,
        )
        | inr (f, found) ↦ ground (arith, found, e)
      ]

  every_kind : (kind : IdentityKind) → mem kind lookup_priority ≡ true
  unfolding mem kind_beq
  every_kind external_id = refl
  every_kind email = refl
  every_kind phone = refl
  every_kind chat_handle = refl

  -- A walk that finds nothing: no hint leads to a customer.
  pub walk_missing :
      (hints : List IdentityHint) (h : IdentityHint)
      → match_kinds lookup_priority t hints repo ≡ none
      → mem h hints ≡ true
      → find_customer_by_identity t h.0 h.1 repo ≡ none
  walk_missing hints h e m = match_kinds-missing lookup_priority hints h e m (every_kind h.0)

  -- A walk that finds something: it is what one of the hints leads to.
  pub walk_found :
      (hints : List IdentityHint) (h : IdentityHint) (c : Customer)
      → match_kinds lookup_priority t hints repo ≡ some (h, c)
      → (mem h hints ≡ true) × (find_customer_by_identity t h.0 h.1 repo ≡ some c)
  walk_found hints h c e = match_kinds-found lookup_priority hints h c e
