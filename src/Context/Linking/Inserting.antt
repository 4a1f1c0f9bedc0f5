-- ===== src/Context/Linking/Inserting.antt =====
-- The writes for a payload that nobody is known by: the display name fits, no identity is linked,
-- and every insert succeeds.
use Prim.Native.String.{count}
use package.text.Mathlib.TextLemmas.{length-nil, length-cons}
use penny_core.Prelude.{
  ℕ, zero, suc, ◌≤◌, ◌≡◌, refl, ap, String, Bool, true, false, none, List, [], ◌∷◌, inl, inr,
  string_eq, pair_eq, arith, Option-cases, ◌&&◌, mem, eq_iff, beq_refl,
}
use penny_core.Dict
use penny_core.Dict.{get-put}
use penny_core.Exec.{ok}
use penny_core.Contracts.{fits, fits_optional}
use penny_core.Contracts.Texts.{Texts, AreUnicode, prefix, strip}
use penny_core.Contracts.Json.{Payload, text}
use penny_core.Contracts.Customers.{kind_eq}
use penny_core.Context.Customers.{
  Customers, Supply, any_linked, find_customer_by_identity, insert_identities, ident_index_value,
  store_identity,
}
use penny_core.Context.Customers.Links.{IsLinked}
use penny_core.Context.Customers.Links.Growth.{identity_fits, inserted, insert_identities-step}
use penny_core.Context.Linking.{match_kinds}
use penny_core.Context.Linking.Hints.{
  IdentityHint, lookup_priority, first_name, name_keys, extract_display_name,
}
use penny_core.Context.Linking.Hints.Canonical.{all_canonical, ident_index_value-is_blank}
use penny_core.Context.Linking.Attaching.{index_key-canonical, find_customer-cases}
use penny_core.Context.Linking.Walk.{walk_found}

count-prefix : (n : ℕ) (s : String) → count (prefix n s) ≤ n
unfolding prefix
count-prefix zero s = ground (arith, length-nil)
count-prefix (suc n) String.[] = ground (arith, length-nil)
count-prefix (suc n) (String.◌∷◌ c s) = ground (arith, length-cons c (prefix n s), count-prefix n s)

pub unlinked :
    (repo : Customers) (v : IsLinked repo) (t : String) (h : IdentityHint)
    → find_customer_by_identity t h.0 h.1 repo ≡ none
    → Dict.get repo.identity_index (t, h) ≡ none
unlinked repo v t h missing = elim (find_customer-cases repo v t h) [
  | inl (_, free) ↦ free
  | inr (c, found, _, _) ↦ ground (arith, missing, found)
]

pub walk_unknown :
    (repo : Customers) (t : String) (hints : List IdentityHint)
    → ((h : IdentityHint) → mem h hints ≡ true → find_customer_by_identity t h.0 h.1 repo ≡ none)
    → match_kinds lookup_priority t hints repo ≡ none
walk_unknown repo t hints unknown = elim (Option-cases (match_kinds lookup_priority t hints repo)) [
  | inl nothing ↦ nothing
  | inr ((h, c), walked) ↦
      let (m, found) = walk_found t repo hints h c walked in ground (arith, unknown h m, found)
]

module _ (tx : Texts) where
  -- A display name always fits the contract.
  first_name-fits :
      (payload : Payload) (keys : List String)
      → fits_optional 128 (first_name tx payload keys) ≡ true
  unfolding first_name fits_optional
  first_name-fits payload [] = refl
  first_name-fits payload (key ∷ keys) = elim (Option-cases (Dict.get payload key)) [
    | inr (text raw, there) ↦
        ground (arith, there, first_name-fits payload keys, count-prefix 128 (strip tx raw))
    | inr (_, there) ↦ ground (arith, there, first_name-fits payload keys)
    | inl missing ↦ ground (arith, missing, first_name-fits payload keys)
  ]

  pub extract_display_name-fits :
      (payload : Payload) → fits_optional 128 (extract_display_name tx payload) ≡ true
  unfolding extract_display_name
  extract_display_name-fits payload = first_name-fits payload name_keys

  -- Every value is short enough for the contract.
  abbrev pub all_short : List IdentityHint → Bool
  all_short [] = true
  all_short (h ∷ hints) = fits 256 h.1 && all_short hints

  pub any_linked_unknown :
      (supply : Supply) (t : String) (hints : List IdentityHint) (repo : Customers)
      → all_canonical tx hints ≡ true
      → ((h : IdentityHint) → mem h hints ≡ true → Dict.get repo.identity_index (t, h) ≡ none)
      → any_linked tx t hints repo ≡ false
  unfolding any_linked mem
  any_linked_unknown supply t [] repo c unknown = refl
  any_linked_unknown supply t (h ∷ hints) repo c unknown = ground (
    arith,
    ap (Dict.get repo.identity_index) (index_key-canonical tx supply t h (ground (arith, c))),
    unknown h (ground (arith, beq_refl h)),
    any_linked_unknown supply t hints repo (ground (arith, c))
        (λ g m. unknown g (ground (arith, m))),
  )

  module _ (u : AreUnicode tx) (supply : Supply)
      (ids : (n : ℕ) → fits 64 (supply.new_identity_id n) ≡ true) (t cid : String)
      (tenant_fits : fits 64 t ≡ true) (cid_fits : fits 64 cid ≡ true) where
    -- The loop of inserts comes to its end.
    pub insert_identities_total :
        (hints : List IdentityHint) (repo : Customers)
        → all_canonical tx hints ≡ true
        → all_short hints ≡ true
        → (after : Customers) × (insert_identities tx supply t cid hints repo ≡ (ok tt, after))
          × (after.customers ≡ repo.customers)
    unfolding insert_identities store_identity
    insert_identities_total [] repo c s = (repo, refl, refl)
    insert_identities_total (h ∷ hints) repo c s =
        let (after, rest, same) =
          insert_identities_total hints (inserted tx supply t cid h repo) (ground (arith, c))
            (ground (arith, s)) in
        let fit : identity_fits tx supply repo.drawn t cid h.1 ≡ true = ground (
          arith,
          ids repo.drawn,
          tenant_fits,
          cid_fits,
          c,
          s,
          eq_iff (ident_index_value tx h.0 h.1) h.1,
          ident_index_value-is_blank tx u h.0 h.1,
        ) in
        (
          after,
          ground (arith, insert_identities-step tx supply t cid h hints repo, fit, rest),
          same,
        )
