-- ===== src/Context/Linking/Hints/Extraction.antt =====
-- What `extract_identity_hints` returns: each recognised identity once, canonical, in the order of
-- the lookup priority.
use penny_core.Prelude.{
  ◌≡◌, String, Bool, true, false, not, Option, none, some, List, [], ◌∷◌, ◌&&◌, ◌||◌, ◌==◌,
  string_eq, pair_eq, arith, refl, mem, distinct, Option-cases, inl, inr, leb, beq_sym, beq_refl,
  pair_beq_iff,
}
use penny_core.Contracts.Json.{Payload}
use penny_core.Contracts.Texts.{Texts, AreUnicode}
use penny_core.Contracts.Customers.{IdentityKind, kind_eq}
use penny_core.Context.Linking.Hints.{
  IdentityHint, hint_at, priority_index, insert_hint, sort_hints, collect_hints,
  payload_key_to_kind, extract_identity_hints,
}
use penny_core.Context.Linking.Hints.Canonical.{all_canonical, hint_at-is_canonical}

-- No hint comes before one of a higher priority.
abbrev pub by_priority : List IdentityHint → Bool
by_priority [] = true
by_priority (h ∷ []) = true
by_priority (h ∷ g ∷ hints) =
    leb (priority_index h.0) (priority_index g.0) && by_priority (g ∷ hints)

insert_hint-by_priority :
    (h : IdentityHint) (hints : List IdentityHint)
    → by_priority hints ≡ true
    → by_priority (insert_hint h hints) ≡ true
unfolding insert_hint
insert_hint-by_priority h [] s = refl
insert_hint-by_priority h (g ∷ []) s = ground arith
insert_hint-by_priority h (g ∷ f ∷ hints) s =
    ground (arith, insert_hint-by_priority h (f ∷ hints), s)

sort_hints-by_priority : (hints : List IdentityHint) → by_priority (sort_hints hints) ≡ true
unfolding sort_hints
sort_hints-by_priority [] = refl
sort_hints-by_priority (h ∷ hints) =
    insert_hint-by_priority h (sort_hints hints) (sort_hints-by_priority hints)

mem-insert_hint :
    (a h : IdentityHint) (hints : List IdentityHint)
    → mem a (insert_hint h hints) ≡ mem a (h ∷ hints)
unfolding mem insert_hint
mem-insert_hint a h [] = refl
mem-insert_hint a h (g ∷ hints) = ground (arith, mem-insert_hint a h hints)

pub mem-sort_hints :
    (a : IdentityHint) (hints : List IdentityHint) → mem a (sort_hints hints) ≡ mem a hints
unfolding mem sort_hints
mem-sort_hints a [] = refl
mem-sort_hints a (h ∷ hints) =
    ground (arith, mem-insert_hint a h (sort_hints hints), mem-sort_hints a hints)

distinct-insert_hint :
    (h : IdentityHint) (hints : List IdentityHint)
    → distinct (insert_hint h hints) ≡ distinct (h ∷ hints)
unfolding mem distinct insert_hint
distinct-insert_hint h [] = refl
distinct-insert_hint h (g ∷ hints) =
    ground (arith, mem-insert_hint g h hints, distinct-insert_hint h hints, beq_sym h g)

distinct-sort_hints : (hints : List IdentityHint) → distinct (sort_hints hints) ≡ distinct hints
unfolding distinct sort_hints
distinct-sort_hints [] = refl
distinct-sort_hints (h ∷ hints) = ground (
  arith,
  distinct-insert_hint h (sort_hints hints),
  mem-sort_hints h hints,
  distinct-sort_hints hints,
)

-- `h` is the hint under one of the keys.
abbrev is_hint : Option IdentityHint → IdentityHint → Bool
is_hint none h = false
is_hint (some g) h = h == g

module _ (tx : Texts) (payload : Payload) where
  unfoldable pub stated : List (String × IdentityKind) → IdentityHint → Bool
  stated [] h = false
  stated ((key, kind) ∷ keys) h = is_hint (hint_at tx payload key kind) h || stated keys h

  mem-collect_hints :
      (keys : List (String × IdentityKind)) (seen : List IdentityHint) (h : IdentityHint)
      → mem h (collect_hints tx payload keys seen) ≡ (stated keys h && not (mem h seen))
  unfolding mem collect_hints stated
  mem-collect_hints [] seen h = refl
  mem-collect_hints ((key, kind) ∷ keys) seen h =
      elim (Option-cases (hint_at tx payload key kind)) [
        | inl missing ↦ ground (arith, missing, mem-collect_hints keys seen h)
        | inr (g, there) ↦ ground (
          arith,
          there,
          mem-collect_hints keys seen h,
          mem-collect_hints keys (g ∷ seen) h,
          pair_beq_iff h g,
        )
      ]

  distinct-collect_hints :
      (keys : List (String × IdentityKind)) (seen : List IdentityHint)
      → distinct (collect_hints tx payload keys seen) ≡ true
  unfolding mem distinct collect_hints
  distinct-collect_hints [] seen = refl
  distinct-collect_hints ((key, kind) ∷ keys) seen =
      elim (Option-cases (hint_at tx payload key kind)) [
        | inl missing ↦ ground (arith, missing, distinct-collect_hints keys seen)
        | inr (g, there) ↦ ground (
          arith,
          there,
          distinct-collect_hints keys seen,
          distinct-collect_hints keys (g ∷ seen),
          mem-collect_hints keys (g ∷ seen) g,
          beq_refl g,
        )
      ]

  module _ (u : AreUnicode tx) where
    collect_hints-all_canonical :
        (keys : List (String × IdentityKind)) (seen : List IdentityHint)
        → all_canonical tx (collect_hints tx payload keys seen) ≡ true
    unfolding collect_hints
    collect_hints-all_canonical [] seen = refl
    collect_hints-all_canonical ((key, kind) ∷ keys) seen =
        elim (Option-cases (hint_at tx payload key kind)) [
          | inl missing ↦ ground (arith, missing, collect_hints-all_canonical keys seen)
          | inr (g, there) ↦ ground (
            arith,
            there,
            collect_hints-all_canonical keys seen,
            collect_hints-all_canonical keys (g ∷ seen),
            hint_at-is_canonical tx u payload key kind g there,
          )
        ]

    insert_hint-all_canonical :
        (h : IdentityHint) (hints : List IdentityHint)
        → all_canonical tx (insert_hint h hints) ≡ all_canonical tx (h ∷ hints)
    unfolding insert_hint
    insert_hint-all_canonical h [] = refl
    insert_hint-all_canonical h (g ∷ hints) = ground (arith, insert_hint-all_canonical h hints)

    sort_hints-all_canonical :
        (hints : List IdentityHint) → all_canonical tx (sort_hints hints) ≡ all_canonical tx hints
    unfolding sort_hints
    sort_hints-all_canonical [] = refl
    sort_hints-all_canonical (h ∷ hints) =
        ground
          (arith, insert_hint-all_canonical h (sort_hints hints), sort_hints-all_canonical hints)

    -- Where the Unicode tables behave as documented, the hints of a payload are canonical and
    -- pairwise distinct, none comes before one of a higher priority, and they are those that the
    -- recognised keys of the payload state.
    pub extract_identity_hints_lem :
        (all_canonical tx (extract_identity_hints tx payload) ≡ true)
        × (distinct (extract_identity_hints tx payload) ≡ true)
        × (by_priority (extract_identity_hints tx payload) ≡ true)
        × ((h : IdentityHint)
            → mem h (extract_identity_hints tx payload) ≡ stated payload_key_to_kind h)
    unfolding extract_identity_hints mem
    extract_identity_hints_lem =
        let found = collect_hints tx payload payload_key_to_kind [] in
        (
          ground (
            arith,
            sort_hints-all_canonical found,
            collect_hints-all_canonical payload_key_to_kind [],
          ),
          ground (arith, distinct-sort_hints found, distinct-collect_hints payload_key_to_kind []),
          sort_hints-by_priority found,
          λ h. ground (arith, mem-sort_hints h found, mem-collect_hints payload_key_to_kind [] h),
        )
