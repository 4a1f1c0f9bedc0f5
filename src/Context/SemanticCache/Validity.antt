-- ===== src/Context/SemanticCache/Validity.antt =====
-- The cache stays valid under every call, and no call raises.
use penny_core.Prelude.{
  ℕ, suc, ◌+◌, ◌≤◌, ◌≡◌, refl, subst, String, true, some, inl, inr, arith, string_eq, nat_eq,
  eq_iff, Bool-cases, length, ◌==◌,
}
use penny_core.Dict
use penny_core.Dict.{Dict, get_list-put}
use penny_core.Dict.Ordered.{move_to_end, length-move_to_end}
use penny_core.Exec.{ok}
use penny_core.Context.SemanticCache.{
  CacheEntry, HitKind, exact, near, miss, Floats, Namespace, Cache, empty_cache, record_hit,
  hit_stats,
}
use penny_core.Context.SemanticCache.Namespaces.{IsSynced, empty-IsSynced, touch-IsSynced}

module _ {Vec Score Cost : Type 0} (floats : Floats Vec Score Cost) (threshold : Score)
    (max_entries : ℕ) where
  abbrev pub namespace_of : String → Cache Vec Cost → Namespace Vec
  namespace_of t cache = Dict.get_list cache.entries t

  abbrev pub index_of : String → Cache Vec Cost → Dict String ℕ
  index_of t cache = Dict.get_list cache.exact_ids t

  -- Every tenant has at most the allowed number of entries, in step with its exact index, and the
  -- counters of hits and misses add up.
  pub record IsValid (cache : Cache Vec Cost) : Type 0 where
    pub synced : (t : String) → IsSynced cache.next_id (namespace_of t cache) (index_of t cache)
    pub bounded : (t : String) → length (namespace_of t cache) ≤ max_entries
    pub counted : cache.stats.hits + cache.stats.misses ≡ cache.stats.lookups
    pub kinds : cache.stats.exact_hits + cache.stats.near_hits ≡ cache.stats.hits

  pub empty_cache-IsValid : IsValid (empty_cache floats)
  unfolding Dict.get
  empty_cache-IsValid = record {
    synced = λ t. empty-IsSynced 0;
    bounded = λ t. omega arith;
    counted = refl;
    kinds = refl;
  }

  -- What `_record_hit` leaves for an entry that is there.
  abbrev pub touched : String → ℕ → CacheEntry Vec → HitKind → Cache Vec Cost → Cache Vec Cost
  touched t eid entry kind cache = record cache {
    entries =
        Dict.put cache.entries t
          (move_to_end eid (record entry { hits = suc entry.hits }) (namespace_of t cache));
    stats = hit_stats floats kind entry cache.stats;
  }

  -- A namespace that holds entries of the same keys in place of another.
  pub touched_namespace :
      (cache : Cache Vec Cost) (t u : String) (eid : ℕ) (entry changed : CacheEntry Vec)
      → IsValid cache
      → Dict.get (namespace_of t cache) eid ≡ some entry
      → changed.key_text ≡ entry.key_text
      → IsSynced cache.next_id
          (Dict.get_list
            (Dict.put cache.entries t (move_to_end eid changed (namespace_of t cache)))
            u)
          (index_of u cache)
        × (length (
              Dict.get_list
                (Dict.put cache.entries t (move_to_end eid changed (namespace_of t cache)))
                u)
            ≤ max_entries)
  touched_namespace cache t u eid entry changed v there same =
      let ns = namespace_of t cache in
      elim (Bool-cases (t == u)) [
        | inl here ↦
            let at = (eq_iff t u).0 here in
            rw (get_list-put cache.entries t u (move_to_end eid changed ns), here)
              (
                subst (λ x. IsSynced cache.next_id (move_to_end eid changed ns) (index_of x cache))
                    at
                    (touch-IsSynced cache.next_id ns (index_of t cache) eid entry changed
                      (v.synced t) there same),
                ground (
                  arith,
                  length-move_to_end ns eid changed (v.synced t).is_unique,
                  there,
                  v.bounded t,
                ),
              )
        | inr other ↦
            rw (get_list-put cache.entries t u (move_to_end eid changed ns), other)
              (v.synced u, v.bounded u)
      ]

  pub touched-IsValid :
      (cache : Cache Vec Cost) (t : String) (eid : ℕ) (entry : CacheEntry Vec) (kind : HitKind)
      → IsValid cache
      → Dict.get (namespace_of t cache) eid ≡ some entry
      → IsValid (touched t eid entry kind cache)
  touched-IsValid cache t eid entry kind v there =
      let changed : CacheEntry Vec = record entry { hits = suc entry.hits } in
      record {
        synced = λ u. (touched_namespace cache t u eid entry changed v there refl).0;
        bounded = λ u. (touched_namespace cache t u eid entry changed v there refl).1;
        counted = omega (arith, v.counted);
        kinds =
            elim kind
              as (λ k.
                (touched t eid entry k cache).stats.exact_hits
                  + (touched t eid entry k cache).stats.near_hits
                ≡ suc cache.stats.hits) [
                  | exact ↦ omega (arith, v.kinds)
                  | near ↦ omega (arith, v.kinds)
                  | miss ↦ omega (arith, v.kinds)
                ];
      }

  -- A hit on an entry that is there returns its response.
  pub record_hit_there :
      (cache : Cache Vec Cost) (t : String) (eid : ℕ) (entry : CacheEntry Vec) (sim : Score)
      (kind : HitKind)
      → Dict.get (namespace_of t cache) eid ≡ some entry
      → record_hit floats t (namespace_of t cache) eid sim kind cache ≡ (
        ok (record { hit = true; response = some entry.response; similarity = sim; kind = kind }),
        touched t eid entry kind cache,
      )
  unfolding record_hit
  record_hit_there cache t eid entry sim kind there = ground (arith, there)
