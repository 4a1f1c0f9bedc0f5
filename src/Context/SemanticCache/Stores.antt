-- ===== src/Context/SemanticCache/Stores.antt =====
-- What `store` leaves, and that a lookup of the key then returns the response.
use penny_core.Prelude.{
  ℕ, suc, ◌-◌, ◌≤◌, ◌≡◌, refl, ap, String, true, none, some, ◌⊎◌, inl, inr, arith, string_eq,
  nat_eq, eq_iff, Option-cases, Bool-cases, length, length-drop, ◌==◌, ◌≢◌,
}
use penny_core.Dict
use penny_core.Dict.{Dict, get_list-put, get-put, get-put_self}
use penny_core.Dict.Ordered.{move_to_end, length-move_to_end, get-drop_newest, get-move_to_end}
use penny_core.Exec.{ok}
use penny_core.Context.Briefs.{estimate_tokens}
use penny_core.Context.SemanticCache.{
  CacheEntry, exact, Floats, Namespace, Cache, evict, lookup, store_new, store,
}
use penny_core.Context.SemanticCache.Namespaces.{
  IsSynced-later, insert-IsSynced, Evicts, evict-Evicts,
}
use penny_core.Context.SemanticCache.Validity.{IsValid, touched, touched_namespace}
use penny_core.Context.SemanticCache.Lookups.{lookup_known}

module _ {Vec Score Cost : Type 0} (floats : Floats Vec Score Cost) (threshold : Score)
    (max_entries : ℕ) (cache : Cache Vec Cost) (v : IsValid floats threshold max_entries cache)
    (t key response : String) where
  abbrev ns : Namespace Vec
  ns = Dict.get_list cache.entries t

  abbrev index : Dict String ℕ
  index = Dict.get_list cache.exact_ids t

  abbrev new_entry : CacheEntry Vec
  new_entry = record {
    key_text = key;
    embedding = floats.embed key;
    response = response;
    input_tokens = estimate_tokens key;
    output_tokens = estimate_tokens response;
    hits = 0;
  }

  -- The namespace and the index of the tenant before the loop of evictions, and after it.
  abbrev grown : Namespace Vec
  grown = move_to_end cache.next_id new_entry ns

  abbrev kept : Namespace Vec × Dict String ℕ × ℕ
  kept = evict max_entries grown (Dict.put index key cache.next_id) cache.stats.evictions

  kept-Evicts :
      Dict.get index key ≡ none
      → Evicts max_entries (suc cache.next_id) grown cache.stats.evictions kept
  kept-Evicts new =
      evict-Evicts max_entries (suc cache.next_id) grown (Dict.put index key cache.next_id)
        cache.stats.evictions (insert-IsSynced cache.next_id ns index new_entry (v.synced t) new)

  -- The next id is not in use.
  next_free : Dict.get ns cache.next_id ≡ none
  next_free = elim (Option-cases (Dict.get ns cache.next_id)) [
    | inl free ↦ free
    | inr (entry, there) ↦ ground (arith, (v.synced t).fresh cache.next_id entry there)
  ]

  grown-length : length grown ≡ suc (length ns)
  grown-length =
      ground
        (arith, length-move_to_end ns cache.next_id new_entry (v.synced t).is_unique, next_free)

  kept-bounded : Dict.get index key ≡ none → length kept.0 ≤ max_entries
  kept-bounded new =
      let (_, e, _) = kept-Evicts new in
      omega (arith, ap length e, length-drop (length grown - max_entries) grown)

  -- The new entry survives the evictions.
  kept-newest :
      1 ≤ max_entries → Dict.get index key ≡ none → Dict.get kept.0 cache.next_id ≡ some new_entry
  kept-newest positive new =
      let (_, e, _) = kept-Evicts new in
      rw e (
        get-drop_newest (length grown - max_entries) ns cache.next_id new_entry next_free
          (omega (arith, grown-length, v.bounded t, positive)))

  store_new-IsValid :
      Dict.get index key ≡ none
      → IsValid floats threshold max_entries
          (store_new floats threshold max_entries t key response cache)
  unfolding store_new
  store_new-IsValid new =
      let (synced, _, _) = kept-Evicts new in
      record {
        synced = λ u. elim (Bool-cases (t == u)) [
          | inl here ↦
              rw
                (
                  get_list-put cache.entries t u kept.0,
                  get_list-put cache.exact_ids t u kept.1,
                  here,
                )
                synced
          | inr other ↦
              rw
                (
                  get_list-put cache.entries t u kept.0,
                  get_list-put cache.exact_ids t u kept.1,
                  other,
                )
                (IsSynced-later cache.next_id (Dict.get_list cache.entries u)
                  (Dict.get_list cache.exact_ids u) (v.synced u))
        ];
        bounded = λ u. elim (Bool-cases (t == u)) [
          | inl here ↦ rw (get_list-put cache.entries t u kept.0, here) (kept-bounded new)
          | inr other ↦ rw (get_list-put cache.entries t u kept.0, other) (v.bounded u)
        ];
        counted = v.counted;
        kinds = v.kinds;
      }

  -- A refreshed entry.
  abbrev refreshed : CacheEntry Vec → CacheEntry Vec
  refreshed entry = record entry { response = response; output_tokens = estimate_tokens response }

  abbrev refresh : ℕ → CacheEntry Vec → Cache Vec Cost
  refresh eid entry = record cache {
    entries = Dict.put cache.entries t (move_to_end eid (refreshed entry) ns);
    stats = record cache.stats { stores = suc cache.stats.stores };
  }

  refresh-IsValid :
      (eid : ℕ) (entry : CacheEntry Vec)
      → Dict.get ns eid ≡ some entry
      → IsValid floats threshold max_entries (refresh eid entry)
  refresh-IsValid eid entry there = record {
    synced = λ u.
        (touched_namespace floats threshold max_entries cache t u eid entry (refreshed entry) v
          there refl).0;
    bounded = λ u.
        (touched_namespace floats threshold max_entries cache t u eid entry (refreshed entry) v
          there refl).1;
    counted = v.counted;
    kinds = v.kinds;
  }

  -- How a call of `store` ends: it stores a new entry or refreshes the one of the key.
  store-cases :
      ((Dict.get index key ≡ none)
        × (store floats threshold max_entries t key response cache
            ≡ (ok tt, store_new floats threshold max_entries t key response cache)))
      ⊎ ((eid : ℕ) × (entry : CacheEntry Vec) × (Dict.get index key ≡ some eid)
          × (Dict.get ns eid ≡ some entry)
          × (store floats threshold max_entries t key response cache ≡ (ok tt, refresh eid entry)))
  unfolding store
  store-cases = elim (Option-cases (Dict.get index key)) [
    | inl new ↦ inl (new, ground (arith, new))
    | inr (eid, known) ↦
        let (entry, there, _) = (v.synced t).indexed key eid known in
        inr (eid, entry, known, there, ground (arith, known, there))
  ]

  pub store-IsValid :
      IsValid floats threshold max_entries
        (store floats threshold max_entries t key response cache).1
  store-IsValid = elim store-cases [
    | inl (new, result) ↦ rw result (store_new-IsValid new)
    | inr (eid, entry, known, there, result) ↦ rw result (refresh-IsValid eid entry there)
  ]

  -- After a call, the index leads from the key to an entry with the response.
  stored_entry :
      1 ≤ max_entries
      → (eid : ℕ) × (entry : CacheEntry Vec) × ((store floats threshold max_entries t key response
            cache).0
          ≡ ok tt)
        × (Dict.get
              (Dict.get_list
                (store floats threshold max_entries t key response cache).1.exact_ids
                t)
              key
            ≡ some eid)
        × (Dict.get
              (Dict.get_list (store floats threshold max_entries t key response cache).1.entries t)
              eid
            ≡ some entry)
        × (entry.response ≡ response)
  unfolding store_new
  stored_entry positive = elim store-cases [
    | inl (new, result) ↦
        let newest = kept-newest positive new in
        let (synced, _, _) = kept-Evicts new in
        rw result (
          cache.next_id,
          new_entry,
          refl,
          ground (
            arith,
            get-put_self cache.exact_ids t kept.1,
            synced.named cache.next_id new_entry newest,
          ),
          ground (arith, get-put_self cache.entries t kept.0, newest),
          refl,
        )
    | inr (eid, entry, known, there, result) ↦ rw result (
      eid,
      refreshed entry,
      refl,
      known,
      ground (
        arith,
        get-put_self cache.entries t (move_to_end eid (refreshed entry) ns),
        get-move_to_end ns eid eid (refreshed entry),
      ),
      refl,
    )
  ]

  -- In a cache that is valid and keeps at least one entry for a tenant, a store returns, and a
  -- lookup of the same key for the tenant then hits exactly and returns the stored response,
  -- whether the key was new, which may have evicted an entry, or known.
  pub lookup-store :
      1 ≤ max_entries
      → (after : Cache Vec Cost) × (later : Cache Vec Cost) × (store floats threshold max_entries t
            key response cache
          ≡ (ok tt, after))
        × (lookup floats threshold max_entries t key after ≡ (
          ok (record {
            hit = true;
            response = some response;
            similarity = floats.one_score;
            kind = exact;
          }),
          later,
        ))
  lookup-store positive =
      let after = (store floats threshold max_entries t key response cache).1 in
      let (eid, entry, returned, known, there, same) = stored_entry positive in
      (
        after,
        touched floats threshold max_entries t eid entry exact after,
        ground (arith, returned),
        ground (
          arith,
          lookup_known floats threshold max_entries t key after eid entry known there,
          same,
        ),
      )

  -- A call changes nothing of another tenant.
  pub store-others :
      (u : String)
      → t ≢ u
      → (Dict.get_list (store floats threshold max_entries t key response cache).1.entries u
          ≡ Dict.get_list cache.entries u)
        × (Dict.get_list (store floats threshold max_entries t key response cache).1.exact_ids u
            ≡ Dict.get_list cache.exact_ids u)
  unfolding store_new
  store-others u other = elim store-cases [
    | inl (new, result) ↦ rw result (
      ground (arith, get_list-put cache.entries t u kept.0, eq_iff t u, other),
      ground (arith, get_list-put cache.exact_ids t u kept.1, eq_iff t u, other),
    )
    | inr (eid, entry, known, there, result) ↦ rw result (
      ground (
        arith,
        get_list-put cache.entries t u (move_to_end eid (refreshed entry) ns),
        eq_iff t u,
        other,
      ),
      refl,
    )
  ]
