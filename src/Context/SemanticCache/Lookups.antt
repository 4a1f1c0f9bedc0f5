-- ===== src/Context/SemanticCache/Lookups.antt =====
-- How a lookup ends: a miss, or a hit on an entry of the tenant.
use penny_core.Prelude.{
  ℕ, suc, ◌≡◌, refl, sym, subst, String, true, false, Option, none, some, [], ◌∷◌, ◌⊎◌, inl, inr,
  arith, string_eq, nat_eq, Option-cases, Bool-cases, if◌then◌else◌, eq_iff, ◌≢◌,
}
use penny_core.Dict
use penny_core.Dict.{contains-get, get_list-put}
use penny_core.Dict.Ordered.{move_to_end}
use penny_core.Exec.{Exn, Result, ok}
use penny_core.Context.SemanticCache.{
  CacheEntry, CacheResult, HitKind, exact, near, Floats, Namespace, Cache, record_hit, judge, scan,
  lookup, is_empty, missed, miss_result,
}
use penny_core.Context.SemanticCache.Validity.{IsValid, touched, touched-IsValid, record_hit_there}

module _ {Vec Score Cost : Type 0} (floats : Floats Vec Score Cost) where
  -- The scan keeps the best id that it was given or takes one of an entry.
  scan-found :
      (query : Vec) (ns : Namespace Vec) (best : Option ℕ) (sim : Score) (eid : ℕ)
      → (scan floats query ns best sim).0 ≡ some eid
      → (best ≡ some eid) ⊎ (Dict.contains ns eid ≡ true)
  unfolding scan Dict.get
  scan-found query [] best sim eid e = inl e
  scan-found query ((i, first) ∷ ns) best sim eid e =
      let sim' = floats.cosine query first.embedding in
      elim (Bool-cases (floats.is_above sim' sim)) [
        | inl above ↦ ground (arith, above, scan-found query ns (some i) sim' eid, e)
        | inr below ↦ ground (arith, below, scan-found query ns best sim eid, e)
      ]

  some_not_empty :
      (ns : Namespace Vec) (eid : ℕ) (entry : CacheEntry Vec)
      → Dict.get ns eid ≡ some entry
      → is_empty ns ≡ false
  unfolding Dict.get
  some_not_empty [] eid entry h = ground (arith, h)
  some_not_empty (_ ∷ _) eid entry h = refl

  module _ (threshold : Score) (max_entries : ℕ) where
    -- A miss: only the counters change.
    abbrev pub Misses : Cache Vec Cost → Result Exn (CacheResult Score) × Cache Vec Cost → Type 0
    Misses cache r =
        (sim : Score) × (r
          ≡ (ok (miss_result floats sim), record cache { stats = missed floats cache.stats }))

    -- A hit on an entry of the tenant, which is then the newest.
    abbrev pub Hits :
        String → Cache Vec Cost → Result Exn (CacheResult Score) × Cache Vec Cost → Type 0
    Hits t cache r =
        (eid : ℕ) × (entry : CacheEntry Vec) × (sim : Score) × (kind : HitKind) × (Dict.get
            (Dict.get_list cache.entries t) eid
          ≡ some entry)
        × (r ≡ (
          ok (record { hit = true; response = some entry.response; similarity = sim; kind = kind }),
          touched floats threshold max_entries t eid entry kind cache,
        ))

    Hits-there :
        (t : String) (cache : Cache Vec Cost) (eid : ℕ) (entry : CacheEntry Vec) (sim : Score)
        (kind : HitKind)
        → Dict.get (Dict.get_list cache.entries t) eid ≡ some entry
        → Hits t cache (record_hit floats t (Dict.get_list cache.entries t) eid sim kind cache)
    Hits-there t cache eid entry sim kind there = (
      eid,
      entry,
      sim,
      kind,
      there,
      record_hit_there floats threshold max_entries cache t eid entry sim kind there,
    )

    judge-close :
        (t : String) (cache : Cache Vec Cost) (eid : ℕ) (sim : Score)
        → floats.is_at_least sim threshold ≡ true
        → judge floats threshold max_entries t (Dict.get_list cache.entries t) (some eid, sim) cache
          ≡ record_hit floats t
              (Dict.get_list cache.entries t)
              eid
              sim
              (if floats.is_at_least sim floats.exact_score then exact else near)
              cache
    unfolding judge
    judge-close t cache eid sim close = ground (arith, close)

    -- What follows a scan that came to an id of the namespace, or to none.
    judge-cases :
        (t : String) (cache : Cache Vec Cost) (found : Option ℕ × Score)
        → ((eid : ℕ)
            → found.0 ≡ some eid
            → Dict.contains (Dict.get_list cache.entries t) eid ≡ true)
        → Misses cache
            (judge floats threshold max_entries t (Dict.get_list cache.entries t) found cache)
          ⊎ Hits t cache
              (judge floats threshold max_entries t (Dict.get_list cache.entries t) found cache)
    unfolding judge
    judge-cases t cache (none, sim) inside = inl (sim, refl)
    judge-cases t cache (some eid, sim) inside =
        let ns = Dict.get_list cache.entries t in
        let (entry, there) = contains-get ns eid (inside eid refl) in
        elim (Bool-cases (floats.is_at_least sim threshold)) [
          | inr below ↦ inl (sim, ground (arith, below))
          | inl close ↦
              let kind = if floats.is_at_least sim floats.exact_score then exact else near in
              inr (
                subst (Hits t cache) (sym (judge-close t cache eid sim close))
                  (Hits-there t cache eid entry sim kind there))
        ]

    scan_inside :
        (t key : String) (cache : Cache Vec Cost) (eid : ℕ)
        → (scan floats (floats.embed key) (Dict.get_list cache.entries t) none floats.zero_score).0
          ≡ some eid
        → Dict.contains (Dict.get_list cache.entries t) eid ≡ true
    scan_inside t key cache eid e =
        elim (scan-found (floats.embed key) (Dict.get_list cache.entries t) none floats.zero_score
          eid e) [ inl nothing ↦ cc nothing | inr inside ↦ inside ]

    -- The key of an entry that is in the exact index: its response, whatever the threshold.
    pub lookup_known :
        (t key : String) (cache : Cache Vec Cost) (eid : ℕ) (entry : CacheEntry Vec)
        → Dict.get (Dict.get_list cache.exact_ids t) key ≡ some eid
        → Dict.get (Dict.get_list cache.entries t) eid ≡ some entry
        → lookup floats threshold max_entries t key cache ≡ (
          ok (record {
            hit = true;
            response = some entry.response;
            similarity = floats.one_score;
            kind = exact;
          }),
          touched floats threshold max_entries t eid entry exact cache,
        )
    unfolding lookup
    lookup_known t key cache eid entry known there = ground (
      arith,
      known,
      some_not_empty (Dict.get_list cache.entries t) eid entry there,
      record_hit_there floats threshold max_entries cache t eid entry floats.one_score exact there,
    )

    -- A key that is not in the exact index.
    lookup_unknown :
        (t key : String) (cache : Cache Vec Cost)
        → Dict.get (Dict.get_list cache.exact_ids t) key ≡ none
        → Misses cache (lookup floats threshold max_entries t key cache)
          ⊎ Hits t cache (lookup floats threshold max_entries t key cache)
    unfolding lookup
    lookup_unknown t key cache unknown =
        let ns = Dict.get_list cache.entries t in
        let found = scan floats (floats.embed key) ns none floats.zero_score in
        elim (Bool-cases (is_empty ns)) [
          | inl empty ↦ inl (floats.zero_score, ground (arith, empty))
          | inr some_entry ↦
              rw (some_entry, unknown)
                (judge-cases t cache found (λ eid e. scan_inside t key cache eid e))
        ]

    -- How a lookup in a valid cache ends: it never raises.
    pub lookup-cases :
        (t key : String) (cache : Cache Vec Cost)
        → IsValid floats threshold max_entries cache
        → Misses cache (lookup floats threshold max_entries t key cache)
          ⊎ Hits t cache (lookup floats threshold max_entries t key cache)
    lookup-cases t key cache v =
        elim (Option-cases (Dict.get (Dict.get_list cache.exact_ids t) key)) [
          | inl unknown ↦ lookup_unknown t key cache unknown
          | inr (eid, known) ↦
              let (entry, there, _) = (v.synced t).indexed key eid known in
              inr (
                eid,
                entry,
                floats.one_score,
                exact,
                there,
                lookup_known t key cache eid entry known there,
              )
        ]

    missed-IsValid :
        (cache : Cache Vec Cost)
        → IsValid floats threshold max_entries cache
        → IsValid floats threshold max_entries (record cache { stats = missed floats cache.stats })
    missed-IsValid cache v = record {
      synced = v.synced;
      bounded = v.bounded;
      counted = omega (arith, v.counted);
      kinds = v.kinds;
    }

    pub lookup-IsValid :
        (t key : String) (cache : Cache Vec Cost)
        → IsValid floats threshold max_entries cache
        → IsValid floats threshold max_entries (lookup floats threshold max_entries t key cache).1
    lookup-IsValid t key cache v = elim (lookup-cases t key cache v) [
      | inl (sim, result) ↦ rw result (missed-IsValid cache v)
      | inr (eid, entry, sim, kind, there, result) ↦
          rw result (touched-IsValid floats threshold max_entries cache t eid entry kind v there)
    ]

    -- A lookup changes nothing of another tenant.
    pub lookup-others :
        (t key : String) (cache : Cache Vec Cost) (u : String)
        → IsValid floats threshold max_entries cache
        → t ≢ u
        → (Dict.get_list (lookup floats threshold max_entries t key cache).1.entries u
            ≡ Dict.get_list cache.entries u)
          × (Dict.get_list (lookup floats threshold max_entries t key cache).1.exact_ids u
              ≡ Dict.get_list cache.exact_ids u)
    lookup-others t key cache u v other = elim (lookup-cases t key cache v) [
      | inl (sim, result) ↦ rw result (refl, refl)
      | inr (eid, entry, sim, kind, there, result) ↦ rw result (
        ground (
          arith,
          get_list-put cache.entries t u (
              move_to_end eid (record entry { hits = suc entry.hits })
                (Dict.get_list cache.entries t)),
          eq_iff t u,
          other,
        ),
        refl,
      )
    ]

    record_hit-result :
        (u : String) (ns : Namespace Vec) (eid : ℕ) (sim : Score) (kind : HitKind)
        (a b : Cache Vec Cost)
        → (record_hit floats u ns eid sim kind a).0 ≡ (record_hit floats u ns eid sim kind b).0
    unfolding record_hit
    record_hit-result u ns eid sim kind a b = elim (Option-cases (Dict.get ns eid)) [
      | inl missing ↦ ground (arith, missing)
      | inr (entry, there) ↦ ground (arith, there)
    ]

    judge-result :
        (u : String) (ns : Namespace Vec) (found : Option ℕ × Score) (a b : Cache Vec Cost)
        → (judge floats threshold max_entries u ns found a).0
          ≡ (judge floats threshold max_entries u ns found b).0
    unfolding judge
    judge-result u ns (none, sim) a b = refl
    judge-result u ns (some eid, sim) a b =
        let kind = if floats.is_at_least sim floats.exact_score then exact else near in
        ground (arith, record_hit-result u ns eid sim kind a b)

    -- The result of a lookup depends on what the cache holds for the tenant alone.
    pub lookup-local :
        (u key : String) (a b : Cache Vec Cost)
        → Dict.get_list a.entries u ≡ Dict.get_list b.entries u
        → Dict.get_list a.exact_ids u ≡ Dict.get_list b.exact_ids u
        → (lookup floats threshold max_entries u key a).0
          ≡ (lookup floats threshold max_entries u key b).0
    unfolding lookup
    lookup-local u key a b same_entries same_ids =
        let ns = Dict.get_list b.entries u in
        let found = scan floats (floats.embed key) ns none floats.zero_score in
        elim (Option-cases (Dict.get (Dict.get_list b.exact_ids u) key)) [
          | inl unknown ↦
              ground (arith, same_entries, same_ids, unknown, judge-result u ns found a b)
          | inr (eid, known) ↦ ground (
            arith,
            same_entries,
            same_ids,
            known,
            record_hit-result u ns eid floats.one_score exact a b,
          )
        ]
