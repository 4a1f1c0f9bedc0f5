-- ===== src/Context/SemanticCache.antt =====
-- context_engine/llm/semantic_cache.py. Embeddings, similarities and costs are floating-point
-- numbers: types and operations that are parameters.
pub mod Namespaces
pub mod Validity
pub mod Lookups
pub mod Stores
pub mod Calls
pub mod Client
mod Tests
use penny_core.Prelude.{
  ℕ, suc, ◌+◌, String, Bool, true, false, Option, none, some, List, [], ◌∷◌, ◌++◌, ◌==◌, ◌&&◌,
  if◌then◌else◌, string_eq, nat_eq, get_or, leb, ltb, length, snoc, nat_beq,
}
use penny_core.Dict
use penny_core.Dict.{Dict}
use penny_core.Dict.Ordered.{move_to_end}
use penny_core.Exec.{
  Exn, Result, ok, err, Exec, pure, raise_if, ◌>>=◌, ◌>>◌, key_error, value_error, on_part, modify,
}
use penny_core.Context.Briefs.{estimate_tokens}

pub record CacheEntry (Vec : Type 0) : Type 0 where
  pub key_text : String
  pub embedding : Vec
  pub response : String
  pub input_tokens : ℕ
  pub output_tokens : ℕ
  pub hits : ℕ

-- `CacheResult.kind`
pub data HitKind : Type 0 where
  exact near miss : HitKind

pub record CacheResult (Score : Type 0) : Type 0 where
  pub hit : Bool
  pub response : Option String
  pub similarity : Score
  pub kind : HitKind

pub record CacheStats (Cost : Type 0) : Type 0 where
  pub lookups : ℕ
  pub hits : ℕ
  pub misses : ℕ
  pub exact_hits : ℕ
  pub near_hits : ℕ
  pub stores : ℕ
  pub evictions : ℕ
  pub input_tokens_saved : ℕ
  pub output_tokens_saved : ℕ
  pub cost_saved_usd : Cost

-- `_embed`, `_cosine`, the comparisons of similarities and the prices.
pub record Floats (Vec Score Cost : Type 0) : Type 0 where
  pub embed : String → Vec
  pub cosine : Vec → Vec → Score
  pub zero_score : Score
  pub one_score : Score
  pub exact_score : Score
  pub is_above : Score → Score → Bool
  pub is_at_least : Score → Score → Bool
  pub no_cost : Cost
  pub add_entry_cost : Cost → ℕ → ℕ → Cost

-- The entries of one tenant in their order of use, the oldest first.
abbrev pub Namespace : Type 0 → Type 0
Namespace Vec = Dict ℕ (CacheEntry Vec)

pub record Cache (Vec Cost : Type 0) : Type 0 where
  pub entries : Dict String (Namespace Vec)
  pub exact_ids : Dict String (Dict String ℕ)
  pub next_id : ℕ
  pub stats : CacheStats Cost

-- `exact_index.get(key) == eid`
abbrev pub points_to : Dict String ℕ → String → ℕ → Bool
points_to index key eid = elim (Dict.get index key) [ none ↦ false | some i ↦ nat_beq i eid ]

-- The pops of `_evict_if_needed`, with the exact index of the tenant and the count of evictions.
unfoldable pub evict :
    {Vec : Type 0} → ℕ → Namespace Vec → Dict String ℕ → ℕ → Namespace Vec × Dict String ℕ × ℕ
evict max_entries [] index n = ([], index, n)
evict max_entries ((eid, evicted) ∷ ns) index n =
    let index' =
      if points_to index evicted.key_text eid then Dict.remove index evicted.key_text else index in
    let rest = evict max_entries ns index' (suc n) in
    if ltb max_entries (suc (length ns)) then rest else ((eid, evicted) ∷ ns, index, n)

-- `not ns`
abbrev pub is_empty {ℓ} : {A : Type ℓ} → List A → Bool
is_empty [] = true
is_empty (_ ∷ _) = false

abbrev total_entries : {Vec : Type 0} → Dict String (Namespace Vec) → ℕ
total_entries [] = 0
total_entries ((t, ns) ∷ d) = length ns + total_entries d

module _ {Vec Score Cost : Type 0} (floats : Floats Vec Score Cost) where
  abbrev pub no_stats : CacheStats Cost
  no_stats = record {
    lookups = 0;
    hits = 0;
    misses = 0;
    exact_hits = 0;
    near_hits = 0;
    stores = 0;
    evictions = 0;
    input_tokens_saved = 0;
    output_tokens_saved = 0;
    cost_saved_usd = floats.no_cost;
  }

  -- A new cache, and what `clear` leaves.
  abbrev pub empty_cache : Cache Vec Cost
  empty_cache = record { entries = []; exact_ids = []; next_id = 0; stats = no_stats }

  unfoldable pub new_cache : Score → ℕ → Result Exn (Cache Vec Cost)
  new_cache threshold max_entries =
      if floats.is_above threshold floats.zero_score
        && floats.is_at_least floats.one_score threshold
        && ltb 0 max_entries
      then ok empty_cache
      else err value_error

  unfoldable pub entry_count : Option String → Cache Vec Cost → ℕ
  entry_count (some tenant_id) cache = length (Dict.get_list cache.entries tenant_id)
  entry_count none cache = total_entries cache.entries

  -- The counters after a lookup that misses.
  abbrev pub missed : CacheStats Cost → CacheStats Cost
  missed stats = record stats { lookups = suc stats.lookups; misses = suc stats.misses }

  abbrev pub miss_result : Score → CacheResult Score
  miss_result similarity = record {
    hit = false;
    response = none;
    similarity = similarity;
    kind = miss;
  }

  abbrev pub count_exact : HitKind → ℕ → ℕ
  count_exact exact n = suc n
  count_exact near n = n
  count_exact miss n = n

  abbrev pub count_near : HitKind → ℕ → ℕ
  count_near exact n = n
  count_near near n = suc n
  count_near miss n = suc n

  -- The counters after a lookup that hits an entry.
  abbrev pub hit_stats : HitKind → CacheEntry Vec → CacheStats Cost → CacheStats Cost
  hit_stats kind entry stats = record stats {
    lookups = suc stats.lookups;
    hits = suc stats.hits;
    exact_hits = count_exact kind stats.exact_hits;
    near_hits = count_near kind stats.near_hits;
    input_tokens_saved = stats.input_tokens_saved + entry.input_tokens;
    output_tokens_saved = stats.output_tokens_saved + entry.output_tokens;
    cost_saved_usd =
        floats.add_entry_cost stats.cost_saved_usd entry.input_tokens entry.output_tokens;
  }

  -- `_record_hit` in the namespace of a tenant; an id that is not there is a KeyError.
  unfoldable pub record_hit :
      String → Namespace Vec → ℕ → Score → HitKind → Exec (Cache Vec Cost) (CacheResult Score)
  record_hit tenant_id ns eid similarity kind cache = elim (Dict.get ns eid) [
    | none ↦ (
      err key_error,
      record cache { stats = record cache.stats { lookups = suc cache.stats.lookups } },
    )
    | some entry ↦ (
      ok (record {
        hit = true;
        response = some entry.response;
        similarity = similarity;
        kind = kind;
      }),
      record cache {
        entries =
            Dict.put cache.entries tenant_id
              (move_to_end eid (record entry { hits = suc entry.hits }) ns);
        stats = hit_stats kind entry cache.stats;
      },
    )
  ]

  -- The nearest-neighbour scan: the best id so far and its similarity.
  unfoldable pub scan : Vec → Namespace Vec → Option ℕ → Score → Option ℕ × Score
  scan query [] best sim = (best, sim)
  scan query ((eid, entry) ∷ ns) best sim =
      let sim' = floats.cosine query entry.embedding in
      let replaced = scan query ns (some eid) sim' in
      let kept = scan query ns best sim in if floats.is_above sim' sim then replaced else kept

  module _ (threshold : Score) (max_entries : ℕ) where
    -- What follows the scan.
    unfoldable pub judge :
        String → Namespace Vec → Option ℕ × Score → Exec (Cache Vec Cost) (CacheResult Score)
    judge tenant_id ns (none, sim) cache =
        (ok (miss_result sim), record cache { stats = missed cache.stats })
    judge tenant_id ns (some eid, sim) cache =
        if floats.is_at_least sim threshold
        then record_hit tenant_id ns eid sim
            (if floats.is_at_least sim floats.exact_score then exact else near) cache
        else (ok (miss_result sim), record cache { stats = missed cache.stats })

    unfoldable pub lookup : String → String → Exec (Cache Vec Cost) (CacheResult Score)
    lookup tenant_id key_text cache =
        let ns = Dict.get_list cache.entries tenant_id in
        let judged =
          judge tenant_id ns (scan (floats.embed key_text) ns none floats.zero_score) cache in
        let found : Result Exn (CacheResult Score) × Cache Vec Cost =
          elim (Dict.get (Dict.get_list cache.exact_ids tenant_id) key_text) [
            | some eid ↦ record_hit tenant_id ns eid floats.one_score exact cache
            | none ↦ judged
          ] in
        if is_empty ns
        then (ok (miss_result floats.zero_score), record cache { stats = missed cache.stats })
        else found

    -- A response for a key that is new to the tenant.
    unfoldable pub store_new : String → String → String → Cache Vec Cost → Cache Vec Cost
    store_new tenant_id key_text response cache =
        let entry : CacheEntry Vec = record {
          key_text = key_text;
          embedding = floats.embed key_text;
          response = response;
          input_tokens = estimate_tokens key_text;
          output_tokens = estimate_tokens response;
          hits = 0;
        } in
        let ns = move_to_end cache.next_id entry (Dict.get_list cache.entries tenant_id) in
        let index = Dict.put (Dict.get_list cache.exact_ids tenant_id) key_text cache.next_id in
        let (kept, index', evictions) = evict max_entries ns index cache.stats.evictions in
        record {
          entries = Dict.put cache.entries tenant_id kept;
          exact_ids = Dict.put cache.exact_ids tenant_id index';
          next_id = suc cache.next_id;
          stats = record cache.stats { stores = suc cache.stats.stores; evictions = evictions };
        }

    unfoldable pub store : String → String → String → Exec (Cache Vec Cost) (Unit {0})
    store tenant_id key_text response cache =
        let ns = Dict.get_list cache.entries tenant_id in
        elim (Dict.get (Dict.get_list cache.exact_ids tenant_id) key_text) [
          | none ↦ (ok tt, store_new tenant_id key_text response cache)
          | some eid ↦ elim (Dict.get ns eid) [
            | none ↦ (err key_error, record cache { entries = Dict.put cache.entries tenant_id ns })
            | some entry ↦ (
              ok tt,
              record cache {
                entries = Dict.put cache.entries tenant_id (
                    move_to_end eid
                      (record entry {
                        response = response;
                        output_tokens = estimate_tokens response;
                      })
                      ns);
                stats = record cache.stats { stores = suc cache.stats.stores };
              },
            )
          ]
        ]

    -- The response of the wrapped client, which is stored when it comes.
    abbrev pub keep_response :
        {W : Type 0}
        → String
        → String
        → Cache Vec Cost
        → Result Exn String × W
        → Result Exn String × (Cache Vec Cost × W)
    keep_response tenant_id prompt cache (err x, w) = (err x, (cache, w))
    keep_response tenant_id prompt cache (ok response, w) =
        let (stored, cache') = store tenant_id prompt response cache in
        elim stored [ err x ↦ (err x, (cache', w)) | ok _ ↦ (ok response, (cache', w)) ]

    -- What follows the lookup in `complete`.
    abbrev pub respond :
        {W : Type 0}
        → (String → Exec W String)
        → String
        → String
        → W
        → Result Exn (CacheResult Score) × Cache Vec Cost
        → Result Exn String × (Cache Vec Cost × W)
    respond inner tenant_id prompt w (err x, cache) = (err x, (cache, w))
    respond inner tenant_id prompt w (ok result, cache) =
        let asked = keep_response tenant_id prompt cache (inner prompt w) in
        if result.hit
        then elim result.response [ some response ↦ (ok response, (cache, w)) | none ↦ asked ]
        else asked

    -- `CachingLLMClient.complete`, where `inner` is the wrapped client's call, which may raise.
    unfoldable pub complete :
        {W : Type 0} → (String → Exec W String) → String → String → Exec (Cache Vec Cost × W) String
    complete inner tenant_id prompt (cache, w) =
        respond inner tenant_id prompt w (lookup tenant_id prompt cache)
