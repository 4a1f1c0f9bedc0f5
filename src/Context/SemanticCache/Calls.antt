-- ===== src/Context/SemanticCache/Calls.antt =====
-- Sequences of calls on a cache, and what the calls for one tenant mean to another.
use penny_core.Prelude.{
  ℕ, ◌≡◌, ◌≢◌, refl, String, Bool, true, false, List, [], ◌∷◌, arith, ◌∙◌, string_eq, nat_eq,
  eq_iff, if◌then◌else◌, ◌==◌,
}
use penny_core.Dict
use penny_core.Dict.{get_list-put}
use penny_core.Context.SemanticCache.{Floats, Cache, empty_cache, lookup, store}
use penny_core.Context.SemanticCache.Validity.{IsValid, empty_cache-IsValid}
use penny_core.Context.SemanticCache.Lookups.{lookup-IsValid, lookup-others, lookup-local}
use penny_core.Context.SemanticCache.Stores.{store-IsValid, store-others}

-- A call on the cache, with its tenant.
pub data CacheCall : Type 0 where
  look : String → String → CacheCall
  keep : String → String → String → CacheCall

abbrev pub tenant_of : CacheCall → String
tenant_of (look t key) = t
tenant_of (keep t key response) = t

module _ {Vec Score Cost : Type 0} (floats : Floats Vec Score Cost) (threshold : Score)
    (max_entries : ℕ) where
  -- The cache after a call.
  abbrev pub perform : CacheCall → Cache Vec Cost → Cache Vec Cost
  perform (look t key) cache = (lookup floats threshold max_entries t key cache).1
  perform (keep t key response) cache = (store floats threshold max_entries t key response cache).1

  abbrev pub perform_all : List CacheCall → Cache Vec Cost → Cache Vec Cost
  perform_all [] cache = cache
  perform_all (c ∷ calls) cache = perform_all calls (perform c cache)

  pub perform-IsValid :
      (c : CacheCall) (cache : Cache Vec Cost)
      → IsValid floats threshold max_entries cache
      → IsValid floats threshold max_entries (perform c cache)
  perform-IsValid (look t key) cache v = lookup-IsValid floats threshold max_entries t key cache v
  perform-IsValid (keep t key response) cache v =
      store-IsValid floats threshold max_entries cache v t key response

  perform_all-IsValid :
      (calls : List CacheCall) (cache : Cache Vec Cost)
      → IsValid floats threshold max_entries cache
      → IsValid floats threshold max_entries (perform_all calls cache)
  perform_all-IsValid [] cache v = v
  perform_all-IsValid (c ∷ calls) cache v =
      perform_all-IsValid calls (perform c cache) (perform-IsValid c cache v)

  -- After any sequence of lookups and stores on a new cache, every tenant has at most the allowed
  -- number of entries, its exact index leads from the key of each of them to the entry and to
  -- nothing else, every lookup was counted as a hit or a miss, and every hit as exact or near.
  pub calls_keep-IsValid :
      (calls : List CacheCall)
      → IsValid floats threshold max_entries (perform_all calls (empty_cache floats))
  calls_keep-IsValid calls =
      perform_all-IsValid calls (empty_cache floats)
        (empty_cache-IsValid floats threshold max_entries)

  -- Two caches that hold the same for a tenant.
  abbrev Agree : String → Cache Vec Cost → Cache Vec Cost → Type 0
  Agree u a b =
      (Dict.get_list a.entries u ≡ Dict.get_list b.entries u)
      × (Dict.get_list a.exact_ids u ≡ Dict.get_list b.exact_ids u)

  perform-Agree :
      (c : CacheCall) (u : String) (cache : Cache Vec Cost)
      → IsValid floats threshold max_entries cache
      → tenant_of c ≢ u
      → Agree u (perform c cache) cache
  perform-Agree (look t key) u cache v other =
      lookup-others floats threshold max_entries t key cache u v other
  perform-Agree (keep t key response) u cache v other =
      store-others floats threshold max_entries cache v t key response u other

  -- No call of the list is for the tenant.
  abbrev pub all_foreign : String → List CacheCall → Bool
  all_foreign u [] = true
  all_foreign u (c ∷ calls) = if tenant_of c == u then false else all_foreign u calls

  perform_all-Agree :
      (calls : List CacheCall) (u : String) (cache : Cache Vec Cost)
      → IsValid floats threshold max_entries cache
      → all_foreign u calls ≡ true
      → Agree u (perform_all calls cache) cache
  perform_all-Agree [] u cache v foreign = (refl, refl)
  perform_all-Agree (c ∷ calls) u cache v foreign =
      let (e, i) = perform-Agree c u cache v (ground (arith, foreign, eq_iff (tenant_of c) u)) in
      let (e', i') =
        perform_all-Agree calls u (perform c cache) (perform-IsValid c cache v)
          (ground (arith, foreign)) in
      (e' ∙ e, i' ∙ i)

  -- In a valid cache, whatever lookups and stores the other tenants make, the next lookup of a
  -- tenant ends as it would have without them: with the same result, hit or miss.
  pub foreign_calls_unseen :
      (calls : List CacheCall) (u key : String) (cache : Cache Vec Cost)
      → IsValid floats threshold max_entries cache
      → all_foreign u calls ≡ true
      → (lookup floats threshold max_entries u key (perform_all calls cache)).0
        ≡ (lookup floats threshold max_entries u key cache).0
  foreign_calls_unseen calls u key cache v foreign =
      let (e, i) = perform_all-Agree calls u cache v foreign in
      lookup-local floats threshold max_entries u key (perform_all calls cache) cache e i
