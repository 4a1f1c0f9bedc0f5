-- ===== src/Context/SemanticCache/Client.antt =====
-- The client that asks the cache first.
use penny_core.Prelude.{ℕ, ◌≤◌, ◌≡◌, subst, refl, String, true, false, some, arith, string_eq}
use penny_core.Exec.{Exn, Result, ok, Exec}
use penny_core.Context.SemanticCache.{CacheResult, exact, Floats, Cache, lookup, store, complete}
use penny_core.Context.SemanticCache.Validity.{IsValid}
use penny_core.Context.SemanticCache.Lookups.{lookup-IsValid}
use penny_core.Context.SemanticCache.Stores.{lookup-store}

module _ {Vec Score Cost : Type 0} (floats : Floats Vec Score Cost) (threshold : Score)
    (max_entries : ℕ) {W : Type 0} where
  complete-miss :
      (inner : String → Exec W String) (t prompt response : String) (w w' : W)
      (result : CacheResult Score) (cache missed stored : Cache Vec Cost)
      → lookup floats threshold max_entries t prompt cache ≡ (ok result, missed)
      → result.hit ≡ false
      → inner prompt w ≡ (ok response, w')
      → store floats threshold max_entries t prompt response missed ≡ (ok tt, stored)
      → complete floats threshold max_entries inner t prompt (cache, w)
        ≡ (ok response, (stored, w'))
  unfolding complete
  complete-miss inner t prompt response w w' result cache missed stored looked unhit asked kept =
      ground (arith, looked, unhit, asked, kept)

  complete-hit :
      (inner : String → Exec W String) (t prompt response : String) (w : W)
      (result : CacheResult Score) (cache after : Cache Vec Cost)
      → lookup floats threshold max_entries t prompt cache ≡ (ok result, after)
      → result.hit ≡ true
      → result.response ≡ some response
      → complete floats threshold max_entries inner t prompt (cache, w) ≡ (ok response, (after, w))
  unfolding complete
  complete-hit inner t prompt response w result cache after looked was_hit found =
      ground (arith, looked, was_hit, found)

  -- In a valid cache that keeps at least one entry for a tenant, when the lookup of a prompt
  -- misses and the wrapped client answers, the call returns the answer, and a second call with the
  -- same prompt, whatever the wrapped client would say by then, returns the same answer and does
  -- not ask it.
  pub complete_asks_once :
      (inner again : String → Exec W String) (t prompt response : String) (w w' w'' : W)
      (result : CacheResult Score) (cache missed : Cache Vec Cost)
      → 1 ≤ max_entries
      → IsValid floats threshold max_entries cache
      → lookup floats threshold max_entries t prompt cache ≡ (ok result, missed)
      → result.hit ≡ false
      → inner prompt w ≡ (ok response, w')
      → (after : Cache Vec Cost) × (later : Cache Vec Cost) × (complete floats threshold max_entries
            inner t prompt
            (cache, w)
          ≡ (ok response, (after, w')))
        × (complete floats threshold max_entries again t prompt (after, w'')
            ≡ (ok response, (later, w'')))
  complete_asks_once inner again t prompt response w w' w'' result cache missed positive v looked
        unhit asked =
      let valid : IsValid floats threshold max_entries missed =
        subst
          (λ (r : Result Exn (CacheResult Score) × Cache Vec Cost).
            IsValid floats threshold max_entries r.1)
          looked (lookup-IsValid floats threshold max_entries t prompt cache v) in
      let (after, later, stored, found) =
        lookup-store floats threshold max_entries missed valid t prompt response positive in
      let hit : CacheResult Score = record {
        hit = true;
        response = some response;
        similarity = floats.one_score;
        kind = exact;
      } in
      (
        after,
        later,
        complete-miss inner t prompt response w w' result cache missed after looked unhit asked
            stored,
        complete-hit again t prompt response w'' hit after later found refl refl,
      )
