-- ===== src/Context/SlowCalls/Draining.antt =====
-- What is deferred comes back in order, and what a failed call leaves.
mod Tests
use penny_core.Prelude.{
  ℕ, ◌+◌, ◌-◌, ◌≤◌, ◌≡◌, ◌≢◌, refl, sym, ap, String, Bool, true, false, not, Option, none, some,
  List, [], ◌∷◌, ◌++◌, ◌==◌, ◌∙◌, ◌&&◌, string_eq, nat_beq, if◌then◌else◌, length, take, drop, snoc,
  arith, eq_iff, take-append-drop, map,
}
use penny_core.Dict
use penny_core.Dict.{get_list-put}
use penny_core.Exec.{Exn, Result, ok, err}
use penny_core.Contracts.{Timestamp}
use penny_core.Contracts.Json.{Payload}
use penny_core.Rings.{Ring, append, append_all, items_of, trim, append_all_window, get_list-append}
use penny_core.Context.SlowCalls.{
  Degraded, DeferredCall, DeferReason, DeadlineResult, Outcome, deadline_result, deferral, defer,
  drain, with_deadline, with_deadline_and_defer,
}

-- The queue after a sequence of calls of `defer`; one without a tenant raises and leaves it.
abbrev pub defer_all : ℕ → List DeferredCall → Ring DeferredCall → Ring DeferredCall
defer_all most [] queue = queue
defer_all most (entry ∷ entries) queue = defer_all most entries (defer most entry queue).1

-- The entries with a tenant, each under it.
abbrev pub accepted : List DeferredCall → List (String × DeferredCall)
accepted [] = []
accepted (entry ∷ entries) =
    if entry.tenant_id == "" then accepted entries else (entry.tenant_id, entry) ∷ accepted entries

defer_all-append_all :
    (most : ℕ) (entries : List DeferredCall) (queue : Ring DeferredCall)
    → defer_all most entries queue ≡ append_all most (accepted entries) queue
unfolding defer append_all
defer_all-append_all most [] queue = refl
defer_all-append_all most (entry ∷ entries) queue = ground (
  arith,
  defer_all-append_all most entries queue,
  defer_all-append_all most entries (append most entry.tenant_id entry queue),
)

take_none : (limit : ℕ) (buf : List DeferredCall) → limit ≡ 0 → take limit buf ≡ []
take_none limit buf e = ap (λ n. take n buf) e

drop_none : (limit : ℕ) (buf : List DeferredCall) → limit ≡ 0 → drop limit buf ≡ buf
drop_none limit buf e = ap (λ n. drop n buf) e

drain-oldest :
    (t : String) (limit : ℕ) (queue : Ring DeferredCall)
    → (drain t limit queue).0 ≡ ok (take limit (Dict.get_list queue t))
unfolding drain
drain-oldest t limit queue = ground (arith, take_none limit (Dict.get_list queue t))

drain-rest :
    (t : String) (limit : ℕ) (queue : Ring DeferredCall) (u : String)
    → Dict.get_list (drain t limit queue).1 u
      ≡ (if t == u then drop limit (Dict.get_list queue u) else Dict.get_list queue u)
unfolding drain
drain-rest t limit queue u = ground (
  arith,
  drop_none limit (Dict.get_list queue t),
  get_list-put queue t u (drop limit (Dict.get_list queue t)),
  eq_iff t u,
)

-- What a tenant has waiting after these calls: the newest of its own, oldest first.
abbrev pub waiting : ℕ → List DeferredCall → String → List DeferredCall
waiting most entries u = trim most (items_of u (accepted entries))

defer_all-waiting :
    (most : ℕ) (entries : List DeferredCall) (u : String)
    → Dict.get_list (defer_all most entries []) u ≡ waiting most entries u
defer_all-waiting most entries u =
    ap (λ q. Dict.get_list q u) (defer_all-append_all most entries [])
    ∙ append_all_window most (accepted entries) u

-- After any calls of `defer` on a new queue, a drain returns the oldest calls, at most the limit,
-- of the newest that the tenant deferred, as many as the queue keeps for it, in the order in which
-- they were deferred; the rest of them stays waiting, and so does all that other tenants have.
pub drain-defer_all :
    (most : ℕ) (entries : List DeferredCall) (t : String) (limit : ℕ)
    → ((drain t limit (defer_all most entries [])).0 ≡ ok (take limit (waiting most entries t)))
      × ((u : String)
          → Dict.get_list (drain t limit (defer_all most entries [])).1 u
            ≡ (if t == u then drop limit (waiting most entries u) else waiting most entries u))
drain-defer_all most entries t limit =
    let queue = defer_all most entries [] in
    (
      ground (arith, drain-oldest t limit queue, defer_all-waiting most entries t),
      λ u. ground (arith, drain-rest t limit queue u, defer_all-waiting most entries u),
    )

-- A call that did not finish in time, or raised, returns the fallback and is the newest that waits
-- for its tenant; one that finished returns its value and leaves the queue alone.
pub with_deadline_and_defer_lem :
    {V : Type 0} (most : ℕ) (describe : Option Degraded → String) (new_id : String)
    (now : Timestamp) (timeout_ms : ℕ) (fallback : V) (elapsed : ℕ) (operation t : String)
    (payload context : Option Payload) (outcome : Outcome V) (queue : Ring DeferredCall)
    → 1 ≤ timeout_ms
    → t ≢ ""
    → with_deadline_and_defer most describe new_id now timeout_ms fallback elapsed operation t
        payload context outcome queue
      ≡ (
        ok (deadline_result fallback elapsed operation outcome),
        if (deadline_result fallback elapsed operation outcome).degraded
            then append most t
                (deferral most describe new_id now t payload context
                  (deadline_result fallback elapsed operation outcome))
                queue
            else queue,
      )
unfolding with_deadline_and_defer with_deadline defer
with_deadline_and_defer_lem most describe new_id now timeout_ms fallback elapsed operation t payload
      context outcome queue positive named =
    ground (arith, positive, named, eq_iff t "")
