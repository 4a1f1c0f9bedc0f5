-- ===== src/Context/SlowCalls.antt =====
-- context_engine/slow_call_queue.py, with the outcomes of context_engine/timeouts.py. What became
-- of the call in its thread, and the measured time, are arguments.
pub mod Draining
use penny_core.Prelude.{
  ℕ, String, Bool, true, false, not, Option, none, some, List, [], ◌∷◌, ◌==◌, string_eq, nat_beq,
  ltb, if◌then◌else◌, get_or, length, take, drop,
}
use penny_core.Dict
use penny_core.Exec.{Exn, Result, ok, err, Exec, value_error}
use penny_core.Contracts.{Timestamp}
use penny_core.Contracts.Json.{Payload}
use penny_core.Rings.{Ring, append, newest}

pub data DeferReason : Type 0 where
  deadline_exceeded transient_error explicit_defer : DeferReason

pub record DeferredCall : Type 0 where
  pub id : String
  pub tenant_id : String
  pub operation : String
  pub reason : DeferReason
  pub detail : String
  pub payload : Payload
  pub deferred_at : Timestamp
  pub elapsed : ℕ
  pub context : Payload

-- `SlowCallQueue(max_per_tenant)` and what `clear` leaves
unfoldable pub new_slow_queue : ℕ → Result Exn (Ring DeferredCall)
new_slow_queue max_per_tenant = if ltb 0 max_per_tenant then ok [] else err value_error

module _ (max_per_tenant : ℕ) where
  -- The entry's tenant is the one that the caller names.
  unfoldable pub defer : DeferredCall → Exec (Ring DeferredCall) DeferredCall
  defer entry queue =
      if entry.tenant_id == ""
      then (err value_error, queue)
      else (ok entry, append max_per_tenant entry.tenant_id entry queue)

unfoldable pub pending : String → ℕ → Ring DeferredCall → List DeferredCall
pending tenant_id limit queue =
    if nat_beq limit 0 then [] else newest limit (Dict.get_list queue tenant_id)

unfoldable pub drain : String → ℕ → Exec (Ring DeferredCall) (List DeferredCall)
drain tenant_id limit queue =
    let buf = Dict.get_list queue tenant_id in
    if nat_beq limit 0
    then (ok [], queue)
    else (ok (take limit buf), Dict.put queue tenant_id (drop limit buf))

unfoldable pub count_deferred : String → Ring DeferredCall → ℕ
count_deferred tenant_id queue = length (Dict.get_list queue tenant_id)

-- How the call ended in its thread: in time, not in time, or with an exception, by its text and
-- whether it is a TimeoutError.
pub data Outcome (V : Type 0) : Type 0 where
  finished : V → Outcome V
  timed_out : Outcome V
  raised : Bool → String → Outcome V

-- `DeadlineResult.error`
pub data Degraded : Type 0 where
  exceeded : Degraded
  failed : String → Degraded

pub record DeadlineResult (V : Type 0) : Type 0 where
  pub value : V
  pub degraded : Bool
  pub elapsed : ℕ
  pub error : Option Degraded
  pub operation : String

-- From Python 3.11 on `FutureTimeoutError` is the builtin TimeoutError, so that the handler of the
-- deadline also takes one that the call itself raised.
unfoldable pub deadline_result : {V : Type 0} → V → ℕ → String → Outcome V → DeadlineResult V
deadline_result fallback elapsed operation (finished value) = record {
  value = value;
  degraded = false;
  elapsed = elapsed;
  error = none;
  operation = operation;
}
deadline_result fallback elapsed operation timed_out = record {
  value = fallback;
  degraded = true;
  elapsed = elapsed;
  error = some exceeded;
  operation = operation;
}
deadline_result fallback elapsed operation (raised is_timeout x) = record {
  value = fallback;
  degraded = true;
  elapsed = elapsed;
  error = some (if is_timeout then exceeded else failed x);
  operation = operation;
}

unfoldable pub with_deadline :
    {V : Type 0} → ℕ → V → ℕ → String → Outcome V → Result Exn (DeadlineResult V)
unfolding deadline_result
with_deadline timeout_ms fallback elapsed operation outcome =
    if nat_beq timeout_ms 0
    then err value_error
    else ok (deadline_result fallback elapsed operation outcome)

abbrev pub reason_of : Option Degraded → DeferReason
reason_of (some exceeded) = deadline_exceeded
reason_of (some (failed x)) = transient_error
reason_of none = transient_error

module _ (max_per_tenant : ℕ) (describe : Option Degraded → String) where
  -- The entry that a degraded result leaves on the queue.
  abbrev pub deferral :
      {V : Type 0}
      → String
      → Timestamp
      → String
      → Option Payload
      → Option Payload
      → DeadlineResult V
      → DeferredCall
  deferral new_id now tenant_id payload context result = record {
    id = new_id;
    tenant_id = tenant_id;
    operation = result.operation;
    reason = reason_of result.error;
    detail = describe result.error;
    payload = get_or [] payload;
    deferred_at = now;
    elapsed = result.elapsed;
    context = get_or [] context;
  }

  -- A degraded call is deferred; what the queue raises is swallowed.
  unfoldable pub with_deadline_and_defer :
      {V : Type 0}
      → String
      → Timestamp
      → ℕ
      → V
      → ℕ
      → String
      → String
      → Option Payload
      → Option Payload
      → Outcome V
      → Exec (Ring DeferredCall) (DeadlineResult V)
  with_deadline_and_defer new_id now timeout_ms fallback elapsed operation tenant_id payload context
        outcome queue =
      elim (with_deadline timeout_ms fallback elapsed operation outcome) [
        | err x ↦ (err x, queue)
        | ok result ↦
            let deferred =
              (defer max_per_tenant (deferral new_id now tenant_id payload context result)
                queue).1 in
            (ok result, if result.degraded then deferred else queue)
      ]
