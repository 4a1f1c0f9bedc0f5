-- ===== src/Orchestrator/Pipeline/Running.antt =====
-- `_execute`: it always ends with a recorded outcome.
use penny_core.Prelude.{
  ℕ, ◌≡◌, refl, ap, ◌∙◌, Bool, true, false, String, Option, some, none, arith, inl, inr, string_eq,
}
use penny_core.Exec.{Exn, Result, ok, err, Result-cases}
use penny_core.Contracts.{fits, fits_optional}
use penny_core.Contracts.Json.{Payload}
use penny_core.Contracts.Actions.{
  ActionStatus, Action, pending_policy, pending_approval, pending_exec, executed, execution_failed,
  rejected,
}
use penny_core.Contracts.Audit.{AuditKind, AuditActorKind}
use penny_core.Contracts.Policies.{ApprovalRule, ApprovalState}
use penny_core.Orchestrator.Executor.{execute, executed_action, Raised}
use penny_core.Orchestrator.Executor.Outcome.{execute-IsRun}
use penny_core.Orchestrator.Pipeline.Defs.{
  Config, Env, handler_done, status_set, Pipeline, put_action, log_entry, entry_fits, action_fits,
  row_for, with_status, failure_entry, execution_entry, write_audit,
}
use penny_core.Orchestrator.Pipeline.Methods.{record_outcome, execute_action, promote, is_approved}
use penny_core.Orchestrator.Pipeline.Views.{trail, row}
use penny_core.Orchestrator.Pipeline.Trail.{unborn, at, replay, advance, advance_by}
use penny_core.Orchestrator.Pipeline.Local.{IsLocal, IsSeen, put_action-IsSeen, log_entry-IsSeen}

-- The entry of an action that fits the contract fits it too, if the actor does.
pub row_for-fits :
    (action : Action) (kind : AuditKind) (ts : ℕ) (actor_kind : AuditActorKind)
    (actor : Option String) (payload : Payload)
    → action_fits action ≡ true
    → fits_optional 128 actor ≡ true
    → entry_fits (row_for action kind ts actor_kind actor payload) ≡ true
unfolding entry_fits row_for action_fits fits fits_optional
row_for-fits action kind ts actor_kind actor payload h who = ground arith

-- The same action at a later point of its life.
pub record IsVersion (action later : Action) : Type 0 where
  pub id_same : later.id ≡ action.id
  pub tenant_same : later.tenant_id ≡ action.tenant_id
  pub event_same : later.event_id ≡ action.event_id
  pub type_same : later.action_type ≡ action.action_type
  pub fit_same : action_fits later ≡ action_fits action

unfoldable pub is_rejected : ApprovalState → Bool
is_rejected ApprovalState.rejected = true
is_rejected ApprovalState.pending = false
is_rejected ApprovalState.approved = false
is_rejected ApprovalState.expired = false

-- Between calls, what the status of an action says of its queue row: no action rests before its
-- decision or before its run, one that ran has an approved row or was never queued, and one that
-- waits has a row.
unfoldable pub agrees : ActionStatus → Option ApprovalRule → Bool
unfolding is_approved is_rejected
agrees pending_policy _ = false
agrees pending_exec _ = false
agrees pending_approval none = false
agrees pending_approval (some rule) = true
agrees rejected none = true
agrees rejected (some rule) = is_rejected rule.state
agrees executed none = true
agrees executed (some rule) = is_approved rule.state
agrees execution_failed none = true
agrees execution_failed (some rule) = is_approved rule.state

-- A call that returned a version of the action, which is stored with a trail that tells its status.
pub record IsSettled (start : Pipeline) (action : Action) (result : Result Exn Action × Pipeline)
    : Type 0 where
  pub done : Action
  pub rule : Option ApprovalRule
  pub returned : result.0 ≡ ok done
  pub version : IsVersion action done
  pub coherent : agrees done.status rule ≡ true
  pub seen : IsSeen action.id start done (at done.status) rule result.1

pub with_status-IsVersion :
    (status : ActionStatus) (now : ℕ) (action : Action)
    → IsVersion action (with_status status now action)
unfolding with_status action_fits
with_status-IsVersion status now action = record {
  id_same = refl;
  tenant_same = refl;
  event_same = refl;
  type_same = refl;
  fit_same = refl;
}

executed_action-IsVersion :
    (config : Config) (now : ℕ) (action done : Action)
    → execute config.table now action ≡ ok done
    → IsVersion action done × (done.status ≡ executed)
unfolding executed_action action_fits
executed_action-IsVersion config now action done h =
    let run = execute-IsRun config.table now action done h in
    (
      record {
        id_same = cc run.result;
        tenant_same = cc run.result;
        event_same = cc run.result;
        type_same = cc run.result;
        fit_same = cc run.result;
      },
      cc run.result,
    )

execution_entry-fits :
    (env : Env) (done : Action)
    → action_fits done ≡ true
    → entry_fits (execution_entry env done) ≡ true
unfolding execution_entry fits_optional
execution_entry-fits env done fit = row_for-fits done _ _ _ none _ fit refl

module _ (env : Env) (action : Action) (s : Pipeline) (fit : action_fits action ≡ true) where
  failure_entry-fits : (raised : Raised) → entry_fits (failure_entry env raised action) ≡ true
  unfolding failure_entry fits_optional
  failure_entry-fits raised = row_for-fits action _ _ _ none _ fit refl

  record_failure :
      (raised : Raised)
      → record_outcome env action (err raised) s ≡ (
        ok (with_status execution_failed (env.now handler_done) action),
        log_entry
            (failure_entry env raised action)
            (put_action (with_status execution_failed (env.now handler_done) action) s),
      )
  unfolding record_outcome write_audit
  record_failure raised = ground (arith, failure_entry-fits raised)

  record_success :
      (done : Action)
      → action_fits done ≡ true
      → record_outcome env action (ok done) s
        ≡ (ok done, log_entry (execution_entry env done) (put_action done s))
  unfolding record_outcome write_audit
  record_success done done_fit = ground (arith, execution_entry-fits env done done_fit)

module _ (config : Config) (env : Env) (start : Pipeline) (action : Action)
    (rule : Option ApprovalRule) (s : Pipeline) (rest : IsLocal action.id start s)
    (told : replay unborn (trail action.id s) ≡ at pending_exec) (queued : row action.id s ≡ rule)
    (fit : action_fits action ≡ true) (due : agrees executed rule ≡ true) where
  due_failed : agrees execution_failed rule ≡ true
  unfolding agrees
  due_failed = ground (arith, due)

  failed-IsSettled :
      (raised : Raised) → IsSettled start action (record_outcome env action (err raised) s)
  unfolding failure_entry with_status advance advance_by row_for
  failed-IsSettled raised =
      let failed = with_status execution_failed (env.now handler_done) action in
      rw (record_failure env action s fit raised) (record {
        done = failed;
        rule = rule;
        coherent = due_failed;
        returned = refl;
        version = with_status-IsVersion execution_failed (env.now handler_done) action;
        seen =
            log_entry-IsSeen (failure_entry env raised action) refl
              (put_action-IsSeen rest told queued refl);
      })

  executed-IsSettled :
      (done : Action)
      → execute config.table (env.now handler_done) action ≡ ok done
      → IsSettled start action (record_outcome env action (ok done) s)
  unfolding execution_entry advance advance_by row_for
  executed-IsSettled done h =
      let (version, status) =
        executed_action-IsVersion config (env.now handler_done) action done h in
      rw (record_success env action s fit done (version.fit_same ∙ fit)) (record {
        done = done;
        rule = rule;
        coherent = rw status due;
        returned = refl;
        version = version;
        seen = rw status (
            log_entry-IsSeen (execution_entry env done) (ap some version.id_same)
              (put_action-IsSeen rest told queued version.id_same));
      })

  -- Running an action that is due ends with its outcome stored and told by its trail.
  pub execute_action-IsSettled : IsSettled start action (execute_action config env action s)
  unfolding execute_action
  execute_action-IsSettled =
      elim (Result-cases (execute config.table (env.now handler_done) action)) [
        | inl (done, h) ↦ rw h (executed-IsSettled done h)
        | inr (raised, h) ↦ rw h (failed-IsSettled raised)
      ]

module _ (config : Config) (env : Env) (start : Pipeline) (action : Action)
    (rule : Option ApprovalRule) (s : Pipeline) (rest : IsLocal action.id start s)
    (told : replay unborn (trail action.id s) ≡ at pending_exec) (queued : row action.id s ≡ rule)
    (fit : action_fits action ≡ true) (due : agrees executed rule ≡ true) where
  -- So does moving it to pending_exec first.
  pub promote-IsSettled : IsSettled start action (promote config env action s)
  unfolding promote with_status action_fits
  promote-IsSettled =
      let moved = with_status pending_exec (env.now status_set) action in
      let seen : IsSeen action.id start moved (at pending_exec) rule (put_action moved s) =
        put_action-IsSeen rest told queued refl in
      let ran : IsSettled start moved (execute_action config env moved (put_action moved s)) =
        execute_action-IsSettled config env start moved rule (put_action moved s) seen.rest
          seen.told seen.queued fit due in
      record {
        done = ran.done;
        rule = ran.rule;
        returned = ran.returned;
        version = record {
          id_same = ran.version.id_same;
          tenant_same = ran.version.tenant_same;
          event_same = ran.version.event_same;
          type_same = ran.version.type_same;
          fit_same = ran.version.fit_same;
        };
        coherent = ran.coherent;
        seen = ran.seen;
      }
