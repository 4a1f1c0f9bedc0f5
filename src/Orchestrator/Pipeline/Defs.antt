-- ===== src/Orchestrator/Pipeline/Defs.antt =====
-- The pipeline's state and methods. The policy engine's decisions and the executor's table do not
-- change during a call, and are its configuration; random ids and clock readings come with a call.
use penny_core.Prelude.{
  ℕ, Bool, ◌&&◌, String, Option, none, some, List, [], ◌∷◌, string_eq, pair_eq, length,
  if◌then◌else◌,
}
use penny_core.Dict.{Dict}
use penny_core.Exec.{Exn, Result, ok, err, Exec, validation_error}
use penny_core.Contracts.{fits, fits_optional}
use penny_core.Contracts.Json.{text, number, bool, obj, end, Payload}
use penny_core.Contracts.Actions.{
  ActionType, ActionStatus, Action, ActionProposal, ProposedBy, llm, fallback, action_value,
  status_value, proposer_value, pending_policy,
}
use penny_core.Contracts.Audit.{AuditKind, AuditActorKind, AuditLogEntry}
use penny_core.Contracts.Policies.{PolicyDecision, decision_value, ApprovalRule}
use penny_core.Orchestrator.Approval.{Queue, empty_queue}
use penny_core.Orchestrator.Audit.{AuditLog, empty_log, write}
use penny_core.Orchestrator.Executor.{Raised, HandlerTable, get_default}
use penny_core.Orchestrator.Quorum.{QuorumPolicy}
use penny_core.Orchestrator.Pipeline.Store
use penny_core.Orchestrator.Pipeline.Store.{ActionStore}

pub record Config : Type 0 where
  pub decide : String → ActionType → PolicyDecision
  pub table : HandlerTable

-- The clock readings of one call, by what they are for.
pub data Reading : Type 0 where
  created status_set proposal_row decision_row outcome_row enqueued decided approval_row : Reading
  handler_done : Reading

pub record Env : Type 0 where
  pub new_action_id : String
  pub new_queue_id : String
  pub now : Reading → ℕ

pub record Pipeline : Type 0 where
  pub queue : Queue
  pub audit : AuditLog
  pub actions : ActionStore
  pub quorum : QuorumPolicy
  pub dedup : Dict (String × String) (List String)

-- `clear`, and a new pipeline.
abbrev pub empty_pipeline : Pipeline
empty_pipeline = record {
  queue = empty_queue;
  audit = empty_log;
  actions = record { by_id = []; by_tenant = [] };
  quorum = [];
  dedup = [];
}

unfoldable pub put_action : Action → Pipeline → Pipeline
put_action action s = record s { actions = Store.put action s.actions }

unfoldable pub log_entry : AuditLogEntry → Pipeline → Pipeline
log_entry entry s = record s { audit = (write entry s.audit).1 }

-- Pydantic's checks of the fields of an `AuditLogEntry`.
unfoldable pub entry_fits : AuditLogEntry → Bool
entry_fits entry =
    fits 64 entry.tenant_id
    && fits_optional 64 entry.action_id
    && fits_optional 64 entry.caused_by_event_id
    && fits_optional 128 entry.actor_id

-- `_write_audit`; the entry is built first, and refused before anything is written.
unfoldable pub write_audit : AuditLogEntry → Exec Pipeline (Unit {0})
write_audit entry s =
    if entry_fits entry then (ok tt, log_entry entry s) else (err validation_error, s)

-- The entry for an action's row; the log assigns the id.
unfoldable pub row_for :
    Action → AuditKind → ℕ → AuditActorKind → Option String → Payload → AuditLogEntry
row_for action kind ts actor_kind actor_id payload = record {
  id = none;
  tenant_id = action.tenant_id;
  ts = ts;
  kind = kind;
  action_id = some action.id;
  caused_by_event_id = some action.event_id;
  actor_kind = actor_kind;
  actor_id = actor_id;
  payload = payload;
}

-- `model_copy(update={"status": ..., "updated_at": _now()})`
unfoldable pub with_status : ActionStatus → ℕ → Action → Action
with_status status now action = record action { status = status; updated_at = now }

-- The new action of `_materialize_action`.
unfoldable pub fresh_action : Env → ActionProposal → Action
fresh_action env proposal = record {
  id = env.new_action_id;
  tenant_id = proposal.tenant_id;
  proposal_id = proposal.id;
  event_id = proposal.event_id;
  customer_id = proposal.customer_id;
  action_type = proposal.action_type;
  status = pending_policy;
  payload = proposal.payload;
  created_at = env.now created;
  updated_at = env.now created;
  executed_at = none;
}

-- Pydantic's checks of the fields of an `Action`.
unfoldable pub action_fits : Action → Bool
action_fits action =
    fits 64 action.id
    && fits 64 action.tenant_id
    && fits 64 action.proposal_id
    && fits 64 action.event_id
    && fits_optional 64 action.customer_id

-- `_materialize_action`
unfoldable pub materialize_action : Env → ActionProposal → Result Exn Action
unfolding fresh_action
materialize_action env proposal =
    let action = fresh_action env proposal in
    if action_fits action then ok action else err validation_error

unfoldable pub proposer_kind : ProposedBy → AuditActorKind
proposer_kind llm = AuditActorKind.llm
proposer_kind fallback = AuditActorKind.fallback

-- The audit rows of the methods, each with its payload.
unfoldable pub proposal_entry : Env → ActionProposal → Action → AuditLogEntry
unfolding row_for proposer_kind
proposal_entry env proposal action =
    row_for action AuditKind.proposal (env.now proposal_row) (proposer_kind proposal.proposed_by)
      none
      (("proposed_by", text (proposer_value proposal.proposed_by))
        ∷ ("action_type", text (action_value proposal.action_type))
        ∷ ("reasoning", get_default proposal.payload "_planner_reasoning" (text ""))
        ∷ [])

unfoldable pub decision_entry : Env → PolicyDecision → Action → AuditLogEntry
unfolding row_for
decision_entry env decision action =
    row_for action AuditKind.decision (env.now decision_row) AuditActorKind.system none (
      ("decision", text (decision_value decision))
      ∷ ("action_type", text (action_value action.action_type))
      ∷ [])

unfoldable pub policy_rejection_entry : Env → Action → AuditLogEntry
unfolding row_for
policy_rejection_entry env action =
    row_for action AuditKind.rejection (env.now outcome_row) AuditActorKind.system none
      (("reason", text "policy=reject") ∷ ("by", text "policy_engine") ∷ [])

unfoldable pub failure_entry : Env → Raised → Action → AuditLogEntry
unfolding row_for
failure_entry env raised action =
    row_for action AuditKind.execution_failed (env.now outcome_row) AuditActorKind.system none
      (("error_kind", text raised.kind) ∷ ("error_message", text raised.message) ∷ [])

unfoldable pub execution_entry : Env → Action → AuditLogEntry
unfolding row_for
execution_entry env executed =
    row_for executed AuditKind.execution (env.now outcome_row) AuditActorKind.system none
      (("executed_payload", get_default executed.payload "_executed_payload" (obj end)) ∷ [])

unfoldable pub approval_entry : Env → Action → ApprovalRule → String → Bool → AuditLogEntry
unfolding row_for
approval_entry env action rule decided_by quorum_reached =
    row_for action AuditKind.approval (env.now approval_row) AuditActorKind.human (some decided_by)
      (("prior_status", text (status_value action.status))
        ∷ ("approvals_recorded", number (length rule.approvals))
        ∷ ("required_approvals", number rule.required_approvals)
        ∷ ("quorum_reached", bool quorum_reached)
        ∷ [])

unfoldable pub human_rejection_entry : Env → Action → String → String → AuditLogEntry
unfolding row_for
human_rejection_entry env action reason decided_by =
    row_for action AuditKind.rejection (env.now approval_row) AuditActorKind.human (some decided_by)
      (("prior_status", text (status_value action.status)) ∷ ("reason", text reason) ∷ [])
