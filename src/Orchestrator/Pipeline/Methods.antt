-- ===== src/Orchestrator/Pipeline/Methods.antt =====
-- The methods of `DecisionPipeline`.
use penny_core.Prelude.{
  Bool, true, false, not, String, Option, none, some, List, [], ◌∷◌, ◌==◌, string_eq, pair_eq,
  if◌then◌else◌,
}
use penny_core.Dict
use penny_core.Exec.{
  Exn, Result, ok, err, Exec, pure, lift, modify, on_part, ◌>>=◌, ◌>>◌, action_not_found,
}
use penny_core.Contracts.Actions.{
  Action, ActionProposal, pending_approval, pending_exec, execution_failed, rejected,
}
use penny_core.Contracts.Audit.{AuditLogEntry}
use penny_core.Contracts.Policies.{
  PolicyDecision, auto, approval_required, reject, ApprovalRule, ApprovalState, pending, approved,
  expired,
}
use penny_core.Orchestrator.Approval
use penny_core.Orchestrator.Approval.{Queue, list_pending, find}
use penny_core.Orchestrator.Audit.{entries_for_action}
use penny_core.Orchestrator.Executor.{Raised, execute}
use penny_core.Orchestrator.Quorum.{rule_for}
use penny_core.Orchestrator.Pipeline.Store
use penny_core.Orchestrator.Pipeline.Store.{ActionStore, get}
use penny_core.Orchestrator.Pipeline.Defs.{
  Config, Env, handler_done, status_set, enqueued, decided, Pipeline, put_action, write_audit,
  with_status, materialize_action, proposal_entry, decision_entry, policy_rejection_entry,
  failure_entry, execution_entry, approval_entry, human_rejection_entry,
}

-- A call of a method of the approval queue.
abbrev pub on_queue : {A : Type 0} → Exec Queue A → Exec Pipeline A
on_queue = on_part (λ s. s.queue) (λ queue s. record s { queue = queue })

-- What `_execute` does once the executor has returned or raised.
unfoldable pub record_outcome : Env → Action → Result Raised Action → Exec Pipeline Action
unfolding with_status put_action write_audit failure_entry execution_entry
record_outcome env action (err raised) = do
  let failed = with_status execution_failed (env.now handler_done) action
  modify (put_action failed)
  write_audit (failure_entry env raised action)
  pure failed
record_outcome env action (ok executed) = do
  modify (put_action executed)
  write_audit (execution_entry env executed)
  pure executed

-- `_execute`
unfoldable pub execute_action : Config → Env → Action → Exec Pipeline Action
unfolding execute record_outcome
execute_action config env action =
    record_outcome env action (execute config.table (env.now handler_done) action)

-- A move to pending_exec, then `_execute`.
unfoldable pub promote : Config → Env → Action → Exec Pipeline Action
unfolding execute_action put_action with_status
promote config env action = do
  let pending_action = with_status pending_exec (env.now status_set) action
  modify (put_action pending_action)
  execute_action config env pending_action

-- The queue row of an action under its tenant's quorum rule.
unfoldable pub enqueue_action : Env → Action → Exec Pipeline ApprovalRule
unfolding Approval.enqueue rule_for
enqueue_action env action s =
    let rule = rule_for action.tenant_id action.action_type s.quorum in
    on_queue
      (Approval.enqueue env.new_queue_id (env.now enqueued) action.id action.tenant_id none
        rule.required_approvals rule.eligible_approvers)
      s

-- `_apply_decision`
unfoldable pub apply_decision : Config → Env → Action → PolicyDecision → Exec Pipeline Action
unfolding enqueue_action promote put_action write_audit policy_rejection_entry with_status
apply_decision config env action reject = do
  let rejected_action = with_status rejected (env.now status_set) action
  modify (put_action rejected_action)
  write_audit (policy_rejection_entry env rejected_action)
  pure rejected_action
apply_decision config env action approval_required = do
  let queued = with_status pending_approval (env.now status_set) action
  modify (put_action queued)
  enqueue_action env queued
  pure queued
apply_decision config env action auto = promote config env action

-- `[self.actions.get(a) for a in cached_ids]`
unfoldable pub fetch_all : List String → ActionStore → Result Exn (List Action)
unfolding get
fetch_all [] store = ok []
fetch_all (a ∷ ids) store =
    let rest = fetch_all ids store in
    elim (get a store) [
      | err x ↦ err x
      | ok action ↦ elim rest [ err x ↦ err x | ok actions ↦ ok (action ∷ actions) ]
    ]

-- `self._dedup[key] = [resolved.id]`
unfoldable pub remember : ActionProposal → Action → Pipeline → Pipeline
remember proposal action s = record s {
  dedup = Dict.put s.dedup (proposal.tenant_id, proposal.event_id) (action.id ∷ []);
}

-- `handle_proposal` for an event that has no actions yet.
unfoldable pub handle_new : Config → Env → ActionProposal → Exec Pipeline (List Action)
unfolding materialize_action put_action write_audit proposal_entry decision_entry apply_decision
    remember
handle_new config env proposal = do
  action ← lift (materialize_action env proposal)
  modify (put_action action)
  write_audit (proposal_entry env proposal action)
  let decision = config.decide proposal.tenant_id proposal.action_type
  write_audit (decision_entry env decision action)
  resolved ← apply_decision config env action decision
  modify (remember proposal resolved)
  pure (resolved ∷ [])

unfoldable pub handle_proposal : Config → Env → ActionProposal → Exec Pipeline (List Action)
unfolding fetch_all handle_new
handle_proposal config env proposal s =
    elim (Dict.get s.dedup (proposal.tenant_id, proposal.event_id)) [
      | none ↦ handle_new config env proposal s
      | some ids ↦ (fetch_all ids s.actions, s)
    ]

-- `expected_tenant_id is not None and action.tenant_id != expected_tenant_id`
unfoldable pub foreign : Option String → Action → Bool
foreign none action = false
foreign (some tenant_id) action = not (action.tenant_id == tenant_id)

unfoldable pub get_action : String → Option String → Pipeline → Result Exn Action
unfolding get foreign
get_action action_id expected_tenant_id s = elim (get action_id s.actions) [
  | err x ↦ err x
  | ok action ↦ if foreign expected_tenant_id action then err action_not_found else ok action
]

unfoldable pub is_approved : ApprovalState → Bool
is_approved approved = true
is_approved pending = false
is_approved ApprovalState.rejected = false
is_approved expired = false

unfoldable pub approve_action :
    Config → Env → String → String → Option String → Exec Pipeline Action
unfolding get_action Approval.approve is_approved write_audit approval_entry promote
approve_action config env action_id decided_by expected_tenant_id = do
  action ← (λ s. (get_action action_id expected_tenant_id s, s))
  rule ← on_queue (Approval.approve action_id (some decided_by) (env.now decided))
  let quorum_reached = is_approved rule.state
  write_audit (approval_entry env action rule decided_by quorum_reached)
  if quorum_reached then promote config env action else pure action

unfoldable pub reject_action : Env → String → String → String → Option String → Exec Pipeline Action
unfolding get_action Approval.reject put_action write_audit human_rejection_entry with_status
reject_action env action_id reason decided_by expected_tenant_id = do
  action ← (λ s. (get_action action_id expected_tenant_id s, s))
  on_queue (Approval.reject action_id reason (some decided_by) (env.now decided))
  write_audit (human_rejection_entry env action reason decided_by)
  let rejected_action = with_status rejected (env.now status_set) action
  modify (put_action rejected_action)
  pure rejected_action

unfoldable pub approval_rule : String → Pipeline → Option ApprovalRule
unfolding find
approval_rule action_id s = find action_id s.queue

unfoldable pub list_actions_for_tenant : String → Pipeline → List Action
unfolding Store.list_for_tenant
list_actions_for_tenant tenant_id s = Store.list_for_tenant tenant_id s.actions

-- The loop of `list_pending_actions`: a row with no action is skipped.
unfoldable pub actions_of : ActionStore → List ApprovalRule → List Action
unfolding get
actions_of store [] = []
actions_of store (rule ∷ rules) =
    let rest = actions_of store rules in
    elim (get rule.action_id store) [ err x ↦ rest | ok action ↦ action ∷ rest ]

unfoldable pub list_pending_actions : String → Pipeline → List Action
unfolding list_pending actions_of
list_pending_actions tenant_id s = actions_of s.actions (list_pending tenant_id s.queue)

unfoldable pub audit_for_action : String → Pipeline → List AuditLogEntry
unfolding entries_for_action
audit_for_action action_id s = entries_for_action action_id none s.audit
