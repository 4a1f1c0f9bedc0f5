-- ===== src/Orchestrator/Pipeline/Deciding.antt =====
-- `_apply_decision` and the rest of `handle_proposal` for a new action.
use penny_core.Prelude.{
  ℕ, ◌≡◌, ◌≢◌, refl, sym, ap, subst, true, String, some, none, ◌&&◌, arith, string_eq,
}
use penny_core.Dict.{get-put_self}
use penny_core.Exec.{Exn, Result, ok, pure, continue}
use penny_core.Contracts.{fits, fits_optional}
use penny_core.Contracts.Json.{text}
use penny_core.Contracts.Actions.{ActionStatus, Action, pending_policy, pending_approval, rejected}
use penny_core.Contracts.Policies.{
  ApprovalRule, PolicyDecision, auto, approval_required, reject, decision_value,
}
use penny_core.Orchestrator.Approval
use penny_core.Orchestrator.Approval.{find, insert_rule, fresh_rule}
use penny_core.Orchestrator.Approval.Invariant
use penny_core.Orchestrator.Approval.Arming.{enqueue-fresh}
use penny_core.Orchestrator.Approval.Frame.{find-enqueue_ne}
use penny_core.Orchestrator.Approval.Preservation.{enqueue-IsValid}
use penny_core.Orchestrator.Quorum.{rule_for}
use penny_core.Orchestrator.Quorum.Rules
use penny_core.Orchestrator.Quorum.Rules.{rule_for-CanArm}
use penny_core.Orchestrator.Pipeline.Defs.{
  Config, Env, enqueued, status_set, Pipeline, put_action, log_entry, entry_fits, action_fits,
  row_for, with_status, policy_rejection_entry, write_audit,
}
use penny_core.Orchestrator.Pipeline.Methods.{apply_decision, enqueue_action}
use penny_core.Orchestrator.Pipeline.Views.{trail, row}
use penny_core.Orchestrator.Pipeline.Trail.{unborn, at, replay, advance, advance_by, decided_phase}
use penny_core.Orchestrator.Pipeline.Local.{
  IsLocal, IsSeen, put_action-IsSeen, log_entry-IsSeen, queue-IsSeen,
}
use penny_core.Orchestrator.Pipeline.Running.{
  IsSettled, with_status-IsVersion, agrees, row_for-fits, promote-IsSettled,
}

policy_rejection_entry-fits :
    (env : Env) (action : Action)
    → action_fits action ≡ true
    → entry_fits (policy_rejection_entry env action) ≡ true
unfolding policy_rejection_entry fits_optional
policy_rejection_entry-fits env action fit = row_for-fits action _ _ _ none _ fit refl

same_fit :
    (status : ActionStatus) (now : ℕ) (action : Action)
    → action_fits action ≡ true
    → action_fits (with_status status now action) ≡ true
unfolding action_fits with_status
same_fit status now action h = h

-- The row that the action gets.
unfoldable fresh : Env → Action → Pipeline → ApprovalRule
unfolding rule_for
fresh env action s =
    let rule = rule_for action.tenant_id action.action_type s.quorum in
    fresh_rule env.new_queue_id action.tenant_id action.id none rule.required_approvals
      rule.eligible_approvers (env.now enqueued)

module _ (config : Config) (env : Env) (start : Pipeline) (action : Action) (s : Pipeline)
    (rest : IsLocal action.id start s) (unqueued : row action.id s ≡ none)
    (fit : action_fits action ≡ true) where
  reject_result : apply_decision config env action reject s ≡ (
    ok (with_status rejected (env.now status_set) action),
    log_entry
        (policy_rejection_entry env (with_status rejected (env.now status_set) action))
        (put_action (with_status rejected (env.now status_set) action) s),
  )
  unfolding apply_decision write_audit
  reject_result = ground (
    arith,
    policy_rejection_entry-fits env (with_status rejected (env.now status_set) action)
        (same_fit rejected (env.now status_set) action fit),
  )

  reject-IsSettled :
      replay unborn (trail action.id s) ≡ at pending_policy
      → IsSettled start action (apply_decision config env action reject s)
  unfolding policy_rejection_entry with_status advance advance_by row_for agrees
  reject-IsSettled told = rw reject_result (record {
    done = with_status rejected (env.now status_set) action;
    rule = none;
    returned = refl;
    version = with_status-IsVersion rejected (env.now status_set) action;
    coherent = refl;
    seen =
        log_entry-IsSeen
          (policy_rejection_entry env (with_status rejected (env.now status_set) action)) refl
          (put_action-IsSeen rest told unqueued refl);
  })

  module _ (quorum : Rules.IsValid s.quorum) (queue_id : fits 64 env.new_queue_id ≡ true) where
    enqueue_result :
        enqueue_action env action s
        ≡ (ok (fresh env action s), record s { queue = insert_rule (fresh env action s) s.queue })
    unfolding enqueue_action row action_fits fresh
    enqueue_result =
        let arm = rule_for-CanArm action.tenant_id action.action_type s.quorum quorum in
        let ids : fits 64 env.new_queue_id && (fits 64 action.id && fits 64 action.tenant_id)
            ≡ true =
          ground (arith, fit, queue_id) in
        let made =
          enqueue-fresh env.new_queue_id (env.now enqueued) action.id action.tenant_id _ _ s.queue
            ids arm.positive arm.pool_fits unqueued in
        ap (λ (r : Result Exn ApprovalRule × Approval.Queue). (r.0, record s { queue = r.1 })) made

    -- The queue with the new row.
    new_queue : insert_rule (fresh env action s) s.queue ≡ (enqueue_action env action s).1.queue
    new_queue = ap (λ (r : Result Exn ApprovalRule × Pipeline). r.1.queue) (sym enqueue_result)

    new_queue-IsValid : Invariant.IsValid (insert_rule (fresh env action s) s.queue)
    unfolding enqueue_action
    new_queue-IsValid = rw new_queue (
        enqueue-IsValid env.new_queue_id (env.now enqueued) action.id action.tenant_id none _ _
          s.queue rest.queue_valid)

    new_queue_other :
        (a : String)
        → action.id ≢ a
        → find a (insert_rule (fresh env action s) s.queue) ≡ find a s.queue
    unfolding enqueue_action
    new_queue_other a n = rw new_queue (
        find-enqueue_ne a action.id s.queue rest.queue_valid n env.new_queue_id (env.now enqueued)
          action.tenant_id none _ _)

    new_queue_self :
        find action.id (insert_rule (fresh env action s) s.queue) ≡ some (fresh env action s)
    unfolding find insert_rule fresh fresh_rule
    new_queue_self = get-put_self s.queue.by_id action.id _

module _ (config : Config) (env : Env) (start : Pipeline) (action : Action) (s : Pipeline)
    (rest : IsLocal action.id start s) (unqueued : row action.id s ≡ none)
    (fit : action_fits action ≡ true) (quorum : Rules.IsValid s.quorum)
    (queue_id : fits 64 env.new_queue_id ≡ true) where
  enqueue-IsSettled :
      replay unborn (trail action.id s) ≡ at pending_approval
      → IsSettled start action (apply_decision config env action approval_required s)
  unfolding apply_decision with_status agrees row action_fits fresh fresh_rule insert_rule find
  enqueue-IsSettled told =
      let queued = with_status pending_approval (env.now status_set) action in
      let s1 = put_action queued s in
      let seen : IsSeen action.id start queued (at pending_approval) none s1 =
        put_action-IsSeen rest told unqueued refl in
      let made =
        enqueue_result config env start queued s1 seen.rest seen.queued fit quorum queue_id in
      let new : IsSeen action.id start queued (at pending_approval) (some (fresh env queued s1))
          (record s1 { queue = insert_rule (fresh env queued s1) s1.queue }) =
        queue-IsSeen (insert_rule (fresh env queued s1) s1.queue) (some (fresh env queued s1))
          (new_queue-IsValid config env start queued s1 seen.rest seen.queued fit quorum queue_id)
          (new_queue_self config env start queued s1 seen.rest seen.queued fit quorum queue_id)
          (new_queue_other config env start queued s1 seen.rest seen.queued fit quorum queue_id)
          seen in
      let all : apply_decision config env action approval_required s
          ≡ (ok queued, record s1 { queue = insert_rule (fresh env queued s1) s1.queue }) =
        ap (λ (r : Result Exn ApprovalRule × Pipeline). continue r.0 (λ rule. pure queued) r.1)
          made in
      subst (λ r. IsSettled start action r) (sym all)
        (record {
          done = queued;
          rule = some (fresh env queued s1);
          returned = refl;
          version = with_status-IsVersion pending_approval (env.now status_set) action;
          coherent = refl;
          seen = new;
        })

  -- Whatever the policy decided, the action settles.
  pub apply_decision-IsSettled :
      (decision : PolicyDecision)
      → replay unborn (trail action.id s) ≡ decided_phase (some (text (decision_value decision)))
      → IsSettled start action (apply_decision config env action decision s)
  unfolding decided_phase decision_value apply_decision agrees
  apply_decision-IsSettled auto told =
      promote-IsSettled config env start action none s rest told unqueued fit refl
  apply_decision-IsSettled approval_required told = enqueue-IsSettled told
  apply_decision-IsSettled reject told =
      reject-IsSettled config env start action s rest unqueued fit told
