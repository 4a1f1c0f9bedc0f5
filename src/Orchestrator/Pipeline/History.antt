-- ===== src/Orchestrator/Pipeline/History.antt =====
-- Any history of calls on a new pipeline, whatever policies and executors each call meets.
use penny_core.Prelude.{
  ℕ, ◌≡◌, ◌≢◌, ◌⊎◌, refl, sym, ap, ◌∙◌, true, String, Option, some, none, List, string_eq, pair_eq,
  distinct, length, arith,
}
use penny_core.Dict
use penny_core.Contracts.Actions.{
  ActionType, ActionStatus, Action, ActionProposal, pending_policy, pending_approval, pending_exec,
  executed, execution_failed, rejected,
}
use penny_core.Contracts.Policies.{ApprovalRule, ApprovalState, approved}
use penny_core.Orchestrator.Approval.{find}
use penny_core.Orchestrator.Approval.Invariant.{all_eligible, Tally}
use penny_core.Orchestrator.Approval.Calls.{empty_queue-IsValid}
use penny_core.Orchestrator.Audit.{entries_for_action, of_tenant}
use penny_core.Orchestrator.Quorum.{set_rule}
use penny_core.Orchestrator.Quorum.Rules.{set_rule-IsValid}
use penny_core.Orchestrator.Pipeline.Defs.{Config, Env, Pipeline, empty_pipeline}
use penny_core.Orchestrator.Pipeline.Methods.{
  handle_proposal, approve_action, reject_action, is_approved, audit_for_action,
}
use penny_core.Orchestrator.Pipeline.Views.{stored, trail, row}
use penny_core.Orchestrator.Pipeline.Trail.{unborn, at, replay}
use penny_core.Orchestrator.Pipeline.Running.{agrees, is_rejected}
use penny_core.Orchestrator.Pipeline.Sound.{IsSound}
use penny_core.Orchestrator.Pipeline.Handling.{IsReady, handle_proposal-IsHandled}
use penny_core.Orchestrator.Pipeline.Human.{approve_action-IsSound}
use penny_core.Orchestrator.Pipeline.Refusal.{reject_action-IsSound}

-- One call, returned or raised, on the pipeline or on its quorum policy. A proposal that is handled
-- fits its contract, its new ids fit, and the new action id is unused.
pub data Step : Pipeline → Pipeline → Type 0 where
  handles :
      (config : Config) (env : Env) (proposal : ActionProposal) (s : Pipeline)
      → IsReady env proposal s
      → Step s (handle_proposal config env proposal s).1
  approves :
      (config : Config) (env : Env) (a by : String) (tenant : Option String) (s : Pipeline)
      → Step s (approve_action config env a by tenant s).1
  rejects :
      (env : Env) (a reason by : String) (tenant : Option String) (s : Pipeline)
      → Step s (reject_action env a reason by tenant s).1
  sets_quorum :
      (t : String) (k : ActionType) (required : ℕ) (pool : Option (List String)) (s : Pipeline)
      → Step s (record s { quorum = (set_rule t k required pool s.quorum).1 })

pub data Reachable : Pipeline → Type 0 where
  started : Reachable empty_pipeline
  later : {s s' : Pipeline} → Reachable s → Step s s' → Reachable s'

empty_pipeline-IsSound : IsSound empty_pipeline
unfolding stored trail row replay find Dict.get
empty_pipeline-IsSound = record {
  queue_valid = empty_queue-IsValid;
  quorum_valid = record { can_arm = λ t k rule h. cc h };
  untold = λ a h. refl;
  unqueued = λ a h. refl;
  known = λ a action h. cc h;
  remembered = λ t e ids h. cc h;
}

set_quorum-IsSound :
    (t : String) (k : ActionType) (required : ℕ) (pool : Option (List String)) (s : Pipeline)
    → IsSound s
    → IsSound (record s { quorum = (set_rule t k required pool s.quorum).1 })
unfolding stored trail row
set_quorum-IsSound t k required pool s sound = record {
  queue_valid = sound.queue_valid;
  quorum_valid = set_rule-IsValid t k required pool s.quorum sound.quorum_valid;
  untold = sound.untold;
  unqueued = sound.unqueued;
  known = λ a action h. record {
    keyed = (sound.known a action h).keyed;
    fit = (sound.known a action h).fit;
    told = (sound.known a action h).told;
    coherent = (sound.known a action h).coherent;
  };
  remembered = λ x e ids h. record {
    action = (sound.remembered x e ids h).action;
    single = (sound.remembered x e ids h).single;
    holds = (sound.remembered x e ids h).holds;
    of_tenant = (sound.remembered x e ids h).of_tenant;
    of_event = (sound.remembered x e ids h).of_event;
  };
}

Step-IsSound : {s s' : Pipeline} → Step s s' → IsSound s → IsSound s'
Step-IsSound (handles config env proposal s ready) sound =
    (handle_proposal-IsHandled config env proposal s sound ready).sound
Step-IsSound (approves config env a by tenant s) sound =
    approve_action-IsSound config env a by tenant s sound
Step-IsSound (rejects env a reason by tenant s) sound =
    reject_action-IsSound env a reason by tenant s sound
Step-IsSound (sets_quorum t k required pool s) sound = set_quorum-IsSound t k required pool s sound

-- The invariant holds after every history of calls.
pub reachable-IsSound : {s : Pipeline} → Reachable s → IsSound s
reachable-IsSound started = empty_pipeline-IsSound
reachable-IsSound (later history step) = Step-IsSound step (reachable-IsSound history)

approved_row :
    (rule : ApprovalRule) (status : ActionStatus)
    → (status ≡ executed) ⊎ (status ≡ execution_failed)
    → agrees status (some rule) ≡ true
    → rule.state ≡ approved
unfolding agrees is_approved
approved_row rule status ran h = ground (arith, ran, h)

-- What a settled status is, and what its queue row is.
abbrev pub Rests : ActionStatus → Option ApprovalRule → Type 0
Rests pending_policy rule = ⊥
Rests pending_exec rule = ⊥
Rests pending_approval rule = rule ≢ none
Rests rejected rule = (r : ApprovalRule) → rule ≡ some r → r.state ≡ ApprovalState.rejected
Rests executed rule = (r : ApprovalRule) → rule ≡ some r → r.state ≡ approved
Rests execution_failed rule = (r : ApprovalRule) → rule ≡ some r → r.state ≡ approved

agrees-Rests :
    (status : ActionStatus) (rule : Option ApprovalRule)
    → agrees status rule ≡ true
    → Rests status rule
unfolding agrees is_rejected is_approved
agrees-Rests pending_policy rule h = cc h
agrees-Rests pending_exec rule h = cc h
agrees-Rests pending_approval none h = cc h
agrees-Rests pending_approval (some rule) h = λ p. cc p
agrees-Rests rejected rule h = λ r e. ground (arith, h, e)
agrees-Rests executed rule h = λ r e. ground (arith, h, e)
agrees-Rests execution_failed rule h = λ r e. ground (arith, h, e)

module _ (s : Pipeline) (history : Reachable s) (a : String) (action : Action)
    (there : stored a s ≡ some action) where
  -- After any history of the calls of Step, replaying a stored action's audit trail as the state
  -- machine of ActionStatus meets no illegal step and ends at the action's status.
  pub audit_tells_status : replay unborn (audit_for_action a s) ≡ at action.status
  unfolding audit_for_action entries_for_action of_tenant trail
  audit_tells_status = ((reachable-IsSound history).known a action there).told

  -- After any history of the calls of Step, no stored action rests before its decision or before
  -- its run; one that waits has a queue row, and the queue row of a rejected one, where there is
  -- one, is rejected, and that of one that ran is approved.
  pub no_action_left_halfway : Rests action.status (row a s)
  no_action_left_halfway =
      agrees-Rests action.status (row a s)
        ((reachable-IsSound history).known a action there).coherent

  -- After any history of the calls of Step, an action with a queue row has only been run if the
  -- row is approved: its voters are distinct and eligible, and a quorum of two or more has exactly
  -- that many of them.
  pub run_needs_quorum :
      (rule : ApprovalRule)
      → row a s ≡ some rule
      → (action.status ≡ executed) ⊎ (action.status ≡ execution_failed)
      → (rule.state ≡ approved)
        × (distinct rule.approvals ≡ true)
        × (all_eligible rule.eligible_approvers rule.approvals ≡ true)
        × Tally rule.state rule.required_approvals (length rule.approvals)
  unfolding row find
  run_needs_quorum rule h ran =
      let sound = reachable-IsSound history in
      let valid = sound.queue_valid.rows_valid a rule h in
      (
        approved_row rule action.status ran
            (ap (agrees action.status) (sym h) ∙ (sound.known a action there).coherent),
        valid.voters_distinct,
        valid.voters_eligible,
        valid.tally,
      )
