-- ===== src/Orchestrator/Pipeline/Stranded.antt =====
-- A vote whose voter's name is too long for the audit log.
use penny_core.Prelude.{◌≡◌, refl, true, false, String, Option, some, string_eq, arith}
use penny_core.Exec.{ok, err, approval_state, validation_error}
use penny_core.Contracts.{fits_optional}
use penny_core.Contracts.Actions.{Action}
use penny_core.Contracts.Policies.{ApprovalRule}
use penny_core.Orchestrator.Approval.{is_pending_state, approve}
use penny_core.Orchestrator.Approval.Frame.{approve_closed, reject_closed}
use penny_core.Orchestrator.Approval.Outcomes.{approve-Refines}
use penny_core.Orchestrator.Pipeline.Defs.{Config, Env, decided, Pipeline}
use penny_core.Orchestrator.Pipeline.Methods.{
  get_action, approve_action, reject_action, is_approved,
}
use penny_core.Orchestrator.Pipeline.Views.{stored, trail}
use penny_core.Orchestrator.Pipeline.Sound.{IsSound}
use penny_core.Orchestrator.Pipeline.Voting.{get_action-stored}
use penny_core.Orchestrator.Pipeline.Human.{
  vote, approve_unwritten, approve_refused, returned-stored,
}
use penny_core.Orchestrator.Pipeline.Refusal.{reject_refused}

approved-closed :
    (rule : ApprovalRule) → is_approved rule.state ≡ true → is_pending_state rule.state ≡ false
unfolding is_approved is_pending_state
approved-closed rule h = ground (arith, h)

-- In a sound state, when the vote that completes a quorum carries a name of more than 128
-- characters, the call raises after the queue has resolved the row: the action and its trail stay as they were, and
-- every later vote or rejection of that action raises ApprovalStateError and changes nothing.
pub unrecorded_vote_strands :
    (config : Config) (env : Env) (a by : String) (tenant : Option String) (s : Pipeline)
    (action : Action) (rule : ApprovalRule)
    → IsSound s
    → get_action a tenant s ≡ ok action
    → (approve a (some by) (env.now decided) s.queue).0 ≡ ok rule
    → is_approved rule.state ≡ true
    → fits_optional 128 (some by) ≡ false
    → (after : Pipeline) × (approve_action config env a by tenant s ≡ (err validation_error, after))
      × (stored a after ≡ some action)
      × (trail a after ≡ trail a s)
      × ((again : Config) (next : Env) (who : String)
          → approve_action again next a who tenant after ≡ (err approval_state, after))
      × ((next : Env) (reason who : String)
          → reject_action next a reason who tenant after ≡ (err approval_state, after))
unfolding stored trail get_action
unrecorded_vote_strands config env a by tenant s action rule sound read voted complete long =
    let (there, foreign) = get_action-stored a tenant s action read in
    let after : Pipeline = record s { queue = (vote config env a by tenant s).1 } in
    let found =
      returned-stored a s.queue _ _ rule
        (approve-Refines a (some by) (env.now decided) s.queue sound.queue_valid) voted in
    let closed = approved-closed rule complete in
    (
      after,
      approve_unwritten config env a by tenant s action read rule voted
          (sound.known a action there).fit long,
      there,
      refl,
      λ again next who.
          approve_refused again next a who tenant after action read approval_state
            (approve_closed a after.queue rule found closed (some who) (next.now decided)),
      λ next reason who.
          reject_refused next a reason who tenant after action read approval_state
            (reject_closed a after.queue rule found closed reason (some who) (next.now decided)),
    )
