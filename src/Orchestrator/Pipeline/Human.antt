-- ===== src/Orchestrator/Pipeline/Human.antt =====
-- The calls `approve_action` and `reject_action` as a whole.
use penny_core.Prelude.{
  ◌≡◌, ◌≢◌, refl, sym, ap, ◌∙◌, subst, true, false, String, Option, some, inl, inr, string_eq,
  Bool-cases, if◌then◌else◌,
}
use penny_core.Exec.{Exn, Result, ok, err, Result-cases, pure, validation_error}
use penny_core.Contracts.{fits_optional}
use penny_core.Contracts.Actions.{Action}
use penny_core.Contracts.Policies.{ApprovalRule}
use penny_core.Orchestrator.Approval
use penny_core.Orchestrator.Approval.{
  Queue, find, is_pending_state, is_eligible, resolved_rule, note_of,
}
use penny_core.Orchestrator.Approval.Preservation.{approve-IsValid}
use penny_core.Orchestrator.Approval.Frame.{find-approve_ne}
use penny_core.Orchestrator.Approval.Outcomes.{Refines, approve-Refines}
use penny_core.Orchestrator.Approval.Arming.{approve-WasPending}
use penny_core.Orchestrator.Pipeline.Defs.{
  Config, Env, decided, Pipeline, action_fits, log_entry, write_audit, approval_entry,
}
use penny_core.Orchestrator.Pipeline.Methods.{get_action, approve_action, promote, is_approved}
use penny_core.Orchestrator.Pipeline.Views.{row}
use penny_core.Orchestrator.Pipeline.Running.{agrees}
use penny_core.Orchestrator.Pipeline.Sound.{IsSound}
use penny_core.Orchestrator.Pipeline.Voting.{
  approval_entry-unfit, get_action-stored, waiting-status, approval_entry-fits, unwritten-IsSound,
  vote-IsSound, after_vote-IsSettled,
}

-- A call of the queue that returned a row returned the row that it stored; one that raised
-- changed nothing.
pub returned-stored :
    (a : String) (q : Queue) (spec : Result Exn ApprovalRule) (r : Result Exn ApprovalRule × Queue)
    (rule : ApprovalRule)
    → Refines a q spec r
    → r.0 ≡ ok rule
    → find a r.1 ≡ some rule
returned-stored a q (ok x) r rule (answer, there) h = cc (answer, there, h)
returned-stored a q (err x) r rule same h = cc (same, h)

pub raised-same :
    (a : String) (q : Queue) (spec : Result Exn ApprovalRule) (r : Result Exn ApprovalRule × Queue)
    (x : Exn)
    → Refines a q spec r
    → r.0 ≡ err x
    → r ≡ (err x, q)
raised-same a q (ok row) r x (answer, there) h = cc (answer, h)
raised-same a q (err y) r x same h = cc (same, h)

module _ (config : Config) (env : Env) (a by : String) (tenant : Option String) (s : Pipeline) where
  abbrev pub vote : Result Exn ApprovalRule × Queue
  vote = Approval.approve a (some by) (env.now decided) s.queue

  approve_unread :
      (x : Exn)
      → get_action a tenant s ≡ err x
      → approve_action config env a by tenant s ≡ (err x, s)
  unfolding approve_action
  approve_unread x h = cc h

  module _ (action : Action) (read : get_action a tenant s ≡ ok action) where
    pub approve_refused :
        (x : Exn) → vote ≡ (err x, s.queue) → approve_action config env a by tenant s ≡ (err x, s)
    unfolding approve_action
    approve_refused x h = cc (read, h)

    module _ (rule : ApprovalRule) (voted : vote.0 ≡ ok rule)
        (fit : action_fits action ≡ true) where
      approve_written :
          fits_optional 128 (some by) ≡ true
          → approve_action config env a by tenant s
            ≡ (if is_approved rule.state then promote config env action else pure action) (
                log_entry
                  (approval_entry env action rule by (is_approved rule.state))
                  (record s { queue = vote.1 }))
      unfolding approve_action write_audit
      approve_written who =
          let entry = approval_entry-fits env action rule by (is_approved rule.state) fit who in
          cc (read, voted, entry)

      pub approve_unwritten :
          fits_optional 128 (some by) ≡ false
          → approve_action config env a by tenant s
            ≡ (err validation_error, record s { queue = vote.1 })
      unfolding approve_action write_audit
      approve_unwritten who =
          let entry = approval_entry-unfit env action rule by (is_approved rule.state) who in
          cc (read, voted, entry)

module _ (config : Config) (env : Env) (a by : String) (tenant : Option String) (s : Pipeline)
    (sound : IsSound s) where
  -- What a vote that counted leaves, by whether its audit entry could be written.
  voted-IsSound :
      (action : Action) (rule : ApprovalRule)
      → get_action action.id tenant s ≡ ok action
      → (vote config env action.id by tenant s).0 ≡ ok rule
      → IsSound (approve_action config env action.id by tenant s).1
  unfolding row find
  voted-IsSound action rule read voted =
      let there = (get_action-stored action.id tenant s action read).0 in
      let known = sound.known action.id action there in
      let (old, row_old, pending) =
        approve-WasPending action.id (some by) (env.now decided) s.queue rule voted in
      let waits =
        waiting-status action.status old (ap (agrees action.status) (sym row_old) ∙ known.coherent)
          pending in
      let q = (vote config env action.id by tenant s).1 in
      let valid = approve-IsValid action.id (some by) (env.now decided) s.queue sound.queue_valid in
      let found =
        returned-stored action.id s.queue _ _ rule
          (approve-Refines action.id (some by) (env.now decided) s.queue sound.queue_valid) voted in
      let other : (b : String) → action.id ≢ b → find b q ≡ find b s.queue = λ b n.
        find-approve_ne b action.id s.queue sound.queue_valid n (some by) (env.now decided) in
      elim (Bool-cases (fits_optional 128 (some by))) [
        | inl who ↦
            subst (λ r. IsSound r.1)
              (sym (
                approve_written config env action.id by tenant s action read rule voted known.fit
                  who))
              (vote-IsSound s sound action there waits q rule valid found other _ (
                after_vote-IsSettled s sound action there waits q rule valid found other config env
                  by _ refl))
        | inr who ↦
            subst (λ r. IsSound r.1)
              (sym (
                approve_unwritten config env action.id by tenant s action read rule voted known.fit
                  who))
              (unwritten-IsSound s sound action there waits q rule valid found other)
      ]

  read-IsSound :
      (action : Action)
      → get_action action.id tenant s ≡ ok action
      → IsSound (approve_action config env action.id by tenant s).1
  read-IsSound action read = elim (Result-cases (vote config env action.id by tenant s).0) [
    | inl (rule, voted) ↦ voted-IsSound action rule read voted
    | inr (x, raised) ↦
        let same =
          raised-same action.id s.queue _ _ x
            (approve-Refines action.id (some by) (env.now decided) s.queue sound.queue_valid)
            raised in
        subst (λ r. IsSound r.1)
          (sym (approve_refused config env action.id by tenant s action read x same)) sound
  ]

  -- Whatever a vote meets, it leaves the pipeline sound.
  pub approve_action-IsSound : IsSound (approve_action config env a by tenant s).1
  approve_action-IsSound = elim (Result-cases (get_action a tenant s)) [
    | inl (action, read) ↦
        let keyed = (sound.known a action (get_action-stored a tenant s action read).0).keyed in
        subst (λ b. IsSound (approve_action config env b by tenant s).1) keyed
          (read-IsSound action (ap (λ b. get_action b tenant s) keyed ∙ read))
    | inr (x, unread) ↦
        subst (λ r. IsSound r.1) (sym (approve_unread config env a by tenant s x unread)) sound
  ]
