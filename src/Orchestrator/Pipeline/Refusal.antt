-- ===== src/Orchestrator/Pipeline/Refusal.antt =====
-- The call `reject_action` as a whole.
use penny_core.Prelude.{
  ℕ, ◌≡◌, ◌≢◌, refl, sym, ap, ◌∙◌, subst, true, false, String, Option, some, inl, inr, string_eq,
  Option-cases, Bool-cases, arith,
}
use penny_core.Dict
use penny_core.Exec.{Exn, Result, ok, err, Result-cases, validation_error}
use penny_core.Contracts.{fits_optional}
use penny_core.Contracts.Actions.{Action, rejected}
use penny_core.Contracts.Policies.{ApprovalRule}
use penny_core.Orchestrator.Approval
use penny_core.Orchestrator.Approval.{
  Queue, find, is_pending_state, is_eligible, resolved_rule, resolve, require_pending,
}
use penny_core.Orchestrator.Approval.Preservation.{reject-IsValid}
use penny_core.Orchestrator.Approval.Frame.{find-reject_ne}
use penny_core.Orchestrator.Approval.Outcomes.{reject-Refines}
use penny_core.Orchestrator.Approval.Arming.{reject-WasPending}
use penny_core.Orchestrator.Pipeline.Defs.{
  Env, decided, status_set, Pipeline, action_fits, put_action, log_entry, write_audit,
  human_rejection_entry, with_status,
}
use penny_core.Orchestrator.Pipeline.Methods.{get_action, reject_action}
use penny_core.Orchestrator.Pipeline.Views.{row}
use penny_core.Orchestrator.Pipeline.Local.{IsSeen, put_action-IsSeen}
use penny_core.Orchestrator.Pipeline.Running.{IsSettled, agrees, is_rejected, with_status-IsVersion}
use penny_core.Orchestrator.Pipeline.Sound.{IsSound}
use penny_core.Orchestrator.Pipeline.Trail.{at}
use penny_core.Orchestrator.Pipeline.Human.{returned-stored, raised-same}
use penny_core.Orchestrator.Pipeline.Voting.{
  human_rejection_entry-unfit, get_action-stored, waiting-status, human_rejection_entry-fits,
  unwritten-IsSound, vote-IsSound, rejected-IsSeen,
}

-- The row that `reject` returns is rejected.
pub reject-state :
    (a reason : String) (by : Option String) (now : ℕ) (q : Queue) (rule : ApprovalRule)
    → (Approval.reject a reason by now q).0 ≡ ok rule
    → is_rejected rule.state ≡ true
unfolding Approval.reject require_pending resolve resolved_rule is_rejected
reject-state a reason by now q rule h = elim (Option-cases (Dict.get q.by_id a)) [
  | inl missing ↦ ground (arith, h, missing)
  | inr (old, there) ↦ ground (arith, h, there)
]

module _ (env : Env) (a reason by : String) (tenant : Option String) (s : Pipeline) where
  abbrev pub refusal : Result Exn ApprovalRule × Queue
  refusal = Approval.reject a reason (some by) (env.now decided) s.queue

  reject_unread :
      (x : Exn)
      → get_action a tenant s ≡ err x
      → reject_action env a reason by tenant s ≡ (err x, s)
  unfolding reject_action
  reject_unread x h = cc h

  module _ (action : Action) (read : get_action a tenant s ≡ ok action) where
    pub reject_refused :
        (x : Exn) → refusal ≡ (err x, s.queue) → reject_action env a reason by tenant s ≡ (err x, s)
    unfolding reject_action
    reject_refused x h = cc (read, h)

    module _ (rule : ApprovalRule) (refused : refusal.0 ≡ ok rule)
        (fit : action_fits action ≡ true) where
      reject_written :
          fits_optional 128 (some by) ≡ true
          → reject_action env a reason by tenant s ≡ (
            ok (with_status rejected (env.now status_set) action),
            put_action (with_status rejected (env.now status_set) action) (
                log_entry
                  (human_rejection_entry env action reason by)
                  (record s { queue = refusal.1 })),
          )
      unfolding reject_action write_audit
      reject_written who =
          let entry = human_rejection_entry-fits env action reason by fit who in
          cc (read, refused, entry)

      reject_unwritten :
          fits_optional 128 (some by) ≡ false
          → reject_action env a reason by tenant s
            ≡ (err validation_error, record s { queue = refusal.1 })
      unfolding reject_action write_audit
      reject_unwritten who =
          let entry = human_rejection_entry-unfit env action reason by who in
          cc (read, refused, entry)

rejected-IsSettled :
    (env : Env) (start : Pipeline) (action : Action) (rule : ApprovalRule) (s : Pipeline)
    → is_rejected rule.state ≡ true
    → IsSeen action.id start action (at rejected) (some rule) s
    → IsSettled start action (
      ok (with_status rejected (env.now status_set) action),
      put_action (with_status rejected (env.now status_set) action) s,
    )
unfolding agrees with_status
rejected-IsSettled env start action rule s h seen = record {
  done = with_status rejected (env.now status_set) action;
  rule = some rule;
  returned = refl;
  version = with_status-IsVersion rejected (env.now status_set) action;
  coherent = h;
  seen = put_action-IsSeen seen.rest seen.told seen.queued refl;
}

module _ (env : Env) (a reason by : String) (tenant : Option String) (s : Pipeline)
    (sound : IsSound s) where
  refused-IsSound :
      (action : Action) (rule : ApprovalRule)
      → get_action action.id tenant s ≡ ok action
      → (refusal env action.id reason by tenant s).0 ≡ ok rule
      → IsSound (reject_action env action.id reason by tenant s).1
  unfolding row find
  refused-IsSound action rule read refused =
      let there = (get_action-stored action.id tenant s action read).0 in
      let known = sound.known action.id action there in
      let (old, row_old, pending) =
        reject-WasPending action.id (some by) (env.now decided) s.queue rule reason refused in
      let waits =
        waiting-status action.status old (ap (agrees action.status) (sym row_old) ∙ known.coherent)
          pending in
      let q = (refusal env action.id reason by tenant s).1 in
      let valid =
        reject-IsValid action.id reason (some by) (env.now decided) s.queue sound.queue_valid in
      let found =
        returned-stored action.id s.queue _ _ rule
          (reject-Refines action.id reason (some by) (env.now decided) s.queue sound.queue_valid)
          refused in
      let other : (b : String) → action.id ≢ b → find b q ≡ find b s.queue = λ b n.
        find-reject_ne b action.id s.queue sound.queue_valid n reason (some by) (env.now decided) in
      let state = reject-state action.id reason (some by) (env.now decided) s.queue rule refused in
      elim (Bool-cases (fits_optional 128 (some by))) [
        | inl who ↦
            subst (λ r. IsSound r.1)
              (sym (
                reject_written env action.id reason by tenant s action read rule refused known.fit
                  who))
              (vote-IsSound s sound action there waits q rule valid found other _ (
                rejected-IsSettled env s action rule _ state (
                  rejected-IsSeen s sound action there waits q rule valid found other env reason
                    by)))
        | inr who ↦
            subst (λ r. IsSound r.1)
              (sym (
                reject_unwritten env action.id reason by tenant s action read rule refused known.fit
                  who))
              (unwritten-IsSound s sound action there waits q rule valid found other)
      ]

  read-IsSound :
      (action : Action)
      → get_action action.id tenant s ≡ ok action
      → IsSound (reject_action env action.id reason by tenant s).1
  read-IsSound action read = elim (Result-cases (refusal env action.id reason by tenant s).0) [
    | inl (rule, refused) ↦ refused-IsSound action rule read refused
    | inr (x, raised) ↦
        let same =
          raised-same action.id s.queue _ _ x
            (reject-Refines action.id reason (some by) (env.now decided) s.queue sound.queue_valid)
            raised in
        subst (λ r. IsSound r.1)
          (sym (reject_refused env action.id reason by tenant s action read x same)) sound
  ]

  -- Whatever a rejection meets, it leaves the pipeline sound.
  pub reject_action-IsSound : IsSound (reject_action env a reason by tenant s).1
  reject_action-IsSound = elim (Result-cases (get_action a tenant s)) [
    | inl (action, read) ↦
        let keyed = (sound.known a action (get_action-stored a tenant s action read).0).keyed in
        subst (λ b. IsSound (reject_action env b reason by tenant s).1) keyed
          (read-IsSound action (ap (λ b. get_action b tenant s) keyed ∙ read))
    | inr (x, unread) ↦
        subst (λ r. IsSound r.1) (sym (reject_unread env a reason by tenant s x unread)) sound
  ]
