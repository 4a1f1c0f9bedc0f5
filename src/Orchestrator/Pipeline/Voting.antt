-- ===== src/Orchestrator/Pipeline/Voting.antt =====
-- `approve_action` and `reject_action`: what a human decision does to the pipeline.
use penny_core.Prelude.{
  ◌≡◌, ◌≢◌, refl, sym, ap, ◌∙◌, subst, Bool, true, false, String, Option, some, inl, inr, string_eq,
  Option-cases, arith, if◌then◌else◌,
}
use penny_core.Dict
use penny_core.Exec.{Exn, Result, ok, pure}
use penny_core.Contracts.{fits_optional}
use penny_core.Contracts.Json.{bool}
use penny_core.Contracts.Actions.{ActionStatus, Action, pending_approval, rejected}
use penny_core.Contracts.Policies.{ApprovalRule}
use penny_core.Orchestrator.Approval.{Queue, find, is_pending_state}
use penny_core.Orchestrator.Approval.Invariant
use penny_core.Orchestrator.Pipeline.Defs.{
  Config, Env, Pipeline, action_fits, log_entry, entry_fits, approval_entry, human_rejection_entry,
  row_for,
}
use penny_core.Orchestrator.Pipeline.Methods.{get_action, promote, is_approved, foreign}
use penny_core.Orchestrator.Pipeline.Store.{get}
use penny_core.Orchestrator.Pipeline.Views.{stored}
use penny_core.Orchestrator.Pipeline.Trail.{at, advance, advance_by, voted_phase}
use penny_core.Orchestrator.Pipeline.Local.{IsSeen, IsLocal-refl, log_entry-IsSeen, queue-IsSeen}
use penny_core.Orchestrator.Pipeline.Running.{IsSettled, row_for-fits, agrees, promote-IsSettled}
use penny_core.Orchestrator.Pipeline.Sound.{IsSound, settled-IsSound}

-- The action that a guarded read returns is the stored one, and not foreign.
pub get_action-stored :
    (a : String) (tenant : Option String) (s : Pipeline) (action : Action)
    → get_action a tenant s ≡ ok action
    → (stored a s ≡ some action) × (foreign tenant action ≡ false)
unfolding get_action get stored
get_action-stored a tenant s action h = elim (Option-cases (Dict.get s.actions.by_id a)) [
  | inl missing ↦ ground (arith, h, missing)
  | inr (there, e) ↦ (ground (arith, h, e), ground (arith, h, e))
]

-- A row that waits belongs to an action that waits.
pub waiting-status :
    (status : ActionStatus) (old : ApprovalRule)
    → agrees status (some old) ≡ true
    → is_pending_state old.state ≡ true
    → status ≡ pending_approval
unfolding agrees is_pending_state
waiting-status status old h pending = ground (arith, h, pending)

pub approval_entry-fits :
    (env : Env) (action : Action) (rule : ApprovalRule) (by : String) (reached : Bool)
    → action_fits action ≡ true
    → fits_optional 128 (some by) ≡ true
    → entry_fits (approval_entry env action rule by reached) ≡ true
unfolding approval_entry
approval_entry-fits env action rule by reached fit who =
    row_for-fits action _ _ _ (some by) _ fit who

pub approval_entry-unfit :
    (env : Env) (action : Action) (rule : ApprovalRule) (by : String) (reached : Bool)
    → fits_optional 128 (some by) ≡ false
    → entry_fits (approval_entry env action rule by reached) ≡ false
unfolding entry_fits approval_entry row_for fits_optional
approval_entry-unfit env action rule by reached who = ground (arith, who)

pub human_rejection_entry-unfit :
    (env : Env) (action : Action) (reason by : String)
    → fits_optional 128 (some by) ≡ false
    → entry_fits (human_rejection_entry env action reason by) ≡ false
unfolding entry_fits human_rejection_entry row_for fits_optional
human_rejection_entry-unfit env action reason by who = ground (arith, who)

pub human_rejection_entry-fits :
    (env : Env) (action : Action) (reason by : String)
    → action_fits action ≡ true
    → fits_optional 128 (some by) ≡ true
    → entry_fits (human_rejection_entry env action reason by) ≡ true
unfolding human_rejection_entry
human_rejection_entry-fits env action reason by fit who =
    row_for-fits action _ _ _ (some by) _ fit who

-- A vote was recorded in the queue: what follows in the pipeline.
module _ (s : Pipeline) (sound : IsSound s) (action : Action)
    (there : stored action.id s ≡ some action) (waits : action.status ≡ pending_approval)
    (q : Queue) (rule : ApprovalRule) (valid : Invariant.IsValid q)
    (found : find action.id q ≡ some rule)
    (other : (b : String) → action.id ≢ b → find b q ≡ find b s.queue) where
  abbrev fit : action_fits action ≡ true
  fit = (sound.known action.id action there).fit

  voted-IsSeen :
      IsSeen action.id s action (at pending_approval) (some rule) (record s { queue = q })
  voted-IsSeen = queue-IsSeen q (some rule) valid found other (record {
    holds = there;
    told = (sound.known action.id action there).told ∙ ap at waits;
    queued = refl;
    rest = IsLocal-refl action.id s sound.queue_valid;
  })

  -- A trail that says that the action waits settles it as it is.
  waiting-IsSettled :
      (s' : Pipeline)
      → IsSeen action.id s action (at pending_approval) (some rule) s'
      → IsSettled s action (ok action, s')
  unfolding agrees
  waiting-IsSettled s' seen = record {
    done = action;
    rule = some rule;
    returned = refl;
    version = record {
      id_same = refl;
      tenant_same = refl;
      event_same = refl;
      type_same = refl;
      fit_same = refl;
    };
    coherent = subst (λ st. agrees st (some rule) ≡ true) (sym waits) refl;
    seen = subst (λ st. IsSeen action.id s action (at st) (some rule) s') (sym waits) seen;
  }

  pub vote-IsSound :
      (result : Result Exn Action × Pipeline) → IsSettled s action result → IsSound result.1
  vote-IsSound result settled =
      settled-IsSound s sound action fit
        (λ old h.
          let same : action ≡ old = cc (h, there) in
          (ap (λ (x : Action). x.tenant_id) (sym same), ap (λ (x : Action). x.event_id) (sym same)))
        result settled

  -- A vote that is refused its audit entry leaves the pipeline sound.
  pub unwritten-IsSound : IsSound (record s { queue = q })
  unwritten-IsSound =
      vote-IsSound (ok action, record s { queue = q })
        (waiting-IsSettled (record s { queue = q }) voted-IsSeen)

  module _ (config : Config) (env : Env) (by : String) where
    entered-IsSeen :
        (reached : Bool)
        → IsSeen action.id s action
            (voted_phase (some (bool reached)))
            (some rule)
            (log_entry (approval_entry env action rule by reached) (record s { queue = q }))
    unfolding approval_entry advance advance_by row_for Dict.get
    entered-IsSeen reached =
        log_entry-IsSeen (approval_entry env action rule by reached) refl voted-IsSeen

    -- The part of `approve_action` behind the audit entry.
    pub after_vote-IsSettled :
        (reached : Bool)
        → is_approved rule.state ≡ reached
        → IsSettled s action (
            (if reached then promote config env action else pure action)
              (log_entry (approval_entry env action rule by reached) (record s { queue = q })))
    unfolding voted_phase agrees
    after_vote-IsSettled true reached =
        let seen = entered-IsSeen true in
        promote-IsSettled config env s action (some rule) _ seen.rest seen.told seen.queued fit
          reached
    after_vote-IsSettled false reached = waiting-IsSettled _ (entered-IsSeen false)

  pub rejected-IsSeen :
      (env : Env) (reason by : String)
      → IsSeen action.id s action
          (at rejected)
          (some rule)
          (log_entry (human_rejection_entry env action reason by) (record s { queue = q }))
  unfolding human_rejection_entry advance advance_by row_for
  rejected-IsSeen env reason by =
      log_entry-IsSeen (human_rejection_entry env action reason by) refl voted-IsSeen
