-- ===== src/Orchestrator/Pipeline/Once.antt =====
-- How often an action is run.
use penny_core.Prelude.{
  ℕ, ◌+◌, ◌≤◌, ◌≡◌, ◌⊎◌, refl, ap, ◌∙◌, sym, String, some, List, [], ◌∷◌, inl, inr, arith, subst,
}
use penny_core.Contracts.Actions.{
  ActionStatus, Action, pending_policy, pending_approval, pending_exec, executed, execution_failed,
  rejected,
}
use penny_core.Contracts.Audit.{AuditKind, AuditLogEntry}
use penny_core.Contracts.Json.{Payload}
use penny_core.Orchestrator.Pipeline.Defs.{Pipeline}
use penny_core.Orchestrator.Pipeline.Methods.{audit_for_action}
use penny_core.Orchestrator.Pipeline.Views.{stored}
use penny_core.Orchestrator.Pipeline.Trail.{Phase, unborn, broken, at, advance, advance_by, replay}
use penny_core.Orchestrator.Pipeline.History.{Reachable, audit_tells_status}

-- An entry of a run, finished or failed.
abbrev runs_of : AuditKind → ℕ
runs_of AuditKind.execution = 1
runs_of AuditKind.execution_failed = 1
runs_of AuditKind.proposal = 0
runs_of AuditKind.decision = 0
runs_of AuditKind.approval = 0
runs_of AuditKind.rejection = 0
runs_of AuditKind.policy_change = 0

abbrev pub runs : List AuditLogEntry → ℕ
runs [] = 0
runs (entry ∷ entries) = runs_of entry.kind + runs entries

-- The phases that end a trail that has run the action.
abbrev Over : Phase → Type 0
Over phase = (phase ≡ broken) ⊎ ((phase ≡ at executed) ⊎ (phase ≡ at execution_failed))

execution-Over :
    (phase : Phase) (payload : Payload) → Over (advance_by phase AuditKind.execution payload)
unfolding advance_by
execution-Over unborn payload = inl refl
execution-Over broken payload = inl refl
execution-Over (at pending_policy) payload = inl refl
execution-Over (at pending_approval) payload = inl refl
execution-Over (at pending_exec) payload = inr (inl refl)
execution-Over (at executed) payload = inl refl
execution-Over (at execution_failed) payload = inl refl
execution-Over (at rejected) payload = inl refl

failure-Over :
    (phase : Phase) (payload : Payload) → Over (advance_by phase AuditKind.execution_failed payload)
unfolding advance_by
failure-Over unborn payload = inl refl
failure-Over broken payload = inl refl
failure-Over (at pending_policy) payload = inl refl
failure-Over (at pending_approval) payload = inl refl
failure-Over (at pending_exec) payload = inr (inr refl)
failure-Over (at executed) payload = inl refl
failure-Over (at execution_failed) payload = inl refl
failure-Over (at rejected) payload = inl refl

replay-broken : (entries : List AuditLogEntry) → replay broken entries ≡ broken
unfolding replay advance advance_by
replay-broken [] = refl
replay-broken (entry ∷ entries) = replay-broken entries

executed-ends :
    (kind : AuditKind) (payload : Payload) → advance_by (at executed) kind payload ≡ broken
unfolding advance_by
executed-ends AuditKind.proposal payload = refl
executed-ends AuditKind.decision payload = refl
executed-ends AuditKind.approval payload = refl
executed-ends AuditKind.rejection payload = refl
executed-ends AuditKind.execution payload = refl
executed-ends AuditKind.execution_failed payload = refl
executed-ends AuditKind.policy_change payload = refl

failed-ends :
    (kind : AuditKind) (payload : Payload) → advance_by (at execution_failed) kind payload ≡ broken
unfolding advance_by
failed-ends AuditKind.proposal payload = refl
failed-ends AuditKind.decision payload = refl
failed-ends AuditKind.approval payload = refl
failed-ends AuditKind.rejection payload = refl
failed-ends AuditKind.execution payload = refl
failed-ends AuditKind.execution_failed payload = refl
failed-ends AuditKind.policy_change payload = refl

Over-advance : (phase : Phase) (entry : AuditLogEntry) → Over phase → advance phase entry ≡ broken
unfolding advance advance_by
Over-advance phase entry (inl is) = ap (λ (x : Phase). advance x entry) is
Over-advance phase entry (inr (inl is)) =
    ap (λ (x : Phase). advance x entry) is ∙ executed-ends entry.kind entry.payload
Over-advance phase entry (inr (inr is)) =
    ap (λ (x : Phase). advance x entry) is ∙ failed-ends entry.kind entry.payload

Over-runs :
    (phase : Phase) (entries : List AuditLogEntry) (status : ActionStatus)
    → Over phase
    → replay phase entries ≡ at status
    → runs entries ≡ 0
unfolding replay
Over-runs phase [] status over h = refl
Over-runs phase (entry ∷ entries) status over h =
    cc (
      ap (λ (x : Phase). replay x entries) (Over-advance phase entry over),
      replay-broken entries,
      h,
    )

kind_cases :
    (kind : AuditKind)
    → (runs_of kind ≡ 0) ⊎ ((kind ≡ AuditKind.execution) ⊎ (kind ≡ AuditKind.execution_failed))
kind_cases AuditKind.proposal = inl refl
kind_cases AuditKind.decision = inl refl
kind_cases AuditKind.approval = inl refl
kind_cases AuditKind.rejection = inl refl
kind_cases AuditKind.execution = inr (inl refl)
kind_cases AuditKind.execution_failed = inr (inr refl)
kind_cases AuditKind.policy_change = inl refl

runs_bound :
    (phase : Phase) (entries : List AuditLogEntry) (status : ActionStatus)
    → replay phase entries ≡ at status
    → runs entries ≤ 1
unfolding replay advance
runs_bound phase [] status h = omega arith
runs_bound phase (entry ∷ entries) status h = elim (kind_cases entry.kind) [
  | inl none ↦ omega (arith, none, runs_bound (advance phase entry) entries status h)
  | inr (inl is) ↦
      let over : Over (advance phase entry) =
        subst (λ k. Over (advance_by phase k entry.payload)) (sym is)
          (execution-Over phase entry.payload) in
      let none = Over-runs (advance phase entry) entries status over h in
      let one : runs_of entry.kind ≡ 1 = ap runs_of is in omega (arith, none, one)
  | inr (inr is) ↦
      let over : Over (advance phase entry) =
        subst (λ k. Over (advance_by phase k entry.payload)) (sym is)
          (failure-Over phase entry.payload) in
      let none = Over-runs (advance phase entry) entries status over h in
      let one : runs_of entry.kind ≡ 1 = ap runs_of is in omega (arith, none, one)
]

-- After any history of the calls of History.Step, the audit trail of a stored action holds at most one entry of a run,
-- finished or failed.
pub at_most_one_run :
    (s : Pipeline) (history : Reachable s) (a : String) (action : Action)
    → stored a s ≡ some action
    → runs (audit_for_action a s) ≤ 1
at_most_one_run s history a action there =
    runs_bound unborn (audit_for_action a s) action.status
      (audit_tells_status s history a action there)
