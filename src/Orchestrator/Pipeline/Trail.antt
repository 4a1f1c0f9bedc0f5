-- ===== src/Orchestrator/Pipeline/Trail.antt =====
-- The life of an action as its audit trail tells it: each entry is a step of the state machine of
-- `ActionStatus`, and one that does not fit the phase breaks the trail.
use penny_core.Prelude.{
  ◌≡◌, refl, true, false, Option, some, none, List, [], ◌∷◌, ◌++◌, ◌==◌, string_eq, if◌then◌else◌,
}
use penny_core.Dict
use penny_core.Contracts.Json.{Value, text, number, bool, null, obj, arr, Payload}
use penny_core.Contracts.Actions.{
  ActionStatus, pending_policy, pending_approval, pending_exec, executed, execution_failed,
  rejected,
}
use penny_core.Contracts.Audit.{AuditKind, AuditLogEntry}

pub data Phase : Type 0 where
  unborn broken : Phase
  at : ActionStatus → Phase

-- What a decision entry says.
unfoldable pub decided_phase : Option Value → Phase
decided_phase (some (text d)) =
    if d == "auto"
    then at pending_exec
    else if d == "approval_required"
    then at pending_approval
    else if d == "reject"
    then at pending_policy
    else broken
decided_phase (some (number _)) = broken
decided_phase (some (bool _)) = broken
decided_phase (some null) = broken
decided_phase (some (obj _)) = broken
decided_phase (some (arr _)) = broken
decided_phase none = broken

-- What a vote says: it completes the quorum, or the action waits on.
unfoldable pub voted_phase : Option Value → Phase
voted_phase (some (bool true)) = at pending_exec
voted_phase (some (bool false)) = at pending_approval
voted_phase (some (number _)) = broken
voted_phase (some (text _)) = broken
voted_phase (some null) = broken
voted_phase (some (obj _)) = broken
voted_phase (some (arr _)) = broken
voted_phase none = broken

unfoldable pub advance_by : Phase → AuditKind → Payload → Phase
unfolding decided_phase voted_phase
advance_by unborn AuditKind.proposal payload = at pending_policy
advance_by (at pending_policy) AuditKind.decision payload =
    decided_phase (Dict.get payload "decision")
advance_by (at pending_policy) AuditKind.rejection payload = at rejected
advance_by (at pending_approval) AuditKind.approval payload =
    voted_phase (Dict.get payload "quorum_reached")
advance_by (at pending_approval) AuditKind.rejection payload = at rejected
advance_by (at pending_exec) AuditKind.execution payload = at executed
advance_by (at pending_exec) AuditKind.execution_failed payload = at execution_failed
advance_by _ _ _ = broken

unfoldable pub advance : Phase → AuditLogEntry → Phase
unfolding advance_by
advance phase entry = advance_by phase entry.kind entry.payload

unfoldable pub replay : Phase → List AuditLogEntry → Phase
unfolding advance
replay phase [] = phase
replay phase (entry ∷ entries) = replay (advance phase entry) entries

pub replay-append :
    (phase : Phase) (entries later : List AuditLogEntry)
    → replay phase (entries ++ later) ≡ replay (replay phase entries) later
unfolding replay
replay-append phase [] later = refl
replay-append phase (entry ∷ entries) later = replay-append (advance phase entry) entries later
