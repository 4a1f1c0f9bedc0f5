-- ===== src/Orchestrator/Audit/Tests.antt =====
-- Two rows of one action.
use penny_core.Prelude.{◌≡◌, some, none, [], ◌∷◌, select, string_eq}
use penny_core.Contracts.Audit.{AuditKind, AuditActorKind, AuditLogEntry}
use penny_core.Orchestrator.Audit.{
  empty_log, all_entries, entries_for_tenant, entries_for_action, entries_for_event,
}
use penny_core.Orchestrator.Audit.Indexes.{
  write_all, number_from, writes_append, readers_are_filters, has_tenant, has_action, has_event,
  both, empty_log-IsIndexed,
}

abbrev proposed : AuditLogEntry
proposed = record {
  id = none;
  tenant_id = "bank_a";
  ts = 5;
  kind = AuditKind.proposal;
  action_id = some "act_1";
  caused_by_event_id = some "evt_1";
  actor_kind = AuditActorKind.llm;
  actor_id = none;
  payload = [];
}

abbrev decided : AuditLogEntry
decided = record proposed { kind = AuditKind.decision; ts = 6; actor_kind = AuditActorKind.system }

writes_append_example :
    all_entries (write_all (proposed ∷ decided ∷ []) empty_log)
    ≡ number_from 1 (proposed ∷ decided ∷ [])
unfolding all_entries
writes_append_example = writes_append (proposed ∷ decided ∷ []) empty_log empty_log-IsIndexed

readers_are_filters_example :
    let log = write_all (proposed ∷ decided ∷ []) empty_log in
    (entries_for_tenant "bank_a" log ≡ select (has_tenant "bank_a") (all_entries log))
    × (entries_for_action "act_1" none log ≡ select (has_action "act_1") (all_entries log))
    × (entries_for_event "act_1" none log ≡ select (has_event "act_1") (all_entries log))
    × (entries_for_action "act_1" (some "bank_a") log
        ≡ select (both (has_action "act_1") (has_tenant "bank_a")) (all_entries log))
    × (entries_for_event "act_1" (some "bank_a") log
        ≡ select (both (has_event "act_1") (has_tenant "bank_a")) (all_entries log))
readers_are_filters_example = readers_are_filters (proposed ∷ decided ∷ []) "bank_a" "act_1"
