-- ===== src/Orchestrator/Audit.antt =====
-- `InMemoryAuditLog` of orchestrator/audit.py.
pub mod Indexes
mod Tests
use penny_core.Prelude.{
  ℕ, ◌+◌, Bool, String, Option, none, some, List, [], ◌∷◌, ◌++◌, ◌==◌, string_eq, select,
}
use penny_core.Dict
use penny_core.Dict.{Dict}
use penny_core.Contracts.Audit.{AuditLogEntry}

pub record AuditLog : Type 0 where
  pub entries : List AuditLogEntry
  pub by_tenant : Dict String (List AuditLogEntry)
  pub by_action : Dict String (List AuditLogEntry)
  pub by_event : Dict String (List AuditLogEntry)
  pub next_id : ℕ

-- `InMemoryAuditLog()`, and what `clear` sets.
abbrev pub empty_log : AuditLog
empty_log = record { entries = []; by_tenant = []; by_action = []; by_event = []; next_id = 1 }

-- An index under a key that may be missing from the entry.
unfoldable pub push_optional :
    Dict String (List AuditLogEntry)
    → Option String
    → AuditLogEntry
    → Dict String (List AuditLogEntry)
push_optional d none entry = d
push_optional d (some k) entry = Dict.push d k entry

unfoldable pub assign_id : ℕ → AuditLogEntry → AuditLogEntry
assign_id n entry = record entry { id = some n }

-- The new log and the entry with its id.
unfoldable pub write : AuditLogEntry → AuditLog → AuditLogEntry × AuditLog
unfolding assign_id push_optional
write entry log =
    let assigned = assign_id log.next_id entry in
    (
      assigned,
      record {
        entries = log.entries ++ assigned ∷ [];
        by_tenant = Dict.push log.by_tenant assigned.tenant_id assigned;
        by_action = push_optional log.by_action assigned.action_id assigned;
        by_event = push_optional log.by_event assigned.caused_by_event_id assigned;
        next_id = log.next_id + 1;
      },
    )

unfoldable pub entries_for_tenant : String → AuditLog → List AuditLogEntry
entries_for_tenant tenant_id log = Dict.get_list log.by_tenant tenant_id

-- The filter of the two readers below; no tenant keeps all rows.
unfoldable pub of_tenant : Option String → List AuditLogEntry → List AuditLogEntry
of_tenant none rows = rows
of_tenant (some tenant_id) rows = select (λ (r : AuditLogEntry). r.tenant_id == tenant_id) rows

unfoldable pub entries_for_action : String → Option String → AuditLog → List AuditLogEntry
unfolding of_tenant
entries_for_action action_id tenant_id log =
    of_tenant tenant_id (Dict.get_list log.by_action action_id)

unfoldable pub entries_for_event : String → Option String → AuditLog → List AuditLogEntry
unfolding of_tenant
entries_for_event event_id tenant_id log = of_tenant tenant_id (Dict.get_list log.by_event event_id)

unfoldable pub all_entries : AuditLog → List AuditLogEntry
all_entries log = log.entries
