-- ===== src/Contracts/Audit.antt =====
-- contracts/audit.py
use penny_core.Prelude.{ℕ, String, Option}
use penny_core.Contracts.Json.{Payload}

pub data AuditKind : Type 0 where
  proposal decision approval rejection execution execution_failed policy_change : AuditKind

pub data AuditActorKind : Type 0 where
  system llm human fallback : AuditActorKind

pub record AuditLogEntry : Type 0 where
  pub id : Option ℕ
  pub tenant_id : String
  pub ts : ℕ
  pub kind : AuditKind
  pub action_id : Option String
  pub caused_by_event_id : Option String
  pub actor_kind : AuditActorKind
  pub actor_id : Option String
  pub payload : Payload
