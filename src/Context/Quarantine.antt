-- ===== src/Context/Quarantine.antt =====
-- context_engine/quarantine.py: the events that ingestion refuses, for each tenant a bounded buffer.
-- A limit that is not positive is zero here. Ids and clock readings are arguments.
use penny_core.Prelude.{
  ℕ, String, Option, List, [], ◌==◌, string_eq, nat_beq, ltb, if◌then◌else◌, get_or, length,
}
use penny_core.Dict
use penny_core.Exec.{Exn, Result, ok, err, Exec, value_error}
use penny_core.Contracts.{Timestamp}
use penny_core.Contracts.Json.{Payload}
use penny_core.Rings.{Ring, append, newest}

pub data QuarantineReason : Type 0 where
  validation_failed missing_idempotency_key idempotency_key_mismatch : QuarantineReason
  unknown_customer oversized_payload injection_suspected other : QuarantineReason

pub record QuarantinedEvent : Type 0 where
  pub id : String
  pub tenant_id : String
  pub reason : QuarantineReason
  pub detail : String
  pub raw_payload : Payload
  pub quarantined_at : Timestamp
  pub context : Payload

-- `QuarantineBuffer(max_per_tenant)` and what `clear` leaves
unfoldable pub new_quarantine : ℕ → Result Exn (Ring QuarantinedEvent)
new_quarantine max_per_tenant = if ltb 0 max_per_tenant then ok [] else err value_error

module _ (max_per_tenant : ℕ) where
  unfoldable pub quarantine :
      String
      → Timestamp
      → String
      → QuarantineReason
      → String
      → Option Payload
      → Option Payload
      → Exec (Ring QuarantinedEvent) QuarantinedEvent
  quarantine new_id now tenant_id reason detail raw_payload context buffer =
      let entry : QuarantinedEvent = record {
        id = new_id;
        tenant_id = tenant_id;
        reason = reason;
        detail = detail;
        raw_payload = get_or [] raw_payload;
        quarantined_at = now;
        context = get_or [] context;
      } in
      if tenant_id == ""
      then (err value_error, buffer)
      else (ok entry, append max_per_tenant tenant_id entry buffer)

unfoldable pub recent_quarantined : String → ℕ → Ring QuarantinedEvent → List QuarantinedEvent
recent_quarantined tenant_id limit buffer =
    if nat_beq limit 0 then [] else newest limit (Dict.get_list buffer tenant_id)

unfoldable pub count_quarantined : String → Ring QuarantinedEvent → ℕ
count_quarantined tenant_id buffer = length (Dict.get_list buffer tenant_id)
