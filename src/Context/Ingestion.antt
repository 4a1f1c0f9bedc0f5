-- ===== src/Context/Ingestion.antt =====
-- `ingest_event` and `build_event_from_request` of context_engine/ingestion.py.
pub mod Delivery
pub mod Effects
mod Tests
use penny_core.Prelude.{ℕ, Bool, true, false, String, Option, none, some, ◌&&◌, if◌then◌else◌}
use penny_core.Exec.{Exn, Result, ok, err, Exec, pure, on_part, ◌>>=◌, ◌>>◌, validation_error}
use penny_core.Contracts.{fits, fits_optional}
use penny_core.Contracts.Json.{Payload}
use penny_core.Contracts.Events.{ChannelType, EventType, Event}
use penny_core.Context.Repository.{Repository, upsert_event}
use penny_core.Context.EventBus.{Bus, channel_for, envelope_for, publish}

pub record IngestionRequest : Type 0 where
  pub tenant_id : String
  pub customer_id : Option String
  pub channel_code : ChannelType
  pub event_type : EventType
  pub idempotency_key : Option String
  pub payload : Payload

pub record IngestionResult : Type 0 where
  pub event : Event
  pub created : Bool

-- `customer_id if customer_id is not None else request.customer_id`
unfoldable pub linked_customer : Option String → IngestionRequest → Option String
linked_customer none request = request.customer_id
linked_customer (some c) request = some c

-- Pydantic's checks of the fields of an `Event`.
unfoldable pub event_fits : Event → Bool
event_fits event =
    fits 64 event.id
    && fits 64 event.tenant_id
    && fits_optional 64 event.customer_id
    && fits 128 event.idempotency_key

-- The new id and the clock are arguments.
unfoldable pub build_event_from_request :
    String → ℕ → IngestionRequest → String → Option String → Result Exn Event
unfolding linked_customer event_fits
build_event_from_request new_id now request idempotency_key customer_id =
    let event : Event = record {
      id = new_id;
      tenant_id = request.tenant_id;
      customer_id = linked_customer customer_id request;
      channel_code = request.channel_code;
      event_type = request.event_type;
      idempotency_key = idempotency_key;
      payload = request.payload;
      received_at = now;
    } in
    if event_fits event then ok event else err validation_error

-- The repository, the bus and what the subscribers write to.
abbrev pub Service : Type 0 → Type 0
Service W = Repository × (Bus × W)

module _ {W : Type 0} (isoformat : ℕ → String)
    (call : ℕ → String → Payload → Exec W (Unit {0})) where
  -- The announcement of an event that is new.
  unfoldable pub announce : Bool → Event → Exec (Service W) (Unit {0})
  unfolding publish channel_for envelope_for
  announce false stored s = (ok tt, s)
  announce true stored (repo, bus) =
      let (r, bus') =
        publish call (channel_for stored.tenant_id) (envelope_for isoformat stored) bus in
      (r, (repo, bus'))

  unfoldable pub ingest_event : Event → Exec (Service W) IngestionResult
  unfolding upsert_event announce
  ingest_event event = do
    (stored, created) ←
        on_part (λ (s : Service W). s.0) (λ repo s. (repo, s.1)) (upsert_event event)
    announce created stored
    pure (record { event = stored; created = created })
