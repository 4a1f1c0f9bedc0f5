-- ===== src/Contracts/Events.antt =====
-- contracts/events.py
use penny_core.Prelude.{ℕ, String, Option}
use penny_core.Contracts.Json.{Payload}

pub data ChannelType : Type 0 where
  chat email sms voice api : ChannelType

pub data EventType : Type 0 where
  message_received document_uploaded status_changed anomaly_detected system_event : EventType

-- `ChannelType.value`
unfoldable pub channel_value : ChannelType → String
channel_value chat = "chat"
channel_value email = "email"
channel_value sms = "sms"
channel_value voice = "voice"
channel_value api = "api"

-- `EventType.value`
unfoldable pub event_type_value : EventType → String
event_type_value message_received = "message_received"
event_type_value document_uploaded = "document_uploaded"
event_type_value status_changed = "status_changed"
event_type_value anomaly_detected = "anomaly_detected"
event_type_value system_event = "system_event"

pub record Event : Type 0 where
  pub id : String
  pub tenant_id : String
  pub customer_id : Option String
  pub channel_code : ChannelType
  pub event_type : EventType
  pub idempotency_key : String
  pub payload : Payload
  pub received_at : ℕ
