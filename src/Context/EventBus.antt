-- ===== src/Context/EventBus.antt =====
-- `InMemoryEventBus` of context_engine/event_bus.py. A subscriber is known by its identity; what a
-- callback does to the world outside the bus, and whether it raises, is a parameter.
use Prim.Native.String.{◌++◌}
use penny_core.Prelude.{
  ℕ, String, Option, none, some, List, [], ◌∷◌, mem, remove_first, nat_eq, snoc, if◌then◌else◌,
}
use penny_core.Exec.{ok, Exec}
use penny_core.Contracts.Json.{Value, text, null, Payload}
use penny_core.Contracts.Events.{Event, channel_value, event_type_value}

-- `f"{EVENT_CHANNEL_PREFIX}.{tenant_id}"`
unfoldable pub channel_for : String → String
channel_for tenant_id = "events" ++ ("." ++ tenant_id)

abbrev optional_text : Option String → Value
optional_text none = null
optional_text (some s) = text s

-- The envelope; `isoformat` of the time is Python's.
unfoldable pub envelope_for : (ℕ → String) → Event → Payload
envelope_for isoformat event =
    ("event_id", text event.id)
    ∷ ("tenant_id", text event.tenant_id)
    ∷ ("customer_id", optional_text event.customer_id)
    ∷ ("channel_code", text (channel_value event.channel_code))
    ∷ ("event_type", text (event_type_value event.event_type))
    ∷ ("received_at", text (isoformat event.received_at))
    ∷ []

pub record Bus : Type 0 where
  pub published : List (String × Payload)
  pub subscribers : List ℕ

module _ {W : Type 0} (call : ℕ → String → Payload → Exec W (Unit {0})) where
  -- The loop over the snapshot of the subscribers: what a callback raises is dropped.
  unfoldable pub fan_out : List ℕ → String → Payload → W → W
  fan_out [] channel payload w = w
  fan_out (cb ∷ callbacks) channel payload w =
      fan_out callbacks channel payload (call cb channel payload w).1

  unfoldable pub publish : String → Payload → Exec (Bus × W) (Unit {0})
  unfolding fan_out
  publish channel payload (bus, w) = (
    ok tt,
    (
      record bus { published = snoc bus.published (channel, payload) },
      fan_out bus.subscribers channel payload w,
    ),
  )

-- The same callback twice is one subscriber.
unfoldable pub subscribe : ℕ → Bus → Bus
subscribe cb bus =
    if mem cb bus.subscribers then bus else record bus { subscribers = snoc bus.subscribers cb }

unfoldable pub unsubscribe : ℕ → Bus → Bus
unsubscribe cb bus = record bus { subscribers = remove_first cb bus.subscribers }

-- The subscribers stay.
unfoldable pub clear : Bus → Bus
clear bus = record bus { published = [] }
