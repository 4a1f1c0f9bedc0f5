-- ===== src/Context/Ingestion/Tests.antt =====
-- A message that is delivered twice to a service with one subscriber, which counts its calls.
use penny_core.Prelude.{
  ℕ, ◌+◌, ◌≡◌, ◌⊎◌, refl, Bool, true, false, String, some, none, [], ◌∷◌, string_eq, mem,
}
use penny_core.Dict
use penny_core.Exec.{Exec, ok}
use penny_core.Contracts.Json.{Payload, text}
use penny_core.Contracts.Events.{Event, chat, message_received}
use penny_core.Context.Repository.{empty_repository, get_event_by_id, get_event_by_idempotency}
use penny_core.Context.Repository.Replay.{empty_repository-IsIndexed}
use penny_core.Context.EventBus.{Bus, publish, subscribe, clear}
use penny_core.Context.Ingestion.{Service, ingest_event}
use penny_core.Context.Ingestion.Delivery.{event_redelivery_unchanged}
use penny_core.Context.Ingestion.Effects.{Announces, ingest_event-cases}

abbrev message : Event
message = record {
  id = "evt_1";
  tenant_id = "bank_a";
  customer_id = none;
  channel_code = chat;
  event_type = message_received;
  idempotency_key = "key_1";
  payload = ("text", text "hello") ∷ [];
  received_at = 3;
}

abbrev resent : Event
resent = record message { id = "evt_2"; received_at = 4 }

abbrev bus : Bus
bus = record { published = []; subscribers = 7 ∷ [] }

abbrev count_call : ℕ → String → Payload → Exec ℕ (Unit {0})
count_call cb channel payload n = (ok tt, n + 1)

abbrev iso : ℕ → String
iso t = "1970-01-01"

not_there : get_event_by_id "bank_a" "evt_1" empty_repository ≡ none
unfolding get_event_by_id Dict.get
not_there = refl

ingest_event-cases_example :
    ((get_event_by_idempotency "bank_a" "key_1" empty_repository ≡ none)
      × (after : Service ℕ) × (ingest_event iso count_call message (empty_repository, (bus, 0))
          ≡ (ok (record { event = message; created = true }), after))
      × Announces iso count_call message (empty_repository, (bus, 0)) after)
    ⊎ (first : Event) × (get_event_by_idempotency "bank_a" "key_1" empty_repository ≡ some first)
      × (ingest_event iso count_call message (empty_repository, (bus, 0))
          ≡ (ok (record { event = first; created = false }), (empty_repository, (bus, 0))))
ingest_event-cases_example =
    ingest_event-cases iso count_call message (empty_repository, (bus, 0))
      empty_repository-IsIndexed not_there

event_redelivery_unchanged_example :
    (first : Event) × (created : Bool) × (after : Service ℕ) × (ingest_event iso count_call message
        (empty_repository, (bus, 0))
      ≡ (ok (record { event = first; created = created }), after))
    × (ingest_event iso count_call resent after
        ≡ (ok (record { event = first; created = false }), after))
event_redelivery_unchanged_example =
    event_redelivery_unchanged iso count_call message resent empty_repository bus 0
      empty_repository-IsIndexed not_there refl refl

-- After `clear` the subscribers are still called, and 7 is one subscriber though it came twice.
clear_keeps_subscribers :
    publish count_call "events.bank_a" [] (clear (subscribe 7 (subscribe 8 bus)), 3)
    ≡ (ok tt, (record { published = ("events.bank_a", []) ∷ []; subscribers = 7 ∷ 8 ∷ [] }, 5))
unfolding publish clear subscribe mem
clear_keeps_subscribers = refl
