-- ===== src/Orchestrator/EventListener/Tests.antt =====
-- A listener on a bus that has another subscriber, and a buffer of two envelopes.
use penny_core.Prelude.{◌≡◌, refl, [], ◌∷◌, String, mem, remove_first}
use penny_core.Dict
use penny_core.Exec.{ok, err, type_error}
use penny_core.Rings.{append}
use penny_core.Contracts.Json.{text, arr, nil, cons, number, truthy, Payload}
use penny_core.Context.EventBus.{Bus, subscribe, unsubscribe}
use penny_core.Orchestrator.EventListener.{
  append_for, append_event, recent_events, start, stop, new_listener,
}

abbrev envelope : String → Payload
envelope id = ("event_id", text id) ∷ ("tenant_id", text "bank_a") ∷ []

newest_two_events :
    recent_events "bank_a" 20
      (append_event 2
        (envelope "evt_3")
        (append_event 2 (envelope "evt_2") (append_event 2 (envelope "evt_1") []).1).1).1
    ≡ envelope "evt_3" ∷ envelope "evt_2" ∷ []
unfolding recent_events append_event append_for append truthy Dict.get Dict.put
newest_two_events = refl

malformed_envelopes :
    (append_event 2 (("tenant_id", text "") ∷ []) [] ≡ (ok tt, []))
    × (append_event 2 (("tenant_id", arr (cons (number 1) nil)) ∷ []) [] ≡ (err type_error, []))
unfolding append_event append_for truthy Dict.get
malformed_envelopes = (refl, refl)

abbrev bus : Bus
bus = record { published = []; subscribers = 7 ∷ [] }

stop_after_start : stop {H = String} (start 8 "handler" (new_listener, bus)) ≡ (new_listener, bus)
unfolding start stop subscribe unsubscribe mem remove_first
stop_after_start = refl
