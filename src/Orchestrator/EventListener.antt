-- ===== src/Orchestrator/EventListener.antt =====
-- `RecentEventsBuffer` and `InMemoryEventListener` of orchestrator/event_listener.py. A callback is
-- known to the bus by its identity, which `start` takes as an argument.
mod Tests
use penny_core.Prelude.{
  ℕ, String, Option, none, some, List, [], ◌≡◌, refl, arith, ◌==◌, string_eq, if◌then◌else◌, take,
  reverse, Option-cases, inl, inr,
}
use penny_core.Dict
use penny_core.Exec.{Exec, ok, err, type_error}
use penny_core.Rings.{Ring, append}
use penny_core.Contracts.Json.{Value, text, obj, arr, truthy, Payload}
use penny_core.Context.EventBus.{Bus, subscribe, unsubscribe}

-- What is kept under the envelope's tenant, which is a dict's key. A list or a dict is none. A
-- number or a Boolean is a key that no tenant equals, so that nothing is read from it.
unfoldable pub append_for : ℕ → Value → Payload → Exec (Ring Payload) (Unit {0})
append_for most (text tenant_id) envelope ring = (ok tt, append most tenant_id envelope ring)
append_for most (obj fields) envelope ring = (err type_error, ring)
append_for most (arr items) envelope ring = (err type_error, ring)
append_for most _ envelope ring = (ok tt, ring)

-- `RecentEventsBuffer.append`: an envelope that names no tenant is dropped.
unfoldable pub append_event : ℕ → Payload → Exec (Ring Payload) (Unit {0})
append_event most envelope ring = elim (Dict.get envelope "tenant_id") [
  | none ↦ (ok tt, ring)
  | some tenant_id ↦
      if truthy tenant_id then append_for most tenant_id envelope ring else (ok tt, ring)
]

-- `RecentEventsBuffer.recent` for a limit that is not negative: the newest first.
unfoldable pub recent_events : String → ℕ → Ring Payload → List Payload
recent_events tenant_id limit ring = take limit (reverse (Dict.get_list ring tenant_id))

unfoldable pub clear_events : Ring Payload → Ring Payload
clear_events ring = []

unfoldable pub make_buffered_handler : ℕ → Payload → Exec (Ring Payload) (Unit {0})
make_buffered_handler most envelope = append_event most envelope

-- The listener's fields; the bus is beside it.
pub record Listener (H : Type 0) : Type 0 where
  pub callback : Option ℕ
  pub handler : Option H

module _ {H : Type 0} where
  abbrev pub new_listener : Listener H
  new_listener = record { callback = none; handler = none }

  -- `start`, which does nothing to a listener that is started.
  unfoldable pub start : ℕ → H → Listener H × Bus → Listener H × Bus
  start adapter handler (listener, bus) = elim listener.callback [
    | some cb ↦ (listener, bus)
    | none ↦ (record { callback = some adapter; handler = some handler }, subscribe adapter bus)
  ]

  unfoldable pub stop : Listener H × Bus → Listener H × Bus
  stop (listener, bus) = elim listener.callback [
    | none ↦ (listener, bus)
    | some cb ↦ (record { callback = none; handler = none }, unsubscribe cb bus)
  ]

  -- A listener that is started is not started again, with whatever handler.
  start_idem :
      (a b : ℕ) (g h : H) (listener : Listener H) (bus : Bus)
      → start b h (start a g (listener, bus)) ≡ start a g (listener, bus)
  unfolding start
  start_idem a b g h listener bus = elim (Option-cases listener.callback) [
    | inl p ↦ ground (arith, p)
    | inr (cb, p) ↦ ground (arith, p)
  ]
