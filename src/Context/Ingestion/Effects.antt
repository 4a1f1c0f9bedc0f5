-- ===== src/Context/Ingestion/Effects.antt =====
-- What a delivery changes, as the readers of the repository and the subscribers see it.
use mathlib.Core.List.{foldl}
use penny_core.Prelude.{
  ℕ, ◌≡◌, refl, String, true, false, none, some, List, [], ◌∷◌, snoc, string_eq, pair_eq, eq_iff,
  ◌⊎◌, inl, inr, arith, ◌==◌, ◌&&◌, if◌then◌else◌, Option-cases,
}
use penny_core.Dict
use penny_core.Dict.{get-put, get-put_self}
use penny_core.Exec.{ok, Exec}
use penny_core.Contracts.Json.{Payload}
use penny_core.Contracts.Events.{Event}
use penny_core.Context.Repository.{
  Repository, insert_event, get_event_by_id, get_event_by_idempotency,
}
use penny_core.Context.Repository.Replay.{IsIndexed, old_there}
use penny_core.Context.EventBus.{channel_for, envelope_for, fan_out}
use penny_core.Context.Ingestion.{Service, ingest_event}
use penny_core.Context.Ingestion.Delivery.{ingest_event_branches}

module _ (event : Event) (repo : Repository) where
  -- The readers find the event under its id and its key, and all else as before.
  pub record Adds (after : Repository) : Type 0 where
    pub by_id :
        (t i : String)
        → get_event_by_id t i after
          ≡ (if event.tenant_id == t && event.id == i then some event else get_event_by_id t i repo)
    pub by_key :
        (t k : String)
        → get_event_by_idempotency t k after ≡ (
            if event.tenant_id == t && event.idempotency_key == k
            then some event
            else get_event_by_idempotency t k repo)

  module _ (v : IsIndexed repo)
      (unused : get_event_by_id event.tenant_id event.id repo ≡ none) where
    insert_event-by_key :
        (t k : String)
        → get_event_by_idempotency t k (insert_event event repo) ≡ (
            if event.tenant_id == t && event.idempotency_key == k
            then some event
            else get_event_by_idempotency t k repo)
    unfolding get_event_by_idempotency get_event_by_id insert_event
    insert_event-by_key t k =
        let keys = get-put repo.by_idem (event.tenant_id, event.idempotency_key) (t, k) event.id in
        let own = get-put_self repo.by_id (event.tenant_id, event.id) event in
        elim (Option-cases (Dict.get repo.by_idem (t, k))) [
          | inl free ↦ ground (arith, keys, own, free, eq_iff event.tenant_id t)
          | inr (i, known) ↦
              let (e, there, _) = v.found t k i known in
              ground (
                arith,
                keys,
                own,
                known,
                there,
                old_there repo v event unused t i e there,
                eq_iff event.tenant_id t,
              )
        ]

    insert_event-Adds : Adds (insert_event event repo)
    unfolding get_event_by_id insert_event
    insert_event-Adds = record {
      by_id = λ t i. get-put repo.by_id (event.tenant_id, event.id) (t, i) event;
      by_key = insert_event-by_key;
    }

module _ {W : Type 0} (isoformat : ℕ → String)
    (call : ℕ → String → Payload → Exec W (Unit {0})) where
  fan_out-foldl :
      (callbacks : List ℕ) (channel : String) (payload : Payload) (w : W)
      → fan_out call callbacks channel payload w
        ≡ foldl (λ (s : W) (cb : ℕ). (call cb channel payload s).1) w callbacks
  unfolding fan_out
  fan_out-foldl [] channel payload w = refl
  fan_out-foldl (cb ∷ callbacks) channel payload w =
      fan_out-foldl callbacks channel payload (call cb channel payload w).1

  -- What a first delivery leaves, where `envelope` was published on `channel`.
  pub record Announces (event : Event) (before after : Service W) : Type 0 where
    pub stored : Adds event before.0 after.0
    pub published :
        after.1.0.published
        ≡ snoc before.1.0.published (channel_for event.tenant_id, envelope_for isoformat event)
    pub subscribers : after.1.0.subscribers ≡ before.1.0.subscribers
    pub called :
        after.1.1
        ≡ foldl
            (λ (s : W) (cb : ℕ).
              (call cb (channel_for event.tenant_id) (envelope_for isoformat event) s).1)
            before.1.1
            before.1.0.subscribers

  -- On an indexed repository whose tenant has not used the event's id, a delivery never raises.
  -- With a new idempotency key it returns the event as created, which the readers then find under
  -- its id and its key while every other lookup is as it was; its envelope is published once, at
  -- the end, on its tenant's channel, and each subscriber is called with it, in their order and
  -- whatever the others raise. With a known key it returns the event that is stored for that key
  -- and changes neither the repository nor the bus nor a subscriber.
  pub ingest_event-cases :
      (event : Event) (s : Service W)
      → IsIndexed s.0
      → get_event_by_id event.tenant_id event.id s.0 ≡ none
      → ((get_event_by_idempotency event.tenant_id event.idempotency_key s.0 ≡ none)
          × (after : Service W) × (ingest_event isoformat call event s
              ≡ (ok (record { event = event; created = true }), after))
          × Announces event s after)
        ⊎ (first : Event) × (get_event_by_idempotency event.tenant_id event.idempotency_key s.0
            ≡ some first)
          × (ingest_event isoformat call event s
              ≡ (ok (record { event = first; created = false }), s))
  ingest_event-cases event (repo, (bus, w)) v unused =
      let channel = channel_for event.tenant_id in
      let envelope = envelope_for isoformat event in
      elim (ingest_event_branches isoformat call event repo bus w v) [
        | inr old ↦ inr old
        | inl (new, result) ↦ inl (
          new,
          (
            insert_event event repo,
            (
              record bus { published = snoc bus.published (channel, envelope) },
              fan_out call bus.subscribers channel envelope w,
            ),
          ),
          result,
          record {
            stored = insert_event-Adds event repo v unused;
            published = refl;
            subscribers = refl;
            called = fan_out-foldl bus.subscribers channel envelope w;
          },
        )
      ]
