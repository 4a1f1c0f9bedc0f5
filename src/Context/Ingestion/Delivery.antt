-- ===== src/Context/Ingestion/Delivery.antt =====
-- What a delivery of an event does, and what a second one does.
use penny_core.Prelude.{
  ℕ, ◌≡◌, subst, Bool, true, false, String, none, some, snoc, string_eq, pair_eq, ◌⊎◌, inl, inr,
  arith,
}
use penny_core.Dict
use penny_core.Dict.{get-put_self}
use penny_core.Exec.{Exn, Result, ok, Exec}
use penny_core.Contracts.Json.{Payload}
use penny_core.Contracts.Events.{Event}
use penny_core.Context.Repository.{
  Repository, insert_event, get_event_by_id, get_event_by_idempotency,
}
use penny_core.Context.Repository.Replay.{IsIndexed, upsert_event-cases, insert_event-IsIndexed}
use penny_core.Context.EventBus.{Bus, channel_for, envelope_for, fan_out, publish}
use penny_core.Context.Ingestion.{IngestionResult, Service, announce, ingest_event}

module _ {W : Type 0} (isoformat : ℕ → String)
    (call : ℕ → String → Payload → Exec W (Unit {0})) where
  -- What a first delivery leaves: the event is stored, its envelope is published once on its
  -- tenant's channel, and each subscriber has been called with it in turn.
  abbrev pub delivered : Event → Service W → Service W
  delivered event (repo, (bus, w)) = (
    insert_event event repo,
    (
      record bus {
        published = snoc bus.published (channel_for event.tenant_id, envelope_for isoformat event);
      },
      fan_out call bus.subscribers (channel_for event.tenant_id) (envelope_for isoformat event) w,
    ),
  )

  unknown_key :
      (event : Event) (repo : Repository)
      → Dict.get repo.by_idem (event.tenant_id, event.idempotency_key) ≡ none
      → get_event_by_idempotency event.tenant_id event.idempotency_key repo ≡ none
  unfolding get_event_by_idempotency
  unknown_key event repo new = ground (arith, new)

  -- On an indexed repository a delivery never raises. With a new idempotency key it stores the
  -- event, publishes its envelope once and calls each subscriber; with a known key it returns the
  -- event that is stored for that key and changes neither the repository nor the bus nor a
  -- subscriber.
  pub ingest_event_branches :
      (event : Event) (repo : Repository) (bus : Bus) (w : W)
      → IsIndexed repo
      → ((get_event_by_idempotency event.tenant_id event.idempotency_key repo ≡ none)
          × (ingest_event isoformat call event (repo, (bus, w))
              ≡ (ok (record { event = event; created = true }), delivered event (repo, (bus, w)))))
        ⊎ (first : Event) × (get_event_by_idempotency event.tenant_id event.idempotency_key repo
            ≡ some first)
          × (ingest_event isoformat call event (repo, (bus, w))
              ≡ (ok (record { event = first; created = false }), (repo, (bus, w))))
  unfolding ingest_event announce publish
  ingest_event_branches event repo bus w v = elim (upsert_event-cases repo v event) [
    | inl (new, result) ↦ inl (unknown_key event repo new, cc new)
    | inr (first, there, tenant, key, result) ↦ inr (first, there, cc result)
  ]

  delivered-IsIndexed :
      (event : Event) (repo : Repository) (bus : Bus) (w : W)
      → IsIndexed repo
      → get_event_by_id event.tenant_id event.id repo ≡ none
      → IsIndexed (ingest_event isoformat call event (repo, (bus, w))).1.0
  unfolding get_event_by_id
  delivered-IsIndexed event repo bus w v unused = elim (ingest_event_branches event repo bus w v) [
    | inl (new, result) ↦ rw result (insert_event-IsIndexed repo v event unused)
    | inr (first, there, result) ↦ rw result v
  ]

  -- The event that a key leads to after a first delivery.
  known_first :
      (event : Event) (repo : Repository) (bus : Bus) (w : W)
      → get_event_by_idempotency event.tenant_id event.idempotency_key
          (delivered event (repo, (bus, w))).0
        ≡ some event
  unfolding get_event_by_idempotency insert_event
  known_first event repo bus w = ground (
    arith,
    get-put_self repo.by_idem (event.tenant_id, event.idempotency_key) event.id,
    get-put_self repo.by_id (event.tenant_id, event.id) event,
  )

  -- A key that leads to an event already.
  replay_result :
      (again first : Event) (s : Service W)
      → IsIndexed s.0
      → get_event_by_idempotency again.tenant_id again.idempotency_key s.0 ≡ some first
      → ingest_event isoformat call again s ≡ (ok (record { event = first; created = false }), s)
  replay_result again first (repo, (bus, w)) v there =
      elim (ingest_event_branches again repo bus w v) [
        | inl (new, result) ↦ cc (new, there)
        | inr (found, known, result) ↦
            let same : found ≡ first = cc (known, there) in
            subst
              (λ (e : Event).
                ingest_event isoformat call again (repo, (bus, w))
                ≡ (ok (record { event = e; created = false }), (repo, (bus, w))))
              same result
      ]

  -- When an event with an unused id is delivered to an indexed repository and then any event with
  -- the same tenant and idempotency key, the second delivery returns the event that the first one returned, not created, and leaves the
  -- repository, the published messages and everything the subscribers did as they were.
  pub event_redelivery_unchanged :
      (event again : Event) (repo : Repository) (bus : Bus) (w : W)
      → IsIndexed repo
      → get_event_by_id event.tenant_id event.id repo ≡ none
      → event.tenant_id ≡ again.tenant_id
      → event.idempotency_key ≡ again.idempotency_key
      → (first : Event) × (created : Bool) × (after : Service W) × (ingest_event isoformat call
            event
            (repo, (bus, w))
          ≡ (ok (record { event = first; created = created }), after))
        × (ingest_event isoformat call again after
            ≡ (ok (record { event = first; created = false }), after))
  event_redelivery_unchanged event again repo bus w v unused tenant key =
      let indexed = delivered-IsIndexed event repo bus w v unused in
      elim (ingest_event_branches event repo bus w v) [
        | inl (new, result) ↦ (
          event,
          true,
          delivered event (repo, (bus, w)),
          result,
          replay_result again event (delivered event (repo, (bus, w)))
              (subst (λ (r : Result Exn IngestionResult × Service W). IsIndexed r.1.0) result
                indexed)
              (cc (known_first event repo bus w, tenant, key)),
        )
        | inr (first, there, result) ↦ (
          first,
          false,
          (repo, (bus, w)),
          result,
          replay_result again first (repo, (bus, w)) v (cc (there, tenant, key)),
        )
      ]
