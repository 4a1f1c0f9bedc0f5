-- ===== src/Context/Repository/Replay.antt =====
-- The two indexes of the repository agree, and a replay returns the first event.
use penny_core.Prelude.{
  ◌≡◌, ap₂, true, false, String, none, some, string_eq, pair_eq, eq_iff, ◌⊎◌, inl, inr, arith,
  Option-cases,
}
use penny_core.Dict
use penny_core.Dict.{get-put}
use penny_core.Exec.{ok}
use penny_core.Contracts.Events.{Event}
use penny_core.Context.Repository.{
  Repository, empty_repository, insert_event, upsert_event, get_event_by_idempotency,
  get_event_by_id,
}

-- An idempotency key leads to a stored event of its tenant with that key, and every stored event
-- is under its own tenant and id.
pub record IsIndexed (repo : Repository) : Type 0 where
  pub found :
      (t k i : String)
      → Dict.get repo.by_idem (t, k) ≡ some i
      → (e : Event) × (Dict.get repo.by_id (t, i) ≡ some e) × (e.idempotency_key ≡ k)
  pub keyed :
      (t i : String) (e : Event)
      → Dict.get repo.by_id (t, i) ≡ some e
      → (e.tenant_id ≡ t) × (e.id ≡ i)

pub empty_repository-IsIndexed : IsIndexed empty_repository
unfolding Dict.get
empty_repository-IsIndexed = record { found = λ t k i h. cc h; keyed = λ t i e h. cc h }

module _ (repo : Repository) (v : IsIndexed repo) (event : Event)
    (unused : Dict.get repo.by_id (event.tenant_id, event.id) ≡ none) where
  key_from :
      (t k i : String)
      → Dict.get (insert_event event repo).by_idem (t, k) ≡ some i
      → ((event.tenant_id ≡ t) × (event.idempotency_key ≡ k) × (event.id ≡ i))
        ⊎ (Dict.get repo.by_idem (t, k) ≡ some i)
  unfolding insert_event
  key_from t k i h = ground (
    arith,
    get-put repo.by_idem (event.tenant_id, event.idempotency_key) (t, k) event.id,
    eq_iff event.tenant_id t,
    eq_iff event.idempotency_key k,
    h,
  )

  new_there :
      (t i : String)
      → event.tenant_id ≡ t
      → event.id ≡ i
      → Dict.get (insert_event event repo).by_id (t, i) ≡ some event
  unfolding insert_event
  new_there t i tenant id = ground (
    arith,
    get-put repo.by_id (event.tenant_id, event.id) (t, i) event,
    eq_iff event.tenant_id t,
    eq_iff event.id i,
  )

  -- An event that was there is still there.
  pub old_there :
      (t i : String) (e : Event)
      → Dict.get repo.by_id (t, i) ≡ some e
      → Dict.get (insert_event event repo).by_id (t, i) ≡ some e
  unfolding insert_event
  old_there t i e there = ground (
    arith,
    get-put repo.by_id (event.tenant_id, event.id) (t, i) event,
    eq_iff event.tenant_id t,
    eq_iff event.id i,
    ap₂ (λ x y. Dict.get repo.by_id (x, y)),
    unused,
    there,
  )

  pub insert_event-IsIndexed : IsIndexed (insert_event event repo)
  unfolding insert_event
  insert_event-IsIndexed = record {
    found = λ t k i h. elim (key_from t k i h) [
      | inl (tenant, key, id) ↦ (event, new_there t i tenant id, key)
      | inr old ↦ let (e, there, key) = v.found t k i old in (e, old_there t i e there, key)
    ];
    keyed = λ t i e h. ground (
      arith,
      get-put repo.by_id (event.tenant_id, event.id) (t, i) event,
      eq_iff event.tenant_id t,
      eq_iff event.id i,
      v.keyed t i e,
      h,
    );
  }

-- How a call of `upsert_event` ends: a new key stores the event, a known one returns the event
-- that is stored for it and changes nothing. It never raises.
pub upsert_event-cases :
    (repo : Repository) (v : IsIndexed repo) (event : Event)
    → ((Dict.get repo.by_idem (event.tenant_id, event.idempotency_key) ≡ none)
        × (upsert_event event repo ≡ (ok (event, true), insert_event event repo)))
      ⊎ (first : Event) × (get_event_by_idempotency event.tenant_id event.idempotency_key repo
          ≡ some first)
        × (first.tenant_id ≡ event.tenant_id)
        × (first.idempotency_key ≡ event.idempotency_key)
        × (upsert_event event repo ≡ (ok (first, false), repo))
unfolding upsert_event get_event_by_idempotency
upsert_event-cases repo v event =
    elim (Option-cases (Dict.get repo.by_idem (event.tenant_id, event.idempotency_key))) [
      | inl new ↦ inl (new, ground (arith, new))
      | inr (i, known) ↦
          let (first, there, key) = v.found event.tenant_id event.idempotency_key i known in
          inr (
            first,
            ground (arith, known, there),
            (v.keyed event.tenant_id i first there).0,
            key,
            ground (arith, known, there),
          )
    ]

pub upsert_event-IsIndexed :
    (repo : Repository) (event : Event)
    → IsIndexed repo
    → get_event_by_id event.tenant_id event.id repo ≡ none
    → IsIndexed (upsert_event event repo).1
unfolding get_event_by_id
upsert_event-IsIndexed repo event v unused = elim (upsert_event-cases repo v event) [
  | inl (new, result) ↦ rw result (insert_event-IsIndexed repo v event unused)
  | inr (first, there, tenant, key, result) ↦ rw result v
]
