-- ===== src/Context/Repository.antt =====
-- `InMemoryEventRepository` of context_engine/repository.py.
pub mod Replay
use penny_core.Prelude.{
  ℕ, Bool, true, false, String, Option, none, some, List, [], ◌==◌, string_eq, pair_eq, length,
  select,
}
use penny_core.Dict
use penny_core.Dict.{Dict}
use penny_core.Exec.{Exn, Result, ok, err, Exec, key_error}
use penny_core.Contracts.Events.{Event}

pub record Repository : Type 0 where
  pub by_id : Dict (String × String) Event
  pub by_idem : Dict (String × String) String

-- `InMemoryEventRepository()`, and what `clear` leaves.
abbrev pub empty_repository : Repository
empty_repository = record { by_id = []; by_idem = [] }

-- A new event in both indexes.
unfoldable pub insert_event : Event → Repository → Repository
insert_event event repo = record {
  by_id = Dict.put repo.by_id (event.tenant_id, event.id) event;
  by_idem = Dict.put repo.by_idem (event.tenant_id, event.idempotency_key) event.id;
}

-- The stored event and whether it is new; a replay whose event is missing would be a KeyError.
unfoldable pub upsert_event : Event → Exec Repository (Event × Bool)
unfolding insert_event
upsert_event event repo = elim (Dict.get repo.by_idem (event.tenant_id, event.idempotency_key)) [
  | none ↦ (ok (event, true), insert_event event repo)
  | some existing ↦ elim (Dict.get repo.by_id (event.tenant_id, existing)) [
    | none ↦ (err key_error, repo)
    | some stored ↦ (ok (stored, false), repo)
  ]
]

unfoldable pub get_event_by_idempotency : String → String → Repository → Option Event
get_event_by_idempotency tenant_id idempotency_key repo =
    elim (Dict.get repo.by_idem (tenant_id, idempotency_key)) [
      | none ↦ none
      | some event_id ↦ Dict.get repo.by_id (tenant_id, event_id)
    ]

unfoldable pub get_event_by_id : String → String → Repository → Option Event
get_event_by_id tenant_id event_id repo = Dict.get repo.by_id (tenant_id, event_id)

-- `count`; without a tenant it counts all events.
unfoldable pub count_events : Option String → Repository → ℕ
count_events none repo = length repo.by_id
count_events (some tenant_id) repo =
    length (select (λ (e : (String × String) × Event). e.0.0 == tenant_id) repo.by_id)
