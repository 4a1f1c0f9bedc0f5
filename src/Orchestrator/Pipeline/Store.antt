-- ===== src/Orchestrator/Pipeline/Store.antt =====
-- `InMemoryActionStore` of orchestrator/decision_pipeline.py.
use penny_core.Prelude.{String, none, some, List, [], ◌∷◌, string_eq, if◌then◌else◌}
use penny_core.Dict
use penny_core.Dict.{Dict}
use penny_core.Exec.{Exn, Result, ok, err, action_not_found}
use penny_core.Contracts.Actions.{Action}

pub record ActionStore : Type 0 where
  pub by_id : Dict String Action
  pub by_tenant : Dict String (List String)

-- `put`: the tenant's list takes an id once.
unfoldable pub put : Action → ActionStore → ActionStore
put action store = record {
  by_id = Dict.put store.by_id action.id action;
  by_tenant =
      if Dict.contains store.by_id action.id
      then store.by_tenant
      else Dict.push store.by_tenant action.tenant_id action.id;
}

unfoldable pub get : String → ActionStore → Result Exn Action
get action_id store = elim (Dict.get store.by_id action_id) [
  | none ↦ err action_not_found
  | some action ↦ ok action
]

-- `[by_id[a] for a in ids if a in by_id]`
unfoldable pub present : Dict String Action → List String → List Action
present by_id [] = []
present by_id (a ∷ ids) =
    let rest = present by_id ids in
    elim (Dict.get by_id a) [ none ↦ rest | some action ↦ action ∷ rest ]

unfoldable pub list_for_tenant : String → ActionStore → List Action
unfolding present
list_for_tenant tenant_id store = present store.by_id (Dict.get_list store.by_tenant tenant_id)
