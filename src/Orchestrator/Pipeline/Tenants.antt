-- ===== src/Orchestrator/Pipeline/Tenants.antt =====
-- What a caller of one tenant can do with another tenant's actions.
use penny_core.Prelude.{◌≡◌, ◌≢◌, some, String, arith, string_eq, eq_iff, Option-cases, inl, inr}
use penny_core.Dict
use penny_core.Exec.{err, action_not_found}
use penny_core.Contracts.Actions.{Action}
use penny_core.Orchestrator.Pipeline.Store.{get}
use penny_core.Orchestrator.Pipeline.Defs.{Config, Env, Pipeline}
use penny_core.Orchestrator.Pipeline.Methods.{get_action, approve_action, reject_action, foreign}
use penny_core.Orchestrator.Pipeline.Views.{stored}

get_action-missing :
    (a t : String) (s : Pipeline)
    → ((action : Action) → stored a s ≡ some action → action.tenant_id ≢ t)
    → get_action a (some t) s ≡ err action_not_found
unfolding get_action stored get foreign
get_action-missing a t s h = elim (Option-cases (Dict.get s.actions.by_id a)) [
  | inl missing ↦ ground arith
  | inr (action, there) ↦ ground (arith, h action there, eq_iff action.tenant_id t)
]

-- When an id is unknown or names an action of another tenant, reading, approving and rejecting
-- all raise the same ActionNotFoundError, and leave the whole pipeline as it was.
pub foreign_actions_unknown :
    (a t : String) (s : Pipeline)
    → ((action : Action) → stored a s ≡ some action → action.tenant_id ≢ t)
    → (config : Config) (env : Env) (reason by : String)
    → (get_action a (some t) s ≡ err action_not_found)
      × (approve_action config env a by (some t) s ≡ (err action_not_found, s))
      × (reject_action env a reason by (some t) s ≡ (err action_not_found, s))
unfolding approve_action reject_action
foreign_actions_unknown a t s h config env reason by =
    let missing = get_action-missing a t s h in (missing, cc missing, cc missing)
