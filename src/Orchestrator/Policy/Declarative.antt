-- ===== src/Orchestrator/Policy/Declarative.antt =====
-- `DeclarativePolicyEngine` of orchestrator/policy/declarative.py.
use penny_core.Prelude.{String, List, none, some, [], ◌==◌, string_eq, get_or, map}
use penny_core.Dict
use penny_core.Dict.{Dict}
use penny_core.Exec.{
  Exec, lift, modify, raise_if, ◌>>=◌, ◌>>◌, value_error, unknown_policy_decision,
}
use penny_core.Contracts.Json.{Payload}
use penny_core.Contracts.Policies.{PolicyDecision, approval_required}
use penny_core.Orchestrator.Policy.Defs.{
  Table, ActionKey, normalize_action_type, normalize_table, default_key, wildcard_key, shown_table,
  sorted,
}

abbrev pub Engine : Type 0
Engine = Dict String Table

unfoldable pub set_policies : String → Payload → Exec Engine (Unit {0})
set_policies tenant_id policies = do
  raise_if (tenant_id == "") value_error
  table ← lift (normalize_table unknown_policy_decision [] policies)
  modify (λ engine. Dict.put engine tenant_id table)

-- The lookups in a table that is there: the key, then `default`, then `*`.
unfoldable pub lookup_table : String → Table → PolicyDecision
lookup_table key table = elim (Dict.get table key) [
  | some d ↦ d
  | none ↦ elim (Dict.get table default_key) [
    | some d ↦ d
    | none ↦ elim (Dict.get table wildcard_key) [ some d ↦ d | none ↦ approval_required ]
  ]
]

unfoldable pub decide : String → ActionKey → Engine → PolicyDecision
unfolding lookup_table
decide tenant_id action_type engine = elim (Dict.get engine tenant_id) [
  | none ↦ approval_required
  | some table ↦ lookup_table (normalize_action_type action_type) table
]

-- `policies_for`: the table with its decisions as strings.
unfoldable pub policies_for : String → Engine → Dict String String
policies_for tenant_id engine = shown_table (get_or [] (Dict.get engine tenant_id))

unfoldable pub tenants : Engine → List String
tenants engine = sorted (map (λ (e : String × Table). e.0) engine)

unfoldable pub clear : Engine → Engine
clear engine = []
