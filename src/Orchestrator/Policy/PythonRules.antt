-- ===== src/Orchestrator/Policy/PythonRules.antt =====
-- `PythonRulesPolicyEngine` of orchestrator/policy/python_rules.py: a tenant's rules are a function
-- that closes over the table.
use penny_core.Prelude.{
  String, List, map, Option, none, some, [], ◌==◌, string_eq, if◌then◌else◌, get_or,
}
use penny_core.Dict
use penny_core.Dict.{Dict}
use penny_core.Exec.{Exec, lift, modify, raise_if, ◌>>=◌, ◌>>◌, value_error}
use penny_core.Contracts.Json.{Payload}
use penny_core.Contracts.Policies.{PolicyDecision, approval_required}
use penny_core.Orchestrator.Policy.Defs.{
  Table, ActionKey, normalize_action_type, normalize_table, default_key, wildcard_key, shown_table,
  sorted,
}

abbrev pub TenantHandler : Type 0
TenantHandler = String → Option Payload → PolicyDecision

pub record Engine : Type 0 where
  pub handlers : Dict String TenantHandler
  pub raw_tables : Dict String Table

abbrev pub empty_engine : Engine
empty_engine = record { handlers = []; raw_tables = [] }

-- `d[k]` behind the test `k in d`; the default is never read there.
abbrev at : Table → String → PolicyDecision
at table k = get_or approval_required (Dict.get table k)

-- The closure `handler`, which drops the event context.
unfoldable pub compile_handler : Table → TenantHandler
compile_handler normalized action_type event_context =
    if Dict.contains normalized action_type
    then at normalized action_type
    else if Dict.contains normalized default_key
    then at normalized default_key
    else if Dict.contains normalized wildcard_key
    then at normalized wildcard_key
    else approval_required

unfoldable pub set_policies : String → Payload → Exec Engine (Unit {0})
set_policies tenant_id policies = do
  raise_if (tenant_id == "") value_error
  normalized ← lift (normalize_table value_error [] policies)
  modify (λ engine. record {
    handlers = Dict.put engine.handlers tenant_id (compile_handler normalized);
    raw_tables = Dict.put engine.raw_tables tenant_id normalized;
  })

unfoldable pub decide : String → ActionKey → Option Payload → Engine → PolicyDecision
decide tenant_id action_type event_context engine = elim (Dict.get engine.handlers tenant_id) [
  | none ↦ approval_required
  | some handler ↦ handler (normalize_action_type action_type) event_context
]

unfoldable pub policies_for : String → Engine → Dict String String
policies_for tenant_id engine = shown_table (get_or [] (Dict.get engine.raw_tables tenant_id))

unfoldable pub tenants : Engine → List String
tenants engine = sorted (map (λ (e : String × TenantHandler). e.0) engine.handlers)

unfoldable pub clear : Engine → Engine
clear engine = empty_engine
