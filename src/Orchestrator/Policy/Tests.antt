-- ===== src/Orchestrator/Policy/Tests.antt =====
-- A tenant's policies, with a default and one entry that acts alone.
use penny_core.Dict
use penny_core.Contracts.Policies.{reject, decision_value}
use penny_core.Prelude.{◌≡◌, refl, String, map, none, [], ◌∷◌, mem, distinct, string_eq}
use penny_core.Contracts.Json.{text, Payload}
use penny_core.Contracts.Actions.{schedule_call}
use penny_core.Orchestrator.Policy.{enum, Table, sorted, insert_text, shown_table}
use penny_core.Orchestrator.Policy.Declarative
use penny_core.Orchestrator.Policy.PythonRules
use penny_core.Orchestrator.Policy.PythonRules.{empty_engine}
use penny_core.Orchestrator.Policy.Resolution.{UniqueKeys, SetsPolicies, set_policies-SetsPolicies}
use penny_core.Orchestrator.Policy.Agreement.{configure, configure_rules, engines_agree}

abbrev policies : Payload
policies = ("schedule_call", text "auto") ∷ ("default", text "approval_required") ∷ []

unique : UniqueKeys policies
unfolding mem distinct
unique = refl

set_policies-SetsPolicies_example :
    SetsPolicies "bank_a" policies [] (Declarative.set_policies "bank_a" policies [])
set_policies-SetsPolicies_example = set_policies-SetsPolicies "bank_a" policies [] unique

engines_agree_example :
    PythonRules.decide "bank_a"
      (enum schedule_call)
      none
      (configure_rules (("bank_a", policies) ∷ []) empty_engine)
    ≡ Declarative.decide "bank_a" (enum schedule_call) (configure (("bank_a", policies) ∷ []) [])
engines_agree_example = engines_agree (("bank_a", policies) ∷ []) "bank_a" (enum schedule_call) none

abbrev some_tables : Declarative.Engine
some_tables = ("bank_b", []) ∷ ("bank_a1", []) ∷ ("bank_a", ("*", reject) ∷ []) ∷ []

tenants_are_sorted : Declarative.tenants some_tables ≡ "bank_a" ∷ "bank_a1" ∷ "bank_b" ∷ []
unfolding Declarative.tenants sorted insert_text
tenants_are_sorted = refl

tables_are_shown : Declarative.policies_for "bank_a" some_tables ≡ ("*", "reject") ∷ []
unfolding Declarative.policies_for shown_table Dict.get decision_value
tables_are_shown = refl

abbrev some_rules : PythonRules.Engine
some_rules = record {
  handlers = map (λ (e : String × Table). (e.0, PythonRules.compile_handler e.1)) some_tables;
  raw_tables = some_tables;
}

rules_introspection :
    (PythonRules.tenants some_rules ≡ "bank_a" ∷ "bank_a1" ∷ "bank_b" ∷ [])
    × (PythonRules.policies_for "bank_a" some_rules ≡ ("*", "reject") ∷ [])
unfolding PythonRules.tenants PythonRules.policies_for sorted insert_text shown_table Dict.get
    decision_value
rules_introspection = (refl, refl)

cleared_engines_know_no_tenant :
    (Declarative.tenants (Declarative.clear some_tables) ≡ [])
    × (PythonRules.tenants (PythonRules.clear some_rules) ≡ [])
    × (PythonRules.policies_for "bank_a" (PythonRules.clear some_rules) ≡ [])
unfolding Declarative.tenants Declarative.clear PythonRules.policies_for PythonRules.clear
    PythonRules.tenants sorted shown_table Dict.get
cleared_engines_know_no_tenant = (refl, refl, refl)
