-- ===== src/Orchestrator/Policy/Agreement.antt =====
-- The rules engine and the declarative engine decide alike after the same configuration.
use penny_core.Prelude.{
  ◌≡◌, refl, ◌⊎◌, inl, inr, String, Option, none, some, List, [], ◌∷◌, arith, string_eq,
  Option-cases,
}
use penny_core.Dict
use penny_core.Dict.{Dict, get-put}
use penny_core.Exec.{Exn, Result, ok, err, unknown_policy_decision, value_error}
use penny_core.Contracts.Json.{Value, text, Payload}
use penny_core.Orchestrator.Policy.Defs.{
  Table, ActionKey, normalize_action_type, normalize_decision, decision_of, normalize_table,
}
use penny_core.Orchestrator.Policy.Declarative
use penny_core.Orchestrator.Policy.Declarative.{lookup_table}
use penny_core.Orchestrator.Policy.PythonRules
use penny_core.Orchestrator.Policy.PythonRules.{TenantHandler, compile_handler, empty_engine}

-- A history of calls of `set_policies`; one that raises leaves the engine as it was.
pub configure : List (String × Payload) → Declarative.Engine → Declarative.Engine
configure [] engine = engine
configure ((t, policies) ∷ more) engine =
    configure more (Declarative.set_policies t policies engine).1

pub configure_rules : List (String × Payload) → PythonRules.Engine → PythonRules.Engine
configure_rules [] engine = engine
configure_rules ((t, policies) ∷ more) engine =
    configure_rules more (PythonRules.set_policies t policies engine).1

compiled-eq-lookup :
    (table : Table) (key : String) (context : Option Payload)
    → compile_handler table key context ≡ lookup_table key table
unfolding compile_handler lookup_table
compiled-eq-lookup table key context = ground arith

-- The two engines name different exceptions for a non-string, and accept the same policies.
abbrev SameOutcome : {A : Type 0} → Result Exn A → Result Exn A → Type 0
SameOutcome {A} r s =
    ((a : A) × (r ≡ ok a) × (s ≡ ok a)) ⊎ ((x : Exn) × (y : Exn) × (r ≡ err x) × (s ≡ err y))

SameOutcome-refl : {A : Type 0} (r : Result Exn A) → SameOutcome r r
SameOutcome-refl (ok a) = inl (a, refl, refl)
SameOutcome-refl (err x) = inr (x, x, refl, refl)

decision_of-SameOutcome :
    (v : Value) → SameOutcome (decision_of unknown_policy_decision v) (decision_of value_error v)
unfolding decision_of
decision_of-SameOutcome (text s) = SameOutcome-refl (normalize_decision s)
decision_of-SameOutcome _ = inr (unknown_policy_decision, value_error, refl, refl)

normalize_table-SameOutcome :
    (table : Table) (policies : Payload)
    → SameOutcome
        (normalize_table unknown_policy_decision table policies)
        (normalize_table value_error table policies)
unfolding normalize_table
normalize_table-SameOutcome table [] = inl (table, refl, refl)
normalize_table-SameOutcome table ((k, v) ∷ policies) = elim (decision_of-SameOutcome v) [
  | inr (x, y, p, q) ↦ inr (x, y, rw p, rw q)
  | inl (d, p, q) ↦ rw (p, q) (normalize_table-SameOutcome (Dict.put table k d) policies)
]

abbrev handler_of : Option Table → Option TenantHandler
handler_of none = none
handler_of (some table) = some (compile_handler table)

record Agrees (engine : Declarative.Engine) (rules : PythonRules.Engine) : Type 0 where
  at : (t : String) → Dict.get rules.handlers t ≡ handler_of (Dict.get engine t)

set_policies-Agrees :
    (t : String) (policies : Payload) (engine : Declarative.Engine) (rules : PythonRules.Engine)
    → Agrees engine rules
    → Agrees
        (Declarative.set_policies t policies engine).1
        (PythonRules.set_policies t policies rules).1
unfolding Declarative.set_policies PythonRules.set_policies
set_policies-Agrees t policies engine rules v = elim (normalize_table-SameOutcome [] policies) [
  | inr (x, y, p, q) ↦ record { at = λ u. ground (arith, p, q, v.at u) }
  | inl (table, p, q) ↦ record {
    at = λ u. ground (
      arith,
      p,
      q,
      v.at u,
      get-put engine t u table,
      get-put rules.handlers t u (compile_handler table),
    );
  }
]

configure-Agrees :
    (history : List (String × Payload)) (engine : Declarative.Engine) (rules : PythonRules.Engine)
    → Agrees engine rules
    → Agrees (configure history engine) (configure_rules history rules)
unfolding configure configure_rules
configure-Agrees [] engine rules v = v
configure-Agrees ((t, policies) ∷ more) engine rules v =
    configure-Agrees more (Declarative.set_policies t policies engine).1
      (PythonRules.set_policies t policies rules).1 (set_policies-Agrees t policies engine rules v)

empty-Agrees : Agrees [] empty_engine
unfolding Dict.get
empty-Agrees = record { at = λ t. refl }

-- Whatever tenants were configured, and with whatever policies, valid or not, both engines give
-- the same decision for every tenant, action type and event context.
pub engines_agree :
    (history : List (String × Payload)) (t : String) (k : ActionKey) (context : Option Payload)
    → PythonRules.decide t k context (configure_rules history empty_engine)
      ≡ Declarative.decide t k (configure history [])
unfolding PythonRules.decide Declarative.decide
engines_agree history t k context =
    let v = configure-Agrees history [] empty_engine empty-Agrees in
    elim (Option-cases (Dict.get (configure history []) t)) [
      | inl unset ↦ ground (arith, unset, v.at t)
      | inr (table, found) ↦
          ground (arith, found, v.at t, compiled-eq-lookup table (normalize_action_type k) context)
    ]
