-- ===== src/Orchestrator/Policy/Resolution.antt =====
-- What the declarative engine decides, in terms of the policies that a tenant last set.
use penny_core.Prelude.{
  ◌≡◌, refl, inl, inr, true, false, String, Option, none, some, List, [], ◌∷◌, arith, ◌==◌,
  string_eq, eq_iff, mem, distinct, if◌then◌else◌,
}
use penny_core.Dict
use penny_core.Dict.{Dict, get-put}
use penny_core.Exec.{Exn, Result, ok, err, unknown_policy_decision, Result-cases}
use penny_core.Contracts.Json.{Value, Payload}
use penny_core.Contracts.Policies.{PolicyDecision, approval_required}
use penny_core.Orchestrator.Policy.Defs.{
  Table, ActionKey, normalize_action_type, decision_of, normalize_table, default_key, wildcard_key,
}
use penny_core.Orchestrator.Policy.Declarative.{Engine, set_policies, decide, lookup_table}

-- A dict has each key once.
abbrev pub keys : Payload → List String
keys [] = []
keys ((k, v) ∷ d) = k ∷ keys d

abbrev pub UniqueKeys : Payload → Type 0
UniqueKeys d = distinct (keys d) ≡ true

abbrev decided : Result Exn PolicyDecision → Option PolicyDecision
decided (ok d) = some d
decided (err x) = none

abbrev entry_decision : Option Value → Option PolicyDecision
entry_decision none = none
entry_decision (some v) = decided (decision_of unknown_policy_decision v)

-- The decision that the policies spell under a key.
unfoldable pub decision_in : Payload → String → Option PolicyDecision
decision_in policies k = entry_decision (Dict.get policies k)

-- The documented order: the action type itself, then `default`, then `*`, then a human.
unfoldable pub resolve : Payload → String → PolicyDecision
resolve policies k = elim (decision_in policies k) [
  | some d ↦ d
  | none ↦ elim (decision_in policies default_key) [
    | some d ↦ d
    | none ↦ elim (decision_in policies wildcard_key) [ some d ↦ d | none ↦ approval_required ]
  ]
]

get_of_not_mem : (d : Payload) (k : String) → mem k (keys d) ≡ false → Dict.get d k ≡ none
unfolding mem Dict.get
get_of_not_mem [] k h = refl
get_of_not_mem ((j, v) ∷ d) k h = ground (arith, get_of_not_mem d k, eq_iff j k, eq_iff k j)

-- An entry that is there, or what the table had before.
abbrev entry_or : Option Value → Option PolicyDecision → Option PolicyDecision
entry_or none old = old
entry_or (some v) old = decided (decision_of unknown_policy_decision v)

get-normalize_table :
    (table : Table) (policies : Payload) (done : Table) (k : String)
    → UniqueKeys policies
    → normalize_table unknown_policy_decision table policies ≡ ok done
    → Dict.get done k ≡ entry_or (Dict.get policies k) (Dict.get table k)
unfolding normalize_table Dict.get distinct
get-normalize_table table [] done k u h = ground arith
get-normalize_table table ((j, v) ∷ policies) done k u h =
    elim (Result-cases (decision_of unknown_policy_decision v)) [
      | inr (x, e) ↦ ground (arith, h, e)
      | inl (d, e) ↦
          let rest : normalize_table unknown_policy_decision (Dict.put table j d) policies
              ≡ ok done =
            rw e at h in
          let ih = get-normalize_table (Dict.put table j d) policies done k in
          ground (arith, u, e, rest, ih, get-put table j k d, get_of_not_mem policies j, eq_iff j k)
    ]

-- Each lookup in the table finds what the policies spell.
get-table :
    (policies : Payload) (table : Table) (k : String)
    → UniqueKeys policies
    → normalize_table unknown_policy_decision [] policies ≡ ok table
    → Dict.get table k ≡ decision_in policies k
unfolding decision_in Dict.get
get-table policies table k u h = ground (arith, get-normalize_table [] policies table k u h)

lookup_table-eq-resolve :
    (policies : Payload) (table : Table) (k : String)
    → UniqueKeys policies
    → normalize_table unknown_policy_decision [] policies ≡ ok table
    → lookup_table k table ≡ resolve policies k
unfolding lookup_table resolve
lookup_table-eq-resolve policies table k u h = ground (
  arith,
  get-table policies table k u h,
  get-table policies table default_key u h,
  get-table policies table wildcard_key u h,
)

-- What a call of `set_policies` leaves, by how it ended.
abbrev pub SetsPolicies : String → Payload → Engine → Result Exn (Unit {0}) × Engine → Type 0
SetsPolicies t policies engine (err x, engine') = engine' ≡ engine
SetsPolicies t policies engine (ok _, engine') =
    (u : String) (k : ActionKey)
    → decide u k engine'
      ≡ (if t == u then resolve policies (normalize_action_type k) else decide u k engine)

-- A call that raises changes no tenant's decisions. After one that returns, the tenant's decisions
-- are those of the policies that it set, in the documented order, and no other tenant's decision
-- changes.
pub set_policies-SetsPolicies :
    (t : String) (policies : Payload) (engine : Engine)
    → UniqueKeys policies
    → SetsPolicies t policies engine (set_policies t policies engine)
unfolding set_policies decide
set_policies-SetsPolicies t policies engine unique =
    elim (Result-cases (normalize_table unknown_policy_decision [] policies)) [
      | inr (x, e) ↦ ground (arith, e)
      | inl (table, e) ↦
          let in_force : (u : String) (k : ActionKey)
              → decide u k (Dict.put engine t table) ≡ (
                  if t == u
                  then resolve policies (normalize_action_type k)
                  else decide u k engine) =
            λ u k. ground (
              arith,
              get-put engine t u table,
              lookup_table-eq-resolve policies table (normalize_action_type k) unique e,
            ) in
          ground (arith, e, in_force)
    ]
