-- ===== src/Orchestrator/Quorum/Rules.antt =====
-- A configured rule is in force for its tenant and action type alone, and every rule that is
-- handed out can arm a queue row.
use penny_core.Prelude.{
  ℕ, ◌≤◌, ◌≡◌, true, String, Option, some, List, arith, inl, inr, Option-cases, ◌&&◌, ◌==◌,
  string_eq, pair_eq, if◌then◌else◌,
}
use penny_core.Dict
use penny_core.Dict.{get-put}
use penny_core.Exec.{Exn, Result, ok, err}
use penny_core.Contracts.Actions.{ActionType, action_type_eq, action_type_beq}
use penny_core.Orchestrator.Approval.{pool_ok}
use penny_core.Orchestrator.Quorum.{QuorumRule, QuorumPolicy, set_rule, rule_for, single_approver}

-- What `enqueue` asks of the quorum that it is given.
pub record CanArm (rule : QuorumRule) : Type 0 where
  pub positive : 1 ≤ rule.required_approvals
  pub pool_fits : pool_ok rule.required_approvals rule.eligible_approvers ≡ true

pub record IsValid (rules : QuorumPolicy) : Type 0 where
  pub can_arm :
      (t : String) (k : ActionType) (rule : QuorumRule)
      → Dict.get rules (t, k) ≡ some rule
      → CanArm rule

single_approver-CanArm : CanArm single_approver
unfolding pool_ok
single_approver-CanArm = ground arith

-- The quorum that the pipeline reads passes the checks that the queue makes of it.
pub rule_for-CanArm :
    (t : String) (k : ActionType) (rules : QuorumPolicy)
    → IsValid rules
    → CanArm (rule_for t k rules)
unfolding rule_for
rule_for-CanArm t k rules v = elim (Option-cases (Dict.get rules (t, k))) [
  | inl unset ↦ rw unset single_approver-CanArm
  | inr (rule, e) ↦ rw e (v.can_arm t k rule e)
]

pub set_rule-IsValid :
    (t : String) (k : ActionType) (required : ℕ) (pool : Option (List String))
    (rules : QuorumPolicy)
    → IsValid rules
    → IsValid (set_rule t k required pool rules).1
unfolding set_rule
set_rule-IsValid t k required pool rules v = record {
  can_arm = λ u j rule h. ground (
    arith,
    get-put rules (t, k) (u, j)
        (record { required_approvals = required; eligible_approvers = pool }),
    v.can_arm u j rule,
    h,
  );
}

-- What a call of `set_rule` leaves, by how it ended.
abbrev pub Sets :
    String → ActionType → QuorumRule → QuorumPolicy → Result Exn QuorumRule × QuorumPolicy → Type 0
Sets t k wanted rules (err x, rules') = rules' ≡ rules
Sets t k wanted rules (ok rule, rules') =
    (rule ≡ wanted)
    × ((u : String) (j : ActionType)
        → rule_for u j rules'
          ≡ (if t == u && action_type_beq k j then wanted else rule_for u j rules))

-- A call that returns puts its rule in force for that tenant and action type and leaves every
-- other pair as it was; a call that raises changes no rule.
pub set_rule-Sets :
    (t : String) (k : ActionType) (required : ℕ) (pool : Option (List String))
    (rules : QuorumPolicy)
    → Sets t k
        (record { required_approvals = required; eligible_approvers = pool })
        rules
        (set_rule t k required pool rules)
unfolding set_rule rule_for
set_rule-Sets t k required pool rules =
    let wanted : QuorumRule = record { required_approvals = required; eligible_approvers = pool } in
    let in_force : (u : String) (j : ActionType)
        → rule_for u j (Dict.put rules (t, k) wanted)
          ≡ (if t == u && action_type_beq k j then wanted else rule_for u j rules) =
      λ u j. ground (arith, get-put rules (t, k) (u, j) wanted) in
    ground (arith, in_force)
