-- ===== src/Orchestrator/Quorum.antt =====
-- `QuorumRule` and `QuorumPolicy` of orchestrator/quorum.py.
pub mod Rules
mod Tests
use penny_core.Prelude.{
  ℕ, ◌≡◌, Bool, true, not, ◌&&◌, String, Option, none, some, List, [], ltb, leb, ◌==◌, string_eq,
  pair_eq, get_or, if◌then◌else◌,
}
use penny_core.Dict
use penny_core.Dict.{Dict}
use penny_core.Exec.{
  Exn, Result, ok, err, Exec, pure, lift, modify, raise_if, ◌>>=◌, ◌>>◌, value_error,
}
use penny_core.Contracts.Actions.{ActionType, action_type_eq}
use penny_core.Orchestrator.Approval.{pool_ok}

pub record QuorumRule : Type 0 where
  pub required_approvals : ℕ
  pub eligible_approvers : Option (List String)

-- `_SINGLE_APPROVER`
abbrev pub single_approver : QuorumRule
single_approver = record { required_approvals = 1; eligible_approvers = none }

-- The constructor: `__post_init__` makes the same checks of the pool as `enqueue` does.
unfoldable pub new_quorum_rule : ℕ → Option (List String) → Result Exn QuorumRule
new_quorum_rule required pool =
    if ltb required 1
    then err value_error
    else if not (pool_ok required pool)
    then err value_error
    else ok (record { required_approvals = required; eligible_approvers = pool })

abbrev pub QuorumPolicy : Type 0
QuorumPolicy = Dict (String × ActionType) QuorumRule

unfoldable pub set_rule :
    String → ActionType → ℕ → Option (List String) → Exec QuorumPolicy QuorumRule
unfolding new_quorum_rule
set_rule tenant_id action_type required pool = do
  raise_if (tenant_id == "") value_error
  rule ← lift (new_quorum_rule required pool)
  modify (λ rules. Dict.put rules (tenant_id, action_type) rule)
  pure rule

-- `resolve`
unfoldable pub rule_for : String → ActionType → QuorumPolicy → QuorumRule
rule_for tenant_id action_type rules =
    get_or single_approver (Dict.get rules (tenant_id, action_type))
