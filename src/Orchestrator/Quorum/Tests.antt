-- ===== src/Orchestrator/Quorum/Tests.antt =====
-- A tenant asks for two of three reviewers, and the other action types keep one approver.
use penny_core.Prelude.{◌≡◌, refl, some, [], ◌∷◌, distinct, mem, string_eq}
use penny_core.Exec.{ok}
use penny_core.Contracts.Actions.{schedule_call}
use penny_core.Orchestrator.Approval.{pool_ok}
use penny_core.Orchestrator.Quorum.{QuorumRule, set_rule}
use penny_core.Orchestrator.Quorum.Rules.{Sets, set_rule-Sets}

abbrev two_of_three : QuorumRule
two_of_three = record {
  required_approvals = 2;
  eligible_approvers = some ("ann" ∷ "bob" ∷ "cyd" ∷ []);
}

two_of_three_set :
    (set_rule "bank_a" schedule_call 2 (some ("ann" ∷ "bob" ∷ "cyd" ∷ [])) []).0 ≡ ok two_of_three
unfolding set_rule pool_ok distinct mem
two_of_three_set = refl

set_rule-Sets_example :
    Sets "bank_a" schedule_call two_of_three []
      (set_rule "bank_a" schedule_call 2 (some ("ann" ∷ "bob" ∷ "cyd" ∷ [])) [])
set_rule-Sets_example =
    set_rule-Sets "bank_a" schedule_call 2 (some ("ann" ∷ "bob" ∷ "cyd" ∷ [])) []
