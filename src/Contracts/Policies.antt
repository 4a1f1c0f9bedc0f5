-- ===== src/Contracts/Policies.antt =====
-- contracts/policies.py
use penny_core.Prelude.{ℕ, ◌-◌, String, Option, List, length}

pub data PolicyDecision : Type 0 where
  auto approval_required reject : PolicyDecision

-- `PolicyDecision.value`
unfoldable pub decision_value : PolicyDecision → String
decision_value auto = "auto"
decision_value approval_required = "approval_required"
decision_value reject = "reject"

-- The values that `ApprovalRule.state` is validated against.
pub data ApprovalState : Type 0 where
  pending approved rejected expired : ApprovalState

pub record ApprovalRule : Type 0 where
  pub id : String
  pub tenant_id : String
  pub action_id : String
  pub state : ApprovalState
  pub assigned_to : Option String
  pub required_approvals : ℕ
  pub eligible_approvers : Option (List String)
  pub approvals : List String
  pub enqueued_at : ℕ
  pub decided_at : Option ℕ
  pub decided_by : Option String
  pub decision_note : Option String
  pub row_version : ℕ

-- `max(0, required - len(approvals))`: subtraction on ℕ stops at 0.
unfoldable pub approvals_remaining : ApprovalRule → ℕ
approvals_remaining rule = rule.required_approvals - length rule.approvals
