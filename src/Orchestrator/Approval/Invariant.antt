-- ===== src/Orchestrator/Approval/Invariant.antt =====
-- The invariant of the queue: what every row satisfies, and that the tenants' lists index exactly
-- the pending rows.
use penny_core.Prelude.{
  ℕ, ◌≤◌, ◌<◌, ◌≡◌, ◌⊎◌, Bool, true, false, ◌&&◌, String, Option, none, some, List, [], ◌∷◌, ◌==◌,
  string_eq, mem, distinct, length,
}
use penny_core.Dict
use penny_core.Dict.{Dict}
use penny_core.Contracts.Policies.{
  ApprovalRule, ApprovalState, pending, approved, rejected, expired,
}
use penny_core.Orchestrator.Approval.{Queue, pool_ok, is_pending_state, is_eligible}

-- Every voter of the list may vote.
unfoldable pub all_eligible : Option (List String) → List String → Bool
unfolding is_eligible
all_eligible pool [] = true
all_eligible pool (who ∷ votes) = is_eligible pool (some who) && all_eligible pool votes

-- How the number of votes stands to the quorum in each state. No row expires.
abbrev pub Tally : ApprovalState → ℕ → ℕ → Type 0
Tally pending required votes = votes < required
Tally approved required votes = (required ≤ 1) ⊎ (votes ≡ required)
Tally rejected required votes = votes < required
Tally expired required votes = ⊥

pub record IsValidRow (rule : ApprovalRule) : Type 0 where
  pub pool_fits : pool_ok rule.required_approvals rule.eligible_approvers ≡ true
  pub voters_distinct : distinct rule.approvals ≡ true
  pub voters_eligible : all_eligible rule.eligible_approvers rule.approvals ≡ true
  pub tally : Tally rule.state rule.required_approvals (length rule.approvals)

-- Whether the tenant's list should hold the row.
unfoldable pub waits_for : String → Option ApprovalRule → Bool
unfolding is_pending_state
waits_for tenant_id none = false
waits_for tenant_id (some rule) = rule.tenant_id == tenant_id && is_pending_state rule.state

pub record IsValid (q : Queue) : Type 0 where
  pub keyed :
      (a : String) (rule : ApprovalRule) → Dict.get q.by_id a ≡ some rule → rule.action_id ≡ a
  pub rows_valid :
      (a : String) (rule : ApprovalRule) → Dict.get q.by_id a ≡ some rule → IsValidRow rule
  pub indexed :
      (t a : String)
      → mem a (Dict.get_list q.pending_by_tenant t) ≡ waits_for t (Dict.get q.by_id a)
  pub once : (t : String) → distinct (Dict.get_list q.pending_by_tenant t) ≡ true
