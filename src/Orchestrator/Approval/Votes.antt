-- ===== src/Orchestrator/Approval/Votes.antt =====
-- Distinct eligible voters complete a quorum: the row is approved by the last of them and by none
-- before.
use penny_core.Prelude.{
  ℕ, ◌+◌, ◌≤◌, ◌<◌, ◌≡◌, sym, ◌∙◌, ap₂, true, false, String, some, List, [], ◌∷◌, ◌++◌, arith,
  string_eq, eq_iff, leb, mem, length, if◌then◌else◌, append_assoc, append-nil, length-append,
  mem-snoc,
}
use penny_core.Contracts.Policies.{ApprovalRule, ApprovalState, pending, approved}
use penny_core.Orchestrator.Approval.{
  Queue, approve, find, is_pending_state, is_eligible, resolved_rule, record_single,
}
use penny_core.Orchestrator.Approval.Invariant.{IsValid}
use penny_core.Orchestrator.Approval.Preservation.{approve-IsValid}
use penny_core.Orchestrator.Approval.Outcomes.{approve_spec, counted, approve-Refines}

-- Each voter with the time of the vote, in turn.
pub vote_all : String → List (String × ℕ) → Queue → Queue
vote_all a [] q = q
vote_all a ((who, now) ∷ votes) q = vote_all a votes (approve a (some who) now q).1

abbrev pub voters : List (String × ℕ) → List String
voters [] = []
voters ((who, now) ∷ votes) = who ∷ voters votes

-- None of the voters has voted on the row, and each votes once and is eligible.
abbrev pub AreNew : ApprovalRule → List String → Type 0
AreNew rule [] = Unit
AreNew rule (who ∷ more) =
    (mem who rule.approvals ≡ false)
    × (is_eligible rule.eligible_approvers (some who) ≡ true)
    × (mem who more ≡ false)
    × AreNew rule more

module _ (a who : String) (now : ℕ) (q : Queue) (rule : ApprovalRule) (v : IsValid q)
    (stored : find a q ≡ some rule) (waiting : rule.state ≡ pending)
    (new : mem who rule.approvals ≡ false)
    (allowed : is_eligible rule.eligible_approvers (some who) ≡ true) where
  approve_counts : find a (approve a (some who) now q).1 ≡ some (counted who now rule)
  unfolding approve_spec is_pending_state
  approve_counts = ground (arith, approve-Refines a (some who) now q v)

  counted_fields :
      let row = counted who now rule in
      (row.approvals ≡ rule.approvals ++ who ∷ [])
      × (row.required_approvals ≡ rule.required_approvals)
      × (row.eligible_approvers ≡ rule.eligible_approvers)
      × (row.state
          ≡ (if leb rule.required_approvals (length rule.approvals + 1) then approved else pending))
  unfolding counted record_single resolved_rule
  counted_fields = ground (arith, length-append rule.approvals (who ∷ []))

-- A pending row is short of its quorum.
open_tally :
    (a : String) (q : Queue) (rule : ApprovalRule)
    → IsValid q
    → find a q ≡ some rule
    → rule.state ≡ pending
    → length rule.approvals < rule.required_approvals
unfolding find
open_tally a q rule v stored waiting = ground (arith, v.rows_valid a rule stored)

AreNew-counted :
    (rule row : ApprovalRule) (who : String) (more : List String)
    → row.approvals ≡ rule.approvals ++ who ∷ []
    → row.eligible_approvers ≡ rule.eligible_approvers
    → mem who more ≡ false
    → AreNew rule more
    → AreNew row more
unfolding mem
AreNew-counted rule row who [] e p n h = tt
AreNew-counted rule row who (w ∷ more) e p n h = ground (
  arith,
  mem-snoc w who rule.approvals,
  eq_iff w who,
  eq_iff who w,
  AreNew-counted rule row who more e p,
)

abbrev pub state_at : ℕ → ℕ → ApprovalState
state_at required votes = if leb required votes then approved else pending

still_open : (required votes : ℕ) → votes < required → state_at required votes ≡ pending
still_open required votes h = ground arith

-- After votes by new voters, no more than the quorum has seats, the row holds exactly these votes
-- and is approved if and only if they fill the quorum.
pub votes_fill_quorum :
    (a : String) (votes : List (String × ℕ)) (q : Queue) (rule : ApprovalRule)
    → IsValid q
    → find a q ≡ some rule
    → rule.state ≡ pending
    → AreNew rule (voters votes)
    → length rule.approvals + length votes ≤ rule.required_approvals
    → (row : ApprovalRule) × (find a (vote_all a votes q) ≡ some row)
      × (row.approvals ≡ rule.approvals ++ voters votes)
      × (row.state ≡ state_at rule.required_approvals (length rule.approvals + length votes))
unfolding vote_all
votes_fill_quorum a [] q rule v stored waiting new fits =
    let short : length rule.approvals < rule.required_approvals =
      open_tally a q rule v stored waiting in
    (rule, stored, sym (append-nil rule.approvals), ground arith)
votes_fill_quorum a ((who, now) ∷ []) q rule v stored waiting new fits =
    let (votes, required, pool, state) =
      counted_fields a who now q rule v stored waiting new.0 new.1 in
    (
      counted who now rule,
      approve_counts a who now q rule v stored waiting new.0 new.1,
      votes,
      state,
    )
votes_fill_quorum a ((who, now) ∷ w ∷ more) q rule v stored waiting new fits =
    let next : ApprovalRule = counted who now rule in
    let (votes, required, pool, state) =
      counted_fields a who now q rule v stored waiting new.0 new.1 in
    let grown : length next.approvals ≡ length rule.approvals + 1 =
      rw votes (omega (arith, length-append rule.approvals (who ∷ []))) in
    let still : next.state ≡ pending = state ∙ still_open _ _ (omega arith) in
    let (row, found, kept, at) =
      votes_fill_quorum a (w ∷ more) (approve a (some who) now q).1 next
        (approve-IsValid a (some who) now q v)
        (approve_counts a who now q rule v stored waiting new.0 new.1) still
        (AreNew-counted rule next who (voters (w ∷ more)) votes pool new.2 new.3) (omega arith) in
    (
      row,
      found,
      kept ∙ rw votes (append_assoc rule.approvals (who ∷ []) (voters (w ∷ more))),
      at ∙ ap₂ state_at required (omega arith),
    )
