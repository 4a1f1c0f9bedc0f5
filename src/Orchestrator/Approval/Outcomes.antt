-- ===== src/Orchestrator/Approval/Outcomes.antt =====
-- The queue refines a machine on one row: how each call ends, with the exceptions that the methods
-- document in their order, and the row that is stored then.
use penny_core.Prelude.{
  ℕ, ◌+◌, ◌≡◌, refl, inl, inr, not, ◌&&◌, ◌||◌, String, Option, none, some, List, [], ◌∷◌, ◌++◌,
  arith, string_eq, leb, mem, length, if◌then◌else◌, Option-cases,
}
use penny_core.Dict
use penny_core.Dict.{get-put_self}
use penny_core.Exec.{
  Exn, Result, ok, err, approval_not_found, approval_state, approver_not_eligible,
  duplicate_approver,
}
use penny_core.Contracts.Policies.{ApprovalRule, ApprovalState, approved, rejected}
use penny_core.Orchestrator.Approval.{
  Queue, approve, reject, find, is_pending_state, is_eligible, cast_vote, resolve, resolved_rule,
  keep_vote, record_single, note_of,
}
use penny_core.Orchestrator.Approval.Invariant.{IsValid}

-- The row after a vote that counts: it is resolved when the votes reach the quorum.
unfoldable pub counted : String → ℕ → ApprovalRule → ApprovalRule
counted who now rule =
    let votes = record_single (some who) rule.approvals in
    if leb rule.required_approvals (length votes) || leb rule.required_approvals 1
    then resolved_rule approved (some who) none votes now rule
    else record rule { approvals = votes; row_version = rule.row_version + 1 }

unfoldable pub vote_spec : Option String → ℕ → ApprovalRule → Result Exn ApprovalRule
unfolding counted
vote_spec none now rule =
    if leb 2 rule.required_approvals
    then err approver_not_eligible
    else ok (resolved_rule approved none none rule.approvals now rule)
vote_spec (some who) now rule =
    if leb 2 rule.required_approvals && mem who rule.approvals
    then err duplicate_approver
    else ok (counted who now rule)

-- What `approve` and `reject` check first.
unfoldable pub open_row :
    Option String → ApprovalRule → Result Exn ApprovalRule → Result Exn ApprovalRule
open_row by rule later =
    if not (is_pending_state rule.state)
    then err approval_state
    else if not (is_eligible rule.eligible_approvers by)
    then err approver_not_eligible
    else later

unfoldable pub approve_spec : Option String → ℕ → Option ApprovalRule → Result Exn ApprovalRule
unfolding vote_spec open_row
approve_spec by now none = err approval_not_found
approve_spec by now (some rule) = open_row by rule (vote_spec by now rule)

unfoldable pub reject_spec :
    String → Option String → ℕ → Option ApprovalRule → Result Exn ApprovalRule
unfolding open_row
reject_spec reason by now none = err approval_not_found
reject_spec reason by now (some rule) =
    open_row by rule (ok (resolved_rule rejected by (note_of reason) rule.approvals now rule))

-- A call that raises changes nothing at all; one that returns a row has stored that row.
abbrev pub Refines :
    String → Queue → Result Exn ApprovalRule → Result Exn ApprovalRule × Queue → Type 0
Refines a q (err x) r = r ≡ (err x, q)
Refines a q (ok row) r = (r.0 ≡ ok row) × (find a r.1 ≡ some row)

module _ (rule : ApprovalRule) (q : Queue) where
  resolve-Refines :
      (target : ApprovalState) (by why : Option String) (votes : List String) (now : ℕ)
      → Refines rule.action_id q
          (ok (resolved_rule target by why votes now rule))
          (resolve rule target by why votes now q)
  unfolding resolve find
  resolve-Refines target by why votes now = (refl, get-put_self q.by_id rule.action_id _)

  keep_vote-Refines :
      (votes : List String)
      → Refines rule.action_id q
          (ok (record rule { approvals = votes; row_version = rule.row_version + 1 }))
          (keep_vote rule.action_id votes rule q)
  unfolding keep_vote find
  keep_vote-Refines votes = (refl, get-put_self q.by_id rule.action_id _)

  cast_vote-Refines :
      (by : Option String) (now : ℕ)
      → Refines rule.action_id q (vote_spec by now rule) (cast_vote rule.action_id by now rule q)
  unfolding vote_spec cast_vote
  cast_vote-Refines none now = ground (arith, resolve-Refines approved none none rule.approvals now)
  cast_vote-Refines (some who) now = ground (
    arith,
    resolve-Refines approved (some who) none (record_single (some who) rule.approvals) now,
    resolve-Refines approved (some who) none (rule.approvals ++ who ∷ []) now,
    keep_vote-Refines (rule.approvals ++ who ∷ []),
  )

-- On a valid queue `approve` acts on the row as the machine does: the first failing check raises
-- and changes nothing, or the row with the vote counted is returned and stored.
pub approve-Refines :
    (a : String) (by : Option String) (now : ℕ) (q : Queue)
    → IsValid q
    → Refines a q (approve_spec by now (find a q)) (approve a by now q)
unfolding approve find approve_spec
approve-Refines a by now q v = elim (Option-cases (Dict.get q.by_id a)) [
  | inl missing ↦ ground arith
  | inr (rule, stored) ↦ ground (arith, v.keyed a rule stored, cast_vote-Refines rule q by now)
]

-- `reject` acts on the row as the machine does: the first failing check raises and changes
-- nothing, or the rejected row is returned and stored.
pub reject-Refines :
    (a reason : String) (by : Option String) (now : ℕ) (q : Queue)
    → IsValid q
    → Refines a q (reject_spec reason by now (find a q)) (reject a reason by now q)
unfolding reject find reject_spec
reject-Refines a reason by now q v = elim (Option-cases (Dict.get q.by_id a)) [
  | inl missing ↦ ground arith
  | inr (rule, stored) ↦ ground (
    arith,
    v.keyed a rule stored,
    resolve-Refines rule q rejected by (note_of reason) rule.approvals now,
  )
]
