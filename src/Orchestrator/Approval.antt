-- ===== src/Orchestrator/Approval.antt =====
-- `InMemoryApprovalQueue` of orchestrator/approval_queue.py. The queue-row id (a random uuid) and
-- the clock readings are arguments of the methods that take them.
pub mod Invariant
pub mod Preservation
pub mod Frame
pub mod Calls
pub mod Outcomes
pub mod Votes
pub mod Listing
pub mod Arming
mod Tests
use penny_core.Prelude.{
  ℕ, ◌+◌, ◌≡◌, Bool, true, false, not, ◌&&◌, ◌||◌, String, Option, none, some, List, [], ◌∷◌, ◌++◌,
  ltb, leb, ◌==◌, string_eq, mem, distinct, remove_first, length, is_some, if◌then◌else◌,
}
use penny_core.Dict
use penny_core.Dict.{Dict}
use penny_core.Exec.{
  Exn, Result, ok, err, Exec, pure, raise, gets, lift, modify, raise_if, ◌>>=◌, ◌>>◌, value_error,
  validation_error, approval_not_found, approval_state, approver_not_eligible, duplicate_approver,
}
use penny_core.Contracts.{fits, fits_optional}
use penny_core.Contracts.Policies.{
  ApprovalRule, ApprovalState, pending, approved, rejected, expired,
}

pub record Queue : Type 0 where
  pub by_id : Dict String ApprovalRule
  pub pending_by_tenant : Dict String (List String)

-- `InMemoryApprovalQueue()`
abbrev pub empty_queue : Queue
empty_queue = record { by_id = []; pending_by_tenant = [] }

unfoldable pub is_pending_state : ApprovalState → Bool
is_pending_state pending = true
is_pending_state approved = false
is_pending_state rejected = false
is_pending_state expired = false

-- `len(set(pool)) != len(pool)`, then `required > len(pool)`; no pool passes.
unfoldable pub pool_ok : ℕ → Option (List String) → Bool
pool_ok required none = true
pool_ok required (some pool) = distinct pool && leb required (length pool)

-- The fields that `enqueue` gives, with the contract's defaults for the others.
unfoldable pub fresh_rule :
    String → String → String → Option String → ℕ → Option (List String) → ℕ → ApprovalRule
fresh_rule queue_id tenant_id action_id assigned_to required pool enqueued_at = record {
  id = queue_id;
  tenant_id = tenant_id;
  action_id = action_id;
  state = pending;
  assigned_to = assigned_to;
  required_approvals = required;
  eligible_approvers = pool;
  approvals = [];
  enqueued_at = enqueued_at;
  decided_at = none;
  decided_by = none;
  decision_note = none;
  row_version = 1;
}

-- The constructor call in `enqueue`: Pydantic's checks of the row's fields.
unfoldable pub new_rule : ApprovalRule → Result Exn ApprovalRule
new_rule rule =
    if fits 64 rule.id
      && fits 64 rule.tenant_id
      && fits 64 rule.action_id
      && fits_optional 128 rule.assigned_to
      && leb 1 rule.required_approvals
    then ok rule
    else err validation_error

-- A new row in both indexes.
unfoldable pub insert_rule : ApprovalRule → Queue → Queue
insert_rule rule q = record {
  by_id = Dict.put q.by_id rule.action_id rule;
  pending_by_tenant = Dict.push q.pending_by_tenant rule.tenant_id rule.action_id;
}

-- The locked part of `enqueue`.
unfoldable pub enqueue_new : Option ApprovalRule → Result Exn ApprovalRule → Exec Queue ApprovalRule
unfolding insert_rule
enqueue_new (some existing) made = pure existing
enqueue_new none made = do rule ← lift made; modify (insert_rule rule); pure rule

unfoldable pub enqueue :
    String
    → ℕ
    → String
    → String
    → Option String
    → ℕ
    → Option (List String)
    → Exec Queue ApprovalRule
unfolding pool_ok fresh_rule new_rule enqueue_new
enqueue queue_id now action_id tenant_id assigned_to required pool = do
  raise_if (action_id == "") value_error
  raise_if (tenant_id == "") value_error
  raise_if (ltb required 1) value_error
  raise_if (not (pool_ok required pool)) value_error
  existing ← gets (λ q. Dict.get q.by_id action_id)
  enqueue_new existing
      (new_rule (fresh_rule queue_id tenant_id action_id assigned_to required pool now))

-- `_require_pending`
unfoldable pub require_pending : String → Queue → Result Exn ApprovalRule
unfolding is_pending_state
require_pending action_id q = elim (Dict.get q.by_id action_id) [
  | none ↦ err approval_not_found
  | some rule ↦ if is_pending_state rule.state then ok rule else err approval_state
]

-- `decided_by in pool`, where `None` is in no pool.
unfoldable pub voter_in : Option String → List String → Bool
voter_in none pool = false
voter_in (some who) pool = mem who pool

-- `_check_eligible`
unfoldable pub is_eligible : Option (List String) → Option String → Bool
unfolding voter_in
is_eligible none decided_by = true
is_eligible (some pool) decided_by = voter_in decided_by pool

-- The `model_copy` in `_resolve`.
unfoldable pub resolved_rule :
    ApprovalState → Option String → Option String → List String → ℕ → ApprovalRule → ApprovalRule
resolved_rule target_state decided_by note approvals now rule = record rule {
  state = target_state;
  approvals = approvals;
  decided_at = some now;
  decided_by = decided_by;
  decision_note = note;
  row_version = rule.row_version + 1;
}

-- The tenant's list without the id; a tenant with no list gets none.
unfoldable pub drop_pending :
    String → String → Dict String (List String) → Dict String (List String)
drop_pending tenant_id action_id d = elim (Dict.get d tenant_id) [
  | none ↦ d
  | some ids ↦ Dict.put d tenant_id (remove_first action_id ids)
]

-- `_resolve`
unfoldable pub resolve :
    ApprovalRule
    → ApprovalState
    → Option String
    → Option String
    → List String
    → ℕ
    → Exec Queue ApprovalRule
unfolding resolved_rule drop_pending
resolve rule target_state decided_by note approvals now q =
    let resolved = resolved_rule target_state decided_by note approvals now rule in
    (
      ok resolved,
      record {
        by_id = Dict.put q.by_id rule.action_id resolved;
        pending_by_tenant = drop_pending rule.tenant_id rule.action_id q.pending_by_tenant;
      },
    )

-- The fast path's record of the one vote.
unfoldable pub record_single : Option String → List String → List String
record_single none approvals = approvals
record_single (some who) approvals = if mem who approvals then approvals else approvals ++ who ∷ []

-- A partial quorum: the vote is kept and the row stays pending.
unfoldable pub keep_vote : String → List String → ApprovalRule → Exec Queue ApprovalRule
keep_vote action_id recorded rule q =
    let updated = record rule { approvals = recorded; row_version = rule.row_version + 1 } in
    (ok updated, record q { by_id = Dict.put q.by_id action_id updated })

-- The quorum path of `approve`: named, distinct voters.
unfoldable pub quorum_vote : String → Option String → ℕ → ApprovalRule → Exec Queue ApprovalRule
unfolding resolve keep_vote
quorum_vote action_id none now rule = raise approver_not_eligible
quorum_vote action_id (some who) now rule =
    if mem who rule.approvals
    then raise duplicate_approver
    else let recorded = rule.approvals ++ who ∷ [] in
      if leb rule.required_approvals (length recorded)
      then resolve rule approved (some who) none recorded now
      else keep_vote action_id recorded rule

-- `approve` on a pending row and an eligible voter.
unfoldable pub cast_vote : String → Option String → ℕ → ApprovalRule → Exec Queue ApprovalRule
unfolding resolve record_single quorum_vote
cast_vote action_id decided_by now rule =
    if leb rule.required_approvals 1
    then resolve rule approved decided_by none (record_single decided_by rule.approvals) now
    else quorum_vote action_id decided_by now rule

unfoldable pub approve : String → Option String → ℕ → Exec Queue ApprovalRule
unfolding require_pending is_eligible cast_vote
approve action_id decided_by now = do
  rule ← (λ q. (require_pending action_id q, q))
  raise_if (not (is_eligible rule.eligible_approvers decided_by)) approver_not_eligible
  cast_vote action_id decided_by now rule

-- `reason or None`
unfoldable pub note_of : String → Option String
note_of reason = if reason == "" then none else some reason

unfoldable pub reject : String → String → Option String → ℕ → Exec Queue ApprovalRule
unfolding require_pending is_eligible resolve note_of
reject action_id reason decided_by now = do
  rule ← (λ q. (require_pending action_id q, q))
  raise_if (not (is_eligible rule.eligible_approvers decided_by)) approver_not_eligible
  resolve rule rejected decided_by (note_of reason) rule.approvals now

-- `[by_id[a] for a in ids if a in by_id]`
unfoldable pub rows : Dict String ApprovalRule → List String → List ApprovalRule
rows by_id [] = []
rows by_id (a ∷ ids) =
    let rest = rows by_id ids in elim (Dict.get by_id a) [ none ↦ rest | some rule ↦ rule ∷ rest ]

unfoldable pub list_pending : String → Queue → List ApprovalRule
unfolding rows
list_pending tenant_id q = rows q.by_id (Dict.get_list q.pending_by_tenant tenant_id)

unfoldable pub find : String → Queue → Option ApprovalRule
find action_id q = Dict.get q.by_id action_id

unfoldable pub is_pending : String → Queue → Bool
unfolding is_pending_state
is_pending action_id q = elim (Dict.get q.by_id action_id) [
  | none ↦ false
  | some rule ↦ is_pending_state rule.state
]
