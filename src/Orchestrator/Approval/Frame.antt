-- ===== src/Orchestrator/Approval/Frame.antt =====
-- What a call of the queue leaves alone: every other row, and a row that is already resolved.
use penny_core.Prelude.{
  ℕ, ◌≡◌, ◌≢◌, inl, inr, false, String, Option, none, some, List, [], ◌∷◌, ◌++◌, arith, string_eq,
  Option-cases,
}
use penny_core.Dict
use penny_core.Dict.{get-put, get-put_ne}
use penny_core.Exec.{err, approval_state}
use penny_core.Contracts.Policies.{ApprovalRule, ApprovalState, approved, rejected}
use penny_core.Orchestrator.Approval.{
  Queue, enqueue, approve, reject, find, insert_rule, fresh_rule, require_pending, is_pending_state,
  cast_vote, resolve, resolved_rule, keep_vote, record_single, note_of,
}
use penny_core.Orchestrator.Approval.Invariant.{IsValid}
use penny_core.Orchestrator.Approval.Preservation.{enqueue-cases}

module _ (rule : ApprovalRule) (q : Queue) (a : String) (other : rule.action_id ≢ a) where
  resolve_other :
      (target : ApprovalState) (by why : Option String) (votes : List String) (now : ℕ)
      → Dict.get (resolve rule target by why votes now q).1.by_id a ≡ Dict.get q.by_id a
  unfolding resolve
  resolve_other target by why votes now =
      get-put_ne q.by_id rule.action_id a (resolved_rule target by why votes now rule) other

  keep_vote_other :
      (votes : List String)
      → Dict.get (keep_vote rule.action_id votes rule q).1.by_id a ≡ Dict.get q.by_id a
  unfolding keep_vote
  keep_vote_other votes = get-put_ne q.by_id rule.action_id a _ other

  cast_vote_other :
      (by : Option String) (now : ℕ)
      → Dict.get (cast_vote rule.action_id by now rule q).1.by_id a ≡ Dict.get q.by_id a
  unfolding cast_vote
  cast_vote_other none now =
      ground (arith, resolve_other approved none none (record_single none rule.approvals) now)
  cast_vote_other (some who) now = ground (
    arith,
    resolve_other approved (some who) none (record_single (some who) rule.approvals) now,
    resolve_other approved (some who) none (rule.approvals ++ who ∷ []) now,
    keep_vote_other (rule.approvals ++ who ∷ []),
  )

module _ (a b : String) (q : Queue) (v : IsValid q) (other : b ≢ a) where
  -- A vote on one action changes the row of no other action.
  pub find-approve_ne : (by : Option String) (now : ℕ) → find a (approve b by now q).1 ≡ find a q
  unfolding find approve require_pending
  find-approve_ne by now = elim (Option-cases (Dict.get q.by_id b)) [
    | inl missing ↦ ground arith
    | inr (rule, stored) ↦ ground (
      arith,
      v.keyed b rule stored,
      λ (n : rule.action_id ≢ a). cast_vote_other rule q a n by now,
    )
  ]

  pub find-reject_ne :
      (reason : String) (by : Option String) (now : ℕ)
      → find a (reject b reason by now q).1 ≡ find a q
  unfolding find reject require_pending
  find-reject_ne reason by now = elim (Option-cases (Dict.get q.by_id b)) [
    | inl missing ↦ ground arith
    | inr (rule, stored) ↦ ground (
      arith,
      v.keyed b rule stored,
      λ (n : rule.action_id ≢ a).
          resolve_other rule q a n rejected by (note_of reason) rule.approvals now,
    )
  ]

  pub find-enqueue_ne :
      (queue_id : String) (now : ℕ) (t : String) (assigned : Option String) (required : ℕ)
      (pool : Option (List String))
      → find a (enqueue queue_id now b t assigned required pool q).1 ≡ find a q
  unfolding find insert_rule fresh_rule
  find-enqueue_ne queue_id now t assigned required pool = ground (
    arith,
    enqueue-cases queue_id now b t assigned required pool q,
    get-put_ne q.by_id b a (fresh_rule queue_id t b assigned required pool now) other,
  )

-- A row that is there already is not touched by `enqueue`.
pub find-enqueue_self :
    (queue_id : String) (now : ℕ) (a t : String) (assigned : Option String) (required : ℕ)
    (pool : Option (List String)) (q : Queue) (rule : ApprovalRule)
    → find a q ≡ some rule
    → (enqueue queue_id now a t assigned required pool q).1 ≡ q
unfolding find
find-enqueue_self queue_id now a t assigned required pool q rule h =
    ground (arith, enqueue-cases queue_id now a t assigned required pool q)

module _ (a : String) (q : Queue) (rule : ApprovalRule) (stored : find a q ≡ some rule)
    (closed : is_pending_state rule.state ≡ false) where
  pub approve_closed : (by : Option String) (now : ℕ) → approve a by now q ≡ (err approval_state, q)
  unfolding find approve
  approve_closed by now = ground arith

  pub reject_closed :
      (reason : String) (by : Option String) (now : ℕ)
      → reject a reason by now q ≡ (err approval_state, q)
  unfolding find reject
  reject_closed reason by now = ground arith
