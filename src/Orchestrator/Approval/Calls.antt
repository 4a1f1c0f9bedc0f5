-- ===== src/Orchestrator/Approval/Calls.antt =====
-- Any history of calls on one queue: what holds of every row after it.
use penny_core.Prelude.{
  ℕ, ◌≡◌, ◌≢◌, refl, inl, inr, true, false, String, Option, some, List, [], ◌∷◌, arith, string_eq,
  eq_iff, length, mem, distinct, ◌⊎◌, ◌==◌, Bool-cases,
}
use penny_core.Dict
use penny_core.Dict.{get-put}
use penny_core.Contracts.Policies.{ApprovalRule}
use penny_core.Orchestrator.Approval.{
  Queue, empty_queue, enqueue, approve, reject, find, is_pending_state,
}
use penny_core.Orchestrator.Approval.Invariant.{Tally, all_eligible, waits_for, IsValid}
use penny_core.Orchestrator.Approval.Frame.{
  find-enqueue_self, find-enqueue_ne, find-approve_ne, find-reject_ne, approve_closed,
  reject_closed,
}
use penny_core.Orchestrator.Approval.Preservation.{enqueue-IsValid, approve-IsValid, reject-IsValid}

-- One call with the id and the clock readings that it meets.
pub data Call : Type 0 where
  enqueue_call : String → ℕ → String → String → Option String → ℕ → Option (List String) → Call
  approve_call : String → Option String → ℕ → Call
  reject_call : String → String → Option String → ℕ → Call

unfoldable pub perform : Call → Queue → Queue
perform (enqueue_call queue_id now a t assigned required pool) q =
    (enqueue queue_id now a t assigned required pool q).1
perform (approve_call a by now) q = (approve a by now q).1
perform (reject_call a reason by now) q = (reject a reason by now q).1

-- The queue after a history of calls; a call that raised leaves what it left.
unfoldable pub run : List Call → Queue → Queue
unfolding perform
run [] q = q
run (c ∷ calls) q = run calls (perform c q)

perform-IsValid : (c : Call) (q : Queue) → IsValid q → IsValid (perform c q)
unfolding perform
perform-IsValid (enqueue_call queue_id now a t assigned required pool) q v =
    enqueue-IsValid queue_id now a t assigned required pool q v
perform-IsValid (approve_call a by now) q v = approve-IsValid a by now q v
perform-IsValid (reject_call a reason by now) q v = reject-IsValid a reason by now q v

pub run-IsValid_from : (calls : List Call) (q : Queue) → IsValid q → IsValid (run calls q)
unfolding run
run-IsValid_from [] q v = v
run-IsValid_from (c ∷ calls) q v = run-IsValid_from calls (perform c q) (perform-IsValid c q v)

pub empty_queue-IsValid : IsValid empty_queue
unfolding Dict.get waits_for mem distinct
empty_queue-IsValid = record {
  keyed = λ a rule h. cc;
  rows_valid = λ a rule h. cc;
  indexed = λ t a. refl;
  once = λ t. refl;
}

-- Whatever calls are made on a new queue, its invariant holds.
pub run-IsValid : (calls : List Call) → IsValid (run calls empty_queue)
run-IsValid calls = run-IsValid_from calls empty_queue empty_queue-IsValid

-- Whatever calls are made, the voters of a row are distinct and eligible, a pending row is short
-- of its quorum, and a row with a quorum of two or more is approved by exactly that many.
pub quorum_exact :
    (calls : List Call) (a : String) (rule : ApprovalRule)
    → find a (run calls empty_queue) ≡ some rule
    → (distinct rule.approvals ≡ true)
      × (all_eligible rule.eligible_approvers rule.approvals ≡ true)
      × Tally rule.state rule.required_approvals (length rule.approvals)
unfolding find
quorum_exact calls a rule h =
    let row = (run-IsValid calls).rows_valid a rule h in
    (row.voters_distinct, row.voters_eligible, row.tally)

pub same_or_not : (a b : String) → (b ≡ a) ⊎ (b ≢ a)
same_or_not a b = elim (Bool-cases (b == a)) [
  | inl same ↦ inl ((eq_iff b a).0 same)
  | inr other ↦ inr (λ p. ground (arith, (eq_iff b a).1 p))
]

module _ (a : String) (rule : ApprovalRule) (closed : is_pending_state rule.state ≡ false) where
  perform-resolved :
      (c : Call) (q : Queue) → IsValid q → find a q ≡ some rule → find a (perform c q) ≡ some rule
  unfolding perform
  perform-resolved (enqueue_call queue_id now b t assigned required pool) q v h =
      elim (same_or_not a b) [
        | inl same ↦
            cc (same, find-enqueue_self queue_id now a t assigned required pool q rule h, h)
        | inr other ↦ cc (find-enqueue_ne a b q v other queue_id now t assigned required pool, h)
      ]
  perform-resolved (approve_call b by now) q v h = elim (same_or_not a b) [
    | inl same ↦ cc (same, approve_closed a q rule h closed by now, h)
    | inr other ↦ cc (find-approve_ne a b q v other by now, h)
  ]
  perform-resolved (reject_call b reason by now) q v h = elim (same_or_not a b) [
    | inl same ↦ cc (same, reject_closed a q rule h closed reason by now, h)
    | inr other ↦ cc (find-reject_ne a b q v other reason by now, h)
  ]

  -- Once a row is resolved, no later calls change it in any field.
  pub run-resolved :
      (calls : List Call) (q : Queue)
      → IsValid q
      → find a q ≡ some rule
      → find a (run calls q) ≡ some rule
  unfolding run
  run-resolved [] q v h = h
  run-resolved (c ∷ calls) q v h =
      run-resolved calls (perform c q) (perform-IsValid c q v) (perform-resolved c q v h)
