-- ===== src/Orchestrator/Approval/Arming.antt =====
-- A call of `enqueue` that the queue accepts.
use penny_core.Prelude.{
  ℕ, ◌≤◌, ◌≡◌, refl, ap, Bool-cases, Option-cases, inl, inr, eq_iff, true, false, String, Option,
  none, some, List, arith, string_eq, ◌&&◌, ◌==◌,
}
use Prim.Native.String.{count}
use penny_core.Dict
use penny_core.Dict.{get-put_self}
use penny_core.Exec.{ok}
use penny_core.Contracts.{fits, fits_optional}
use penny_core.Contracts.Policies.{ApprovalRule}
use penny_core.Orchestrator.Approval.{
  Queue, find, approve, reject, require_pending, is_pending_state, pool_ok, enqueue, enqueue_new,
  insert_rule, new_rule, fresh_rule,
}

count_empty : count "" ≡ 0
count_empty = refl

-- A string that fits is not empty.
pub fits-nonempty : (n : ℕ) (s : String) → fits n s ≡ true → (s == "") ≡ false
unfolding fits
fits-nonempty n s h = elim (Bool-cases (s == "")) [
  | inl empty ↦ ground (arith, ap count ((eq_iff s "").0 empty), h, count_empty)
  | inr other ↦ other
]

module _ (queue_id : String) (now : ℕ) (a t : String) (required : ℕ) (pool : Option (List String))
    (q : Queue) (fit : fits 64 queue_id && (fits 64 a && fits 64 t) ≡ true)
    (positive : 1 ≤ required) (pool_fits : pool_ok required pool ≡ true)
    (new : find a q ≡ none) where
  -- A new action with a sound quorum is queued.
  pub enqueue-fresh : enqueue queue_id now a t none required pool q ≡ (
    ok (fresh_rule queue_id t a none required pool now),
    insert_rule (fresh_rule queue_id t a none required pool now) q,
  )
  unfolding enqueue enqueue_new new_rule fresh_rule fits_optional find
  enqueue-fresh = ground (arith, fits-nonempty 64 a, fits-nonempty 64 t)

-- Only a row that waits is voted on or rejected.
module _ (a : String) (by : Option String) (now : ℕ) (q : Queue) (rule : ApprovalRule) where
  pub approve-WasPending :
      (approve a by now q).0 ≡ ok rule
      → (old : ApprovalRule) × (find a q ≡ some old) × (is_pending_state old.state ≡ true)
  unfolding approve require_pending find
  approve-WasPending h = elim (Option-cases (Dict.get q.by_id a)) [
    | inl missing ↦ ground (arith, h, missing)
    | inr (old, there) ↦ (old, there, ground (arith, h, there))
  ]

  pub reject-WasPending :
      (reason : String)
      → (reject a reason by now q).0 ≡ ok rule
      → (old : ApprovalRule) × (find a q ≡ some old) × (is_pending_state old.state ≡ true)
  unfolding reject require_pending find
  reject-WasPending reason h = elim (Option-cases (Dict.get q.by_id a)) [
    | inl missing ↦ ground (arith, h, missing)
    | inr (old, there) ↦ (old, there, ground (arith, h, there))
  ]
