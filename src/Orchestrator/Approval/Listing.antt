-- ===== src/Orchestrator/Approval/Listing.antt =====
-- What `list_pending` shows: exactly the tenant's pending rows, oldest first.
use penny_core.Prelude.{
  ℕ, ◌+◌, ◌≡◌, refl, sym, ◌∙◌, ◌==◌, beq_refl, true, String, Option, none, some, List, [], ◌∷◌,
  ◌++◌, map, arith, string_eq, eq_iff, mem, distinct, remove_first, inl, inr, if◌then◌else◌,
  Option-cases, remove_first_missing,
}
use penny_core.Dict
use penny_core.Dict.{Dict, get-put_self, get_list-push}
use penny_core.Exec.{ok}
use penny_core.Contracts.Policies.{ApprovalRule, pending, approved}
use penny_core.Orchestrator.Approval.{
  Queue, empty_queue, enqueue, approve, find, list_pending, rows, is_pending, is_pending_state,
  cast_vote, resolve, keep_vote, resolved_rule, record_single,
}
use penny_core.Orchestrator.Approval.Invariant.{IsValid, waits_for}
use penny_core.Orchestrator.Approval.Calls.{Call, run, run-IsValid}
use penny_core.Orchestrator.Approval.Preservation.{
  enqueue-IsValid, approve-IsValid, get_list-drop_pending,
}

-- The ids that a listing shows, in its order.
unfoldable pub listed : String → Queue → List String
listed t q = map (λ (r : ApprovalRule). r.action_id) (list_pending t q)

abbrev pub All {ℓ} : {A : Type ℓ} → (A → Type 0) → List A → Type 0
All P [] = Unit
All P (x ∷ xs) = P x × All P xs

module _ (t : String) (q : Queue) (v : IsValid q) where
  -- The rows of ids that all wait in the tenant's list.
  rows_of_waiting :
      (ids : List String)
      → All (λ a. waits_for t (Dict.get q.by_id a) ≡ true) ids
      → (map (λ (r : ApprovalRule). r.action_id) (rows q.by_id ids) ≡ ids)
        × All (λ (r : ApprovalRule). (r.tenant_id ≡ t) × (r.state ≡ pending)) (rows q.by_id ids)
  unfolding rows waits_for is_pending_state
  rows_of_waiting [] h = (refl, tt)
  rows_of_waiting (a ∷ ids) h = elim (Option-cases (Dict.get q.by_id a)) [
    | inl missing ↦ ground arith
    | inr (rule, stored) ↦
        ground (arith, v.keyed a rule stored, rows_of_waiting ids h.1, eq_iff rule.tenant_id t)
  ]

  pub waiting_of_mem :
      (ids : List String)
      → ((a : String) → mem a ids ≡ true → waits_for t (Dict.get q.by_id a) ≡ true)
      → All (λ a. waits_for t (Dict.get q.by_id a) ≡ true) ids
  unfolding mem
  waiting_of_mem [] h = tt
  waiting_of_mem (a ∷ ids) h =
      (h a (rw (beq_refl a)), waiting_of_mem ids (λ b m. h b (ground (arith, m, eq_iff b a))))

  -- Every id of the tenant's list has a pending row of the tenant.
  index_waits :
      All (λ a. waits_for t (Dict.get q.by_id a) ≡ true) (Dict.get_list q.pending_by_tenant t)
  index_waits =
      waiting_of_mem (Dict.get_list q.pending_by_tenant t) (λ a m. sym (v.indexed t a) ∙ m)

  listed-eq-index : listed t q ≡ Dict.get_list q.pending_by_tenant t
  unfolding listed list_pending
  listed-eq-index = (rows_of_waiting (Dict.get_list q.pending_by_tenant t) index_waits).0

  -- A listing shows only rows of the tenant that was asked for, and only pending ones.
  pub list_pending_own :
      All (λ (r : ApprovalRule). (r.tenant_id ≡ t) × (r.state ≡ pending)) (list_pending t q)
  unfolding list_pending
  list_pending_own = (rows_of_waiting (Dict.get_list q.pending_by_tenant t) index_waits).1

  -- An action is listed for a tenant exactly when its row is pending and the tenant's.
  pub mem-listed : (a : String) → mem a (listed t q) ≡ waits_for t (find a q)
  unfolding find
  mem-listed a = rw listed-eq-index (v.indexed t a)

  distinct-listed : distinct (listed t q) ≡ true
  distinct-listed = rw listed-eq-index (v.once t)

-- Whatever calls are made on a new queue, and however they end, an action is listed for a tenant
-- exactly when its row is pending and the tenant's, it is listed once, and the rows that are shown
-- are pending and the tenant's.
pub mem-listed-run :
    (calls : List Call) (t : String)
    → ((a : String)
        → mem a (listed t (run calls empty_queue)) ≡ waits_for t (find a (run calls empty_queue)))
      × (distinct (listed t (run calls empty_queue)) ≡ true)
      × All
          (λ (r : ApprovalRule). (r.tenant_id ≡ t) × (r.state ≡ pending))
          (list_pending t (run calls empty_queue))
mem-listed-run calls t =
    let q = run calls empty_queue in
    let v = run-IsValid calls in (mem-listed t q v, distinct-listed t q v, list_pending_own t q v)

index-enqueue :
    (queue_id : String) (now : ℕ) (a t : String) (assigned : Option String) (required : ℕ)
    (pool : Option (List String)) (q : Queue) (rule : ApprovalRule) (u : String)
    → find a q ≡ none
    → (enqueue queue_id now a t assigned required pool q).0 ≡ ok rule
    → Dict.get_list (enqueue queue_id now a t assigned required pool q).1.pending_by_tenant u ≡ (
        if t == u
        then Dict.get_list q.pending_by_tenant u ++ a ∷ []
        else Dict.get_list q.pending_by_tenant u)
unfolding enqueue find
index-enqueue queue_id now a t assigned required pool q rule u new done =
    ground (arith, get_list-push q.pending_by_tenant t u a)

module _ (rule : ApprovalRule) (q : Queue) (u : String) where
  abbrev before : List String
  before = Dict.get_list q.pending_by_tenant u

  -- What a vote on a stored pending row does to a tenant's list and to the row's state.
  abbrev DropsIfResolved : Queue → Type 0
  DropsIfResolved q' =
      Dict.get_list q'.pending_by_tenant u
      ≡ (if is_pending rule.action_id q' then before else remove_first rule.action_id before)

  module _ (v : IsValid q) (stored : Dict.get q.by_id rule.action_id ≡ some rule)
      (waiting : rule.state ≡ pending) where
    resolve_drops :
        (by : Option String) (votes : List String) (now : ℕ)
        → DropsIfResolved (resolve rule approved by none votes now q).1
    unfolding resolve is_pending waits_for
    resolve_drops by votes now = ground (
      arith,
      get-put_self q.by_id rule.action_id (resolved_rule approved by none votes now rule),
      get_list-drop_pending rule.tenant_id rule.action_id u q.pending_by_tenant,
      remove_first_missing rule.action_id before,
      v.indexed u rule.action_id,
      stored,
    )

    keep_vote_drops :
        (votes : List String) → DropsIfResolved (keep_vote rule.action_id votes rule q).1
    unfolding keep_vote is_pending
    keep_vote_drops votes = ground (
      arith,
      get-put_self q.by_id rule.action_id
          (record rule { approvals = votes; row_version = rule.row_version + 1 }),
    )

    cast_vote_drops :
        (by : Option String) (now : ℕ)
        → is_pending rule.action_id q ≡ true
        → DropsIfResolved (cast_vote rule.action_id by now rule q).1
    unfolding cast_vote
    cast_vote_drops none now h =
        ground (arith, h, resolve_drops none (record_single none rule.approvals) now)
    cast_vote_drops (some who) now h = ground (
      arith,
      h,
      resolve_drops (some who) (record_single (some who) rule.approvals) now,
      resolve_drops (some who) (rule.approvals ++ who ∷ []) now,
      keep_vote_drops (rule.approvals ++ who ∷ []),
    )

index-approve :
    (a : String) (by : Option String) (now : ℕ) (q : Queue) (u : String)
    → IsValid q
    → Dict.get_list (approve a by now q).1.pending_by_tenant u ≡ (
        if is_pending a (approve a by now q).1
        then Dict.get_list q.pending_by_tenant u
        else remove_first a (Dict.get_list q.pending_by_tenant u))
unfolding approve waits_for is_pending
index-approve a by now q u v = elim (Option-cases (Dict.get q.by_id a)) [
  | inl missing ↦
      ground (arith, v.indexed u a, remove_first_missing a (Dict.get_list q.pending_by_tenant u))
  | inr (rule, stored) ↦ ground (
    arith,
    v.keyed a rule stored,
    v.indexed u a,
    remove_first_missing a (Dict.get_list q.pending_by_tenant u),
    λ (s : Dict.get q.by_id rule.action_id ≡ some rule) (w : rule.state ≡ pending).
        cast_vote_drops rule q u v s w by now,
  )
]

-- A new row goes to the end of its tenant's listing, and into no other.
pub listed-enqueue :
    (queue_id : String) (now : ℕ) (a t : String) (assigned : Option String) (required : ℕ)
    (pool : Option (List String)) (q : Queue) (rule : ApprovalRule) (u : String)
    → IsValid q
    → find a q ≡ none
    → (enqueue queue_id now a t assigned required pool q).0 ≡ ok rule
    → listed u (enqueue queue_id now a t assigned required pool q).1
      ≡ (if t == u then listed u q ++ a ∷ [] else listed u q)
listed-enqueue queue_id now a t assigned required pool q rule u v new done =
    rw
      (
        listed-eq-index u (enqueue queue_id now a t assigned required pool q).1
            (enqueue-IsValid queue_id now a t assigned required pool q v),
        listed-eq-index u q v,
      )
      (index-enqueue queue_id now a t assigned required pool q rule u new done)

-- A vote changes a listing only by taking the resolved row out; the order of the others stays.
pub listed-approve :
    (a : String) (by : Option String) (now : ℕ) (q : Queue) (u : String)
    → IsValid q
    → listed u (approve a by now q).1
      ≡ (if is_pending a (approve a by now q).1 then listed u q else remove_first a (listed u q))
listed-approve a by now q u v =
    rw
      (
        listed-eq-index u (approve a by now q).1 (approve-IsValid a by now q v),
        listed-eq-index u q v,
      )
      (index-approve a by now q u v)
