-- ===== src/Orchestrator/Approval/Preservation.antt =====
-- Every method of the queue keeps its invariant.
use penny_core.Prelude.{
  ℕ, ◌+◌, ◌≤◌, ◌<◌, ◌≡◌, refl, ◌⊎◌, inl, inr, true, false, ◌&&◌, String, Option, none, some, List,
  [], ◌∷◌, ◌++◌, arith, ◌==◌, string_eq, eq_iff, mem, distinct, remove_first, length, if◌then◌else◌,
  mem-snoc, distinct-snoc, mem-remove_first, distinct-remove_first, Option-cases, length-append,
}
use penny_core.Dict
use penny_core.Dict.{Dict, get-put, get_list-push}
use penny_core.Contracts.Policies.{ApprovalRule, ApprovalState, pending, approved, rejected}
use penny_core.Orchestrator.Approval.{
  Queue, pool_ok, is_pending_state, is_eligible, insert_rule, resolve, resolved_rule, drop_pending,
  keep_vote, record_single, cast_vote, approve, reject, enqueue, fresh_rule, require_pending,
  note_of,
}
use penny_core.Orchestrator.Approval.Invariant.{all_eligible, IsValidRow, waits_for, IsValid}

pub all_eligible-snoc :
    (pool : Option (List String)) (who : String) (votes : List String)
    → all_eligible pool (votes ++ who ∷ [])
      ≡ (all_eligible pool votes && is_eligible pool (some who))
unfolding all_eligible
all_eligible-snoc pool who [] = ground arith
all_eligible-snoc pool who (v ∷ votes) = ground (arith, all_eligible-snoc pool who votes)

insert_rule-IsValid :
    (rule : ApprovalRule) (q : Queue)
    → IsValid q
    → Dict.get q.by_id rule.action_id ≡ none
    → rule.state ≡ pending
    → IsValidRow rule
    → IsValid (insert_rule rule q)
unfolding insert_rule waits_for
insert_rule-IsValid rule q v fresh waiting valid = record {
  keyed = λ a r h.
      ground (arith, get-put q.by_id rule.action_id a rule, eq_iff rule.action_id a, v.keyed a r);
  rows_valid =
      λ a r h. ground (arith, get-put q.by_id rule.action_id a rule, v.rows_valid a r, valid);
  indexed = λ t a. ground (
    arith,
    get-put q.by_id rule.action_id a rule,
    get_list-push q.pending_by_tenant rule.tenant_id t rule.action_id,
    mem-snoc a rule.action_id (Dict.get_list q.pending_by_tenant t),
    eq_iff rule.action_id a,
    eq_iff a rule.action_id,
    v.indexed t a,
  );
  once = λ t. ground (
    arith,
    get_list-push q.pending_by_tenant rule.tenant_id t rule.action_id,
    distinct-snoc rule.action_id (Dict.get_list q.pending_by_tenant t),
    v.indexed t rule.action_id,
    v.once t,
  );
}

pub get_list-drop_pending :
    (t a u : String) (d : Dict String (List String))
    → Dict.get_list (drop_pending t a d) u
      ≡ (if t == u then remove_first a (Dict.get_list d u) else Dict.get_list d u)
unfolding drop_pending remove_first
get_list-drop_pending t a u d = elim (Option-cases (Dict.get d t)) [
  | inl missing ↦ ground (arith, eq_iff t u)
  | inr (ids, e) ↦ ground (arith, eq_iff t u, get-put d t u (remove_first a ids))
]

module _ (rule : ApprovalRule) (q : Queue) (v : IsValid q)
    (stored : Dict.get q.by_id rule.action_id ≡ some rule) where
  -- A row that is replaced by one of the same key, tenant and state `pending`.
  keep_vote-IsValid :
      (recorded : List String)
      → rule.state ≡ pending
      → IsValidRow (record rule { approvals = recorded; row_version = rule.row_version + 1 })
      → IsValid (keep_vote rule.action_id recorded rule q).1
  unfolding keep_vote waits_for
  keep_vote-IsValid recorded waiting valid =
      let updated : ApprovalRule = record rule {
        approvals = recorded;
        row_version = rule.row_version + 1;
      } in
      record {
        keyed = λ a r h.
            ground (
              arith,
              get-put q.by_id rule.action_id a updated,
              eq_iff rule.action_id a,
              v.keyed a r,
            );
        rows_valid = λ a r h.
            ground (arith, get-put q.by_id rule.action_id a updated, v.rows_valid a r, valid);
        indexed = λ t a. ground (
          arith,
          get-put q.by_id rule.action_id a updated,
          eq_iff rule.action_id a,
          v.indexed t a,
          stored,
        );
        once = v.once;
      }

  resolve-IsValid :
      (target : ApprovalState) (by why : Option String) (recorded : List String) (now : ℕ)
      → is_pending_state target ≡ false
      → IsValidRow (resolved_rule target by why recorded now rule)
      → IsValid (resolve rule target by why recorded now q).1
  unfolding resolve waits_for
  resolve-IsValid target by why recorded now closed valid =
      let updated : ApprovalRule = resolved_rule target by why recorded now rule in
      record {
        keyed = λ a r h.
            ground (
              arith,
              get-put q.by_id rule.action_id a updated,
              eq_iff rule.action_id a,
              v.keyed a r,
            );
        rows_valid = λ a r h.
            ground (arith, get-put q.by_id rule.action_id a updated, v.rows_valid a r, valid);
        indexed = λ t a. ground (
          arith,
          get-put q.by_id rule.action_id a updated,
          get_list-drop_pending rule.tenant_id rule.action_id t q.pending_by_tenant,
          mem-remove_first rule.action_id a (Dict.get_list q.pending_by_tenant t) (v.once t),
          eq_iff rule.action_id a,
          eq_iff rule.tenant_id t,
          v.indexed t a,
          stored,
        );
        once = λ t. ground (
          arith,
          get_list-drop_pending rule.tenant_id rule.action_id t q.pending_by_tenant,
          distinct-remove_first rule.action_id (Dict.get_list q.pending_by_tenant t) (v.once t),
          v.once t,
        );
      }

  module _ (waiting : rule.state ≡ pending) (row : IsValidRow rule) where
    record_single-IsValidRow :
        (by : Option String) (now : ℕ)
        → rule.required_approvals ≤ 1
        → is_eligible rule.eligible_approvers by ≡ true
        → IsValidRow (resolved_rule approved by none (record_single by rule.approvals) now rule)
    unfolding resolved_rule record_single
    record_single-IsValidRow none now single allowed = ground (arith, row)
    record_single-IsValidRow (some who) now single allowed = ground (
      arith,
      row,
      distinct-snoc who rule.approvals,
      all_eligible-snoc rule.eligible_approvers who rule.approvals,
    )

    vote-IsValidRow :
        (who : String) (now : ℕ)
        → mem who rule.approvals ≡ false
        → is_eligible rule.eligible_approvers (some who) ≡ true
        → let recorded = rule.approvals ++ who ∷ [] in
          (rule.required_approvals ≤ length recorded
            → IsValidRow (resolved_rule approved (some who) none recorded now rule))
          × (length recorded < rule.required_approvals
              → IsValidRow
                  (record rule { approvals = recorded; row_version = rule.row_version + 1 }))
    unfolding resolved_rule
    vote-IsValidRow who now new allowed = ground (
      arith,
      row,
      length-append rule.approvals (who ∷ []),
      distinct-snoc who rule.approvals,
      all_eligible-snoc rule.eligible_approvers who rule.approvals,
    )

    cast_vote-IsValid :
        (by : Option String) (now : ℕ)
        → is_eligible rule.eligible_approvers by ≡ true
        → IsValid (cast_vote rule.action_id by now rule q).1
    unfolding cast_vote is_pending_state
    cast_vote-IsValid none now allowed = ground (
      arith,
      v,
      resolve-IsValid approved none none (record_single none rule.approvals) now refl,
      record_single-IsValidRow none now,
    )
    cast_vote-IsValid (some who) now allowed = ground (
      arith,
      v,
      resolve-IsValid approved (some who) none (record_single (some who) rule.approvals) now,
      resolve-IsValid approved (some who) none (rule.approvals ++ who ∷ []) now,
      keep_vote-IsValid (rule.approvals ++ who ∷ []),
      record_single-IsValidRow (some who) now,
      vote-IsValidRow who now,
    )

    rejected-IsValidRow :
        (by why : Option String) (now : ℕ)
        → IsValidRow (resolved_rule rejected by why rule.approvals now rule)
    unfolding resolved_rule
    rejected-IsValidRow by why now = ground (arith, row)

    reject-IsValid_at :
        (by why : Option String) (now : ℕ)
        → IsValid (resolve rule rejected by why rule.approvals now q).1
    unfolding is_pending_state
    reject-IsValid_at by why now =
        resolve-IsValid rejected by why rule.approvals now refl (rejected-IsValidRow by why now)

is_pending_state_iff : (s : ApprovalState) → is_pending_state s ≡ true → s ≡ pending
unfolding is_pending_state
is_pending_state_iff s h = ground arith

-- A vote keeps the invariant, whether it is counted, completes the quorum or is refused.
pub approve-IsValid :
    (a : String) (by : Option String) (now : ℕ) (q : Queue)
    → IsValid q
    → IsValid (approve a by now q).1
unfolding approve require_pending
approve-IsValid a by now q v = elim (Option-cases (Dict.get q.by_id a)) [
  | inl missing ↦ ground (arith, v)
  | inr (rule, stored) ↦ ground (
    arith,
    v,
    v.keyed a rule stored,
    v.rows_valid a rule stored,
    is_pending_state_iff rule.state,
    λ (w : rule.state ≡ pending) (s : Dict.get q.by_id rule.action_id ≡ some rule)
          (p : is_eligible rule.eligible_approvers by ≡ true).
        cast_vote-IsValid rule q v s w (v.rows_valid a rule stored) by now p,
  )
]

pub reject-IsValid :
    (a reason : String) (by : Option String) (now : ℕ) (q : Queue)
    → IsValid q
    → IsValid (reject a reason by now q).1
unfolding reject require_pending
reject-IsValid a reason by now q v = elim (Option-cases (Dict.get q.by_id a)) [
  | inl missing ↦ ground (arith, v)
  | inr (rule, stored) ↦ ground (
    arith,
    v,
    v.keyed a rule stored,
    is_pending_state_iff rule.state,
    λ (w : rule.state ≡ pending) (s : Dict.get q.by_id rule.action_id ≡ some rule).
        reject-IsValid_at rule q v s w (v.rows_valid a rule stored) by (note_of reason) now,
  )
]

module _ (queue_id : String) (now : ℕ) (a t : String) (assigned : Option String) (required : ℕ)
    (pool : Option (List String)) where
  abbrev fresh : ApprovalRule
  fresh = fresh_rule queue_id t a assigned required pool now

  fresh_rule-IsValidRow : 1 ≤ required → pool_ok required pool ≡ true → IsValidRow fresh
  unfolding fresh_rule all_eligible distinct
  fresh_rule-IsValidRow positive fits = ground arith

  insert_fresh-IsValid :
      (q : Queue)
      → IsValid q
      → Dict.get q.by_id a ≡ none
      → 1 ≤ required
      → pool_ok required pool ≡ true
      → IsValid (insert_rule fresh q)
  unfolding fresh_rule
  insert_fresh-IsValid q v new positive fits =
      insert_rule-IsValid fresh q v new refl (fresh_rule-IsValidRow positive fits)

  -- A call of `enqueue` changes nothing, or adds the fresh row.
  pub enqueue-cases :
      (q : Queue)
      → ((enqueue queue_id now a t assigned required pool q).1 ≡ q)
        ⊎ ((enqueue queue_id now a t assigned required pool q).1 ≡ insert_rule fresh q)
          × (Dict.get q.by_id a ≡ none)
          × (1 ≤ required)
          × (pool_ok required pool ≡ true)
  unfolding enqueue
  enqueue-cases q = ground arith

  pub enqueue-IsValid :
      (q : Queue) → IsValid q → IsValid (enqueue queue_id now a t assigned required pool q).1
  enqueue-IsValid q v = elim (enqueue-cases q) [
    | inl same ↦ rw same v
    | inr (added, new, positive, fits) ↦ rw added (insert_fresh-IsValid q v new positive fits)
  ]
