-- ===== src/Orchestrator/Approval/Tests.antt =====
-- Runs of the approval queue, and the theorems at one of them: two of three named reviewers.
use penny_core.Prelude.{
  ◌≡◌, refl, true, String, none, some, List, [], ◌∷◌, ◌++◌, arith, string_eq, mem, distinct,
}
use penny_core.Dict
use penny_core.Exec.{err, approval_state, approver_not_eligible, duplicate_approver, value_error}
use penny_core.Contracts.{fits, fits_optional}
use penny_core.Contracts.Policies.{ApprovalRule, pending, approved}
use penny_core.Orchestrator.Approval.{
  Queue, empty_queue, enqueue, approve, reject, find, list_pending, is_pending_state,
}
use penny_core.Orchestrator.Approval.Invariant.{Tally, all_eligible, waits_for}
use penny_core.Orchestrator.Approval.Calls.{
  Call, enqueue_call, approve_call, reject_call, run, run-IsValid, quorum_exact, run-resolved,
}
use penny_core.Orchestrator.Approval.Outcomes.{
  Refines, approve_spec, reject_spec, approve-Refines, reject-Refines,
}
use penny_core.Orchestrator.Approval.Votes.{vote_all, votes_fill_quorum}
use penny_core.Orchestrator.Approval.Listing.{All, listed, mem-listed-run, listed-enqueue}

abbrev reviewers : List String
reviewers = "ann" ∷ "bob" ∷ "cyd" ∷ []

abbrev arm : Call
arm = enqueue_call "appr_1" 10 "act_1" "bank_a" none 2 (some reviewers)

abbrev opened : Queue
opened = run (arm ∷ []) empty_queue

abbrev armed_row : ApprovalRule
armed_row = record {
  id = "appr_1";
  tenant_id = "bank_a";
  action_id = "act_1";
  state = pending;
  assigned_to = none;
  required_approvals = 2;
  eligible_approvers = some reviewers;
  approvals = [];
  enqueued_at = 10;
  decided_at = none;
  decided_by = none;
  decision_note = none;
  row_version = 1;
}

abbrev history : List Call
history = arm ∷ approve_call "act_1" (some "ann") 20 ∷ approve_call "act_1" (some "bob") 30 ∷ []

abbrev done_row : ApprovalRule
done_row = record armed_row {
  state = approved;
  approvals = "ann" ∷ "bob" ∷ [];
  decided_at = some 30;
  decided_by = some "bob";
  row_version = 3;
}

opened_row : find "act_1" opened ≡ some armed_row
unfolding run enqueue find fits fits_optional Dict.get Dict.put Dict.push distinct mem
opened_row = refl

history_row : find "act_1" (run history empty_queue) ≡ some done_row
unfolding run enqueue approve find fits fits_optional Dict.get Dict.put Dict.push distinct mem
history_row = refl

-- A stranger, a second vote of one reviewer, and a vote after the quorum are refused.
refusals :
    ((approve "act_1" (some "zed") 20 opened).0 ≡ err approver_not_eligible)
    × ((approve "act_1" (some "ann") 21 (run (approve_call "act_1" (some "ann") 20 ∷ []) opened)).0
        ≡ err duplicate_approver)
    × ((approve "act_1" (some "cyd") 40 (run history empty_queue)).0 ≡ err approval_state)
unfolding run enqueue approve find fits fits_optional Dict.get Dict.put Dict.push distinct mem
refusals = (refl, refl, refl)

-- A pool smaller than the quorum is refused when the row would be armed.
pool_too_small :
    (enqueue "appr_1" 10 "act_1" "bank_a" none 4 (some reviewers) empty_queue).0 ≡ err value_error
unfolding enqueue distinct mem
pool_too_small = refl

quorum_exact_example :
    (distinct done_row.approvals ≡ true)
    × (all_eligible done_row.eligible_approvers done_row.approvals ≡ true)
    × Tally approved 2 2
quorum_exact_example = quorum_exact history "act_1" done_row history_row

run-resolved_example :
    find "act_1" (run (reject_call "act_1" "late" (some "cyd") 50 ∷ []) (run history empty_queue))
    ≡ some done_row
unfolding is_pending_state
run-resolved_example =
    run-resolved "act_1" done_row refl (reject_call "act_1" "late" (some "cyd") 50 ∷ [])
      (run history empty_queue) (run-IsValid history) history_row

approve-Refines_example :
    Refines "act_1" opened
      (approve_spec (some "ann") 20 (find "act_1" opened))
      (approve "act_1" (some "ann") 20 opened)
approve-Refines_example = approve-Refines "act_1" (some "ann") 20 opened (run-IsValid (arm ∷ []))

reject-Refines_example :
    Refines "act_1" opened
      (reject_spec "no" (some "ann") 20 (find "act_1" opened))
      (reject "act_1" "no" (some "ann") 20 opened)
reject-Refines_example = reject-Refines "act_1" "no" (some "ann") 20 opened (run-IsValid (arm ∷ []))

votes_fill_quorum_example :
    (row : ApprovalRule) × (find "act_1" (vote_all "act_1" (("ann", 20) ∷ ("bob", 30) ∷ []) opened)
      ≡ some row)
    × (row.approvals ≡ "ann" ∷ "bob" ∷ [])
    × (row.state ≡ approved)
unfolding mem is_pending_state approve
votes_fill_quorum_example =
    votes_fill_quorum "act_1" (("ann", 20) ∷ ("bob", 30) ∷ []) opened armed_row
      (run-IsValid (arm ∷ [])) opened_row refl (refl, refl, refl, (refl, refl, refl, tt))
      (omega arith)

mem-listed-run_example :
    ((a : String)
      → mem a (listed "bank_a" (run (arm ∷ []) empty_queue))
        ≡ waits_for "bank_a" (find a (run (arm ∷ []) empty_queue)))
    × (distinct (listed "bank_a" (run (arm ∷ []) empty_queue)) ≡ true)
    × All
        (λ (r : ApprovalRule). (r.tenant_id ≡ "bank_a") × (r.state ≡ pending))
        (list_pending "bank_a" (run (arm ∷ []) empty_queue))
mem-listed-run_example = mem-listed-run (arm ∷ []) "bank_a"

listed-enqueue_example :
    listed "bank_a" (enqueue "appr_2" 11 "act_2" "bank_a" none 1 none opened).1
    ≡ listed "bank_a" opened ++ "act_2" ∷ []
unfolding run enqueue find fits fits_optional Dict.get Dict.put Dict.push distinct mem
listed-enqueue_example =
    listed-enqueue "appr_2" 11 "act_2" "bank_a" none 1 none opened
      (record armed_row {
        id = "appr_2";
        action_id = "act_2";
        required_approvals = 1;
        eligible_approvers = none;
        enqueued_at = 11;
      })
      "bank_a" (run-IsValid (arm ∷ [])) refl refl
