-- ===== src/Orchestrator/Pipeline/Tests.antt =====
-- Runs of the pipeline: an event that needs one approval, its vote and its redelivery.
use penny_core.Prelude.{
  map, ◌≤◌, ◌≡◌, ◌≢◌, refl, ap, ◌∙◌, eq_iff, inl, true, false, String, some, none, [], ◌∷◌,
  distinct, mem, string_eq, nat_eq,
}
use penny_core.Dict
use penny_core.Exec.{ok, err, action_not_found, approval_state, validation_error}
use penny_core.Contracts.{fits, fits_optional}
use penny_core.Contracts.Json.{Payload, text, obj, field, end, to_fields}
use penny_core.Contracts.Actions.{
  action_type_beq, schedule_call, no_op, Action, ActionProposal, llm, executed, pending_approval,
  executed,
}
use penny_core.Contracts.Policies.{auto, approval_required, ApprovalRule, approved}
use penny_core.Orchestrator.Approval.{find, approve}
use penny_core.Orchestrator.Approval.Invariant.{all_eligible, Tally}
use penny_core.Orchestrator.Executor.{default_executors, mock_schedule_call}
use penny_core.Orchestrator.Pipeline.Defs.{
  Config, Env, Pipeline, empty_pipeline, fresh_action, action_fits, entry_fits, log_entry,
}
use penny_core.Orchestrator.Pipeline.Store
use penny_core.Orchestrator.Pipeline.Methods.{
  handle_proposal, approve_action, reject_action, get_action, is_approved, audit_for_action,
}
use penny_core.Orchestrator.Pipeline.Views.{stored, trail, row}
use penny_core.Orchestrator.Pipeline.Trail.{unborn, at, replay}
use penny_core.Orchestrator.Pipeline.Tenants.{foreign_actions_unknown}
use penny_core.Orchestrator.Pipeline.Handling.{
  IsReady, IsHandled, handle_proposal-IsHandled, redelivery_idempotent,
}
use penny_core.Orchestrator.Pipeline.History.{
  handles, approves, Reachable, started, later, reachable-IsSound, audit_tells_status,
  no_action_left_halfway, Rests, run_needs_quorum,
}
use penny_core.Orchestrator.Pipeline.Once.{runs, at_most_one_run}
use penny_core.Orchestrator.Pipeline.Pending.{list_pending_actions_complete}
use penny_core.Orchestrator.Approval.Listing.{All, listed}
use penny_core.Orchestrator.Pipeline.Methods.{list_pending_actions}
use penny_core.Orchestrator.Pipeline.Stranded.{unrecorded_vote_strands}

abbrev policy : Config
policy = record {
  decide = λ tenant_id action_type. approval_required;
  table = default_executors (λ v. "");
}

abbrev env : Env
env = record { new_action_id = "act_1"; new_queue_id = "appr_1"; now = λ r. 10 }

abbrev proposal : ActionProposal
proposal = record {
  id = "prop_1";
  tenant_id = "bank_a";
  event_id = "evt_1";
  customer_id = none;
  action_type = schedule_call;
  proposed_by = llm;
  payload = [];
  created_at = 5;
}

abbrev opened : Pipeline
opened = (handle_proposal policy env proposal empty_pipeline).1

abbrev voted : Pipeline
voted = (approve_action policy env "act_1" "ann" (some "bank_a") opened).1

ready : IsReady env proposal empty_pipeline
unfolding fresh_action action_fits fits fits_optional stored Dict.get
ready = record { fit = refl; queue_id = refl; unused = refl }

history : Reachable opened
history = later started (handles policy env proposal empty_pipeline ready)

voted_history : Reachable voted
voted_history = later history (approves policy env "act_1" "ann" (some "bank_a") opened)

abbrev waiting_action : Action
waiting_action = record (fresh_action env proposal) { status = pending_approval }

abbrev payload : Payload
payload =
    (
      "_executed_payload",
      obj (field "channel" (text "voice") (field "scheduled_for" (text "next available slot") end)),
    )
    ∷ []

abbrev done_action : Action
done_action = record (fresh_action env proposal) {
  status = executed;
  executed_at = some 10;
  payload = payload;
}

opened_action : stored "act_1" opened ≡ some waiting_action
unfolding handle_proposal stored Dict.get Dict.put fresh_action action_fits fits fits_optional
    entry_fits log_entry Store.put
opened_action = refl

voted_action : stored "act_1" voted ≡ some done_action
unfolding handle_proposal approve_action mock_schedule_call default_executors stored Dict.get
    Dict.put fresh_action action_fits fits fits_optional entry_fits log_entry Store.put
    action_type_beq to_fields
voted_action = refl

abbrev done_row : ApprovalRule
done_row = record {
  id = "appr_1";
  tenant_id = "bank_a";
  action_id = "act_1";
  state = approved;
  assigned_to = none;
  required_approvals = 1;
  eligible_approvers = none;
  approvals = "ann" ∷ [];
  enqueued_at = 10;
  decided_at = some 10;
  decided_by = some "ann";
  decision_note = none;
  row_version = 2;
}

row_after_vote : row "act_1" voted ≡ some done_row
unfolding handle_proposal approve_action mock_schedule_call default_executors stored Dict.get
    Dict.put fresh_action action_fits fits fits_optional entry_fits log_entry Store.put
    action_type_beq to_fields row find mem
row_after_vote = refl

audit_tells_status_example : replay unborn (audit_for_action "act_1" voted) ≡ at executed
audit_tells_status_example = audit_tells_status voted voted_history "act_1" done_action voted_action

no_action_left_halfway_example : Rests executed (row "act_1" voted)
no_action_left_halfway_example =
    no_action_left_halfway voted voted_history "act_1" done_action voted_action

run_needs_quorum_example :
    (approved ≡ approved)
    × (distinct {A = String} ("ann" ∷ []) ≡ true)
    × (all_eligible none ("ann" ∷ []) ≡ true)
    × Tally approved 1 1
run_needs_quorum_example =
    run_needs_quorum voted voted_history "act_1" done_action voted_action done_row row_after_vote
      (inl refl)

handle_proposal-IsHandled_example :
    IsHandled proposal (handle_proposal policy env proposal empty_pipeline)
handle_proposal-IsHandled_example =
    handle_proposal-IsHandled policy env proposal empty_pipeline (reachable-IsSound started) ready

at_most_one_run_example : runs (audit_for_action "act_1" voted) ≤ 1
at_most_one_run_example = at_most_one_run voted voted_history "act_1" done_action voted_action

list_pending_actions_complete_example :
    (map (λ (x : Action). x.id) (list_pending_actions "bank_a" opened)
      ≡ listed "bank_a" opened.queue)
    × All (λ (x : Action). x.status ≡ pending_approval) (list_pending_actions "bank_a" opened)
list_pending_actions_complete_example = list_pending_actions_complete opened history "bank_a"

-- The event again, with a new proposal and under a policy that would run it at once.
abbrev redelivered : ActionProposal
redelivered = record proposal { id = "prop_2"; action_type = no_op }

abbrev lax : Config
lax = record policy { decide = λ tenant_id action_type. auto }

redelivery_idempotent_example :
    handle_proposal lax env redelivered opened ≡ handle_proposal policy env proposal empty_pipeline
redelivery_idempotent_example =
    redelivery_idempotent policy lax env env proposal redelivered empty_pipeline
      (reachable-IsSound started) ready refl refl

different_banks : ◌≢◌ {A = String} "bank_a" "bank_b"
different_banks = λ p. cc ((eq_iff "bank_a" "bank_b").1 p)

not_of_bank_b :
    (action : Action) → stored "act_1" opened ≡ some action → action.tenant_id ≢ "bank_b"
unfolding fresh_action
not_of_bank_b action h = λ p.
    let same : waiting_action ≡ action = cc (opened_action, h) in
    different_banks (ap (λ (x : Action). x.tenant_id) same ∙ p)

foreign_actions_unknown_example :
    (get_action "act_1" (some "bank_b") opened ≡ err action_not_found)
    × (approve_action policy env "act_1" "eve" (some "bank_b") opened
        ≡ (err action_not_found, opened))
    × (reject_action env "act_1" "no" "eve" (some "bank_b") opened ≡ (err action_not_found, opened))
foreign_actions_unknown_example =
    foreign_actions_unknown "act_1" "bank_b" opened not_of_bank_b policy env "no" "eve"

abbrev long_name : String
long_name =
    "aaaaaaaaaaaaaaaaaaaaaaaaaaaaaaaaaaaaaaaaaaaaaaaaaaaaaaaaaaaaaaaaaaaaaaaaaaaaaaaaaaaaaaaaaaaaaaaaaaaaaaaaaaaaaaaaaaaaaaaaaaaaaaaaa"

abbrev long_row : ApprovalRule
long_row = record done_row { approvals = long_name ∷ []; decided_by = some long_name }

opened_read : get_action "act_1" (some "bank_a") opened ≡ ok waiting_action
unfolding get_action handle_proposal stored Dict.get Dict.put fresh_action action_fits fits
    fits_optional entry_fits log_entry Store.put
opened_read = refl

long_vote : (approve "act_1" (some long_name) 10 opened.queue).0 ≡ ok long_row
unfolding approve handle_proposal stored Dict.get Dict.put fresh_action action_fits fits
    fits_optional entry_fits log_entry Store.put mem
long_vote = refl

long_approved : is_approved approved ≡ true
unfolding is_approved
long_approved = refl

too_long : fits_optional 128 (some long_name) ≡ false
unfolding fits_optional
too_long = refl

unrecorded_vote_strands_example :
    (after : Pipeline) × (approve_action policy env "act_1" long_name (some "bank_a") opened
      ≡ (err validation_error, after))
    × (stored "act_1" after ≡ some waiting_action)
    × (trail "act_1" after ≡ trail "act_1" opened)
    × ((again : Config) (next : Env) (who : String)
        → approve_action again next "act_1" who (some "bank_a") after ≡ (err approval_state, after))
    × ((next : Env) (reason who : String)
        → reject_action next "act_1" reason who (some "bank_a") after ≡ (err approval_state, after))
unrecorded_vote_strands_example =
    unrecorded_vote_strands policy env "act_1" long_name (some "bank_a") opened waiting_action
      long_row (reachable-IsSound history) opened_read long_vote long_approved too_long
