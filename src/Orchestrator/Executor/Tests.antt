-- ===== src/Orchestrator/Executor/Tests.antt =====
-- The mock handler of a scheduled call.
use penny_core.Prelude.{◌≡◌, refl, some, none, [], ◌∷◌, string_eq}
use penny_core.Dict
use penny_core.Exec.{ok}
use penny_core.Contracts.Json.{text, obj, field, end, to_fields}
use penny_core.Contracts.Actions.{
  Action, schedule_call, pending_exec, executed, action_type_beq, action_type_eq,
}
use penny_core.Orchestrator.Executor.{HandlerTable, execute, default_executors, mock_schedule_call}

abbrev table : HandlerTable
table = default_executors (λ v. "")

abbrev call_action : Action
call_action = record {
  id = "act_1";
  tenant_id = "bank_a";
  proposal_id = "prop_1";
  event_id = "evt_1";
  customer_id = none;
  action_type = schedule_call;
  status = pending_exec;
  payload = ("scheduled_for", text "9am") ∷ [];
  created_at = 1;
  updated_at = 2;
  executed_at = none;
}

abbrev done_action : Action
done_action = record call_action {
  status = executed;
  updated_at = 7;
  executed_at = some 7;
  payload =
      ("scheduled_for", text "9am")
      ∷ (
        "_executed_payload",
        obj (field "channel" (text "voice") (field "scheduled_for" (text "9am") end)),
      )
      ∷ [];
}

call_runs : execute table 7 call_action ≡ ok done_action
unfolding execute default_executors mock_schedule_call Dict.get Dict.put to_fields action_type_beq
call_runs = refl
