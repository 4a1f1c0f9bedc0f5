-- ===== src/Orchestrator/Executor.antt =====
-- `ActionExecutor` and the mock handlers of orchestrator/executor.py. A handler may raise; an
-- f-string of a value that is no text goes through Python's `str`, which is a parameter.
pub mod Outcome
mod Tests
use penny_core.Prelude.{
  ℕ, Bool, true, false, String, Option, none, some, List, [], ◌∷◌, ◌==◌, string_eq, get_or,
  if◌then◌else◌,
}
use Prim.Native.String.{◌++◌}
use penny_core.Dict
use penny_core.Dict.{Dict}
use penny_core.Exec.{Result, ok, err}
use penny_core.Contracts.Json.{
  Value, Fields, text, obj, number, bool, null, arr, Payload, to_fields, truthy,
}
use penny_core.Contracts.Actions.{
  ActionType, ActionStatus, Action, send_borrower_message, notify_loan_officer, schedule_call,
  request_document, update_status, no_op, action_value, action_type_eq, executed,
}

-- An exception as the pipeline records it: `type(exc).__name__` and `str(exc)`.
pub record Raised : Type 0 where
  pub kind : String
  pub message : String

abbrev pub Handler : Type 0
Handler = Action → Result Raised Value

abbrev pub HandlerTable : Type 0
HandlerTable = Dict ActionType Handler

-- `payload.get(key, default)`
abbrev pub get_default : Payload → String → Value → Value
get_default payload key default = get_or default (Dict.get payload key)

-- `payload.get(key) or default`
unfoldable pub get_truthy : Payload → String → Value → Value
get_truthy payload key default = elim (Dict.get payload key) [
  | none ↦ default
  | some v ↦ if truthy v then v else default
]

-- The dict that a handler returns.
abbrev dict_value : Payload → Result Raised Value
dict_value d = ok (obj (to_fields d))

module _ (str : Value → String) where
  -- What an f-string shows of a value.
  abbrev show : Value → String
  show (text s) = s
  show v = str v

  unfoldable pub mock_send_borrower_message : Handler
  mock_send_borrower_message action =
      let loan = show (get_default action.payload "loan_id" (text "(unknown)")) in
      let acknowledged = text ("Acknowledged: we received your message for loan " ++ loan ++ ".") in
      dict_value (
        ("channel", text "chat")
        ∷ ("recipient", text "borrower")
        ∷ ("message", get_truthy action.payload "message" acknowledged)
        ∷ [])

  unfoldable pub mock_notify_loan_officer : Handler
  mock_notify_loan_officer action =
      let flagged =
        get_default action.payload "_planner_reasoning"
          (text "Event flagged for loan-officer review.") in
      dict_value (
        ("channel", text "internal")
        ∷ ("recipient", text "loan_officer")
        ∷ ("reason", get_truthy action.payload "reason" flagged)
        ∷ [])

  unfoldable pub mock_schedule_call : Handler
  mock_schedule_call action = dict_value (
      ("channel", text "voice")
      ∷ ("scheduled_for", get_default action.payload "scheduled_for" (text "next available slot"))
      ∷ [])

  unfoldable pub mock_request_document : Handler
  mock_request_document action = dict_value (
      ("channel", text "email")
      ∷ ("recipient", text "borrower")
      ∷ ("document_type", get_default action.payload "document_type" (text "missing document"))
      ∷ [])

  unfoldable pub mock_update_status : Handler
  mock_update_status action = dict_value (
      ("channel", text "internal")
      ∷ ("new_status", get_default action.payload "new_status" (text "in_review"))
      ∷ [])

  unfoldable pub mock_no_op : Handler
  mock_no_op action = dict_value (("channel", text "noop") ∷ [])

  -- `DEFAULT_EXECUTORS`
  unfoldable pub default_executors : HandlerTable
  default_executors =
      (send_borrower_message, mock_send_borrower_message)
      ∷ (notify_loan_officer, mock_notify_loan_officer)
      ∷ (schedule_call, mock_schedule_call)
      ∷ (request_document, mock_request_document)
      ∷ (update_status, mock_update_status)
      ∷ (no_op, mock_no_op)
      ∷ []

  -- The table of a new executor: one that is missing or empty gives the default.
  unfoldable pub executor_table : Option HandlerTable → HandlerTable
  executor_table none = default_executors
  executor_table (some []) = default_executors
  executor_table (some (entry ∷ table)) = entry ∷ table

-- `f"{value!r}"` of an action type's value: its words hold no quote and no backslash.
abbrev quoted : ActionType → String
quoted k = "'" ++ action_value k ++ "'"

unfoldable pub no_executor : ActionType → Raised
no_executor k = record {
  kind = "ExecutionError";
  message = "no executor registered for action_type=" ++ quoted k;
}

-- `type(result).__name__` for the values of a payload.
unfoldable pub type_name : Value → String
type_name (text _) = "str"
type_name (number _) = "int"
type_name (bool _) = "bool"
type_name null = "NoneType"
type_name (obj _) = "dict"
type_name (arr _) = "list"

unfoldable pub not_a_dict : ActionType → Value → Raised
unfolding type_name
not_a_dict k v = record {
  kind = "ExecutionError";
  message = "executor for " ++ quoted k ++ " returned " ++ type_name v ++ ", expected dict";
}

-- The final `model_copy`, with the result merged into the payload.
unfoldable pub executed_action : ℕ → Value → Action → Action
executed_action now result action = record action {
  status = executed;
  executed_at = some now;
  updated_at = now;
  payload = Dict.put action.payload "_executed_payload" result;
}

-- `isinstance(result, dict)`, then the copy.
unfoldable pub finish : ℕ → Action → Value → Result Raised Action
unfolding executed_action not_a_dict
finish now action (obj fields) = ok (executed_action now (obj fields) action)
finish now action (text s) = err (not_a_dict action.action_type (text s))
finish now action (number n) = err (not_a_dict action.action_type (number n))
finish now action (bool b) = err (not_a_dict action.action_type (bool b))
finish now action null = err (not_a_dict action.action_type null)
finish now action (arr items) = err (not_a_dict action.action_type (arr items))

abbrev finish_call : ℕ → Action → Result Raised Value → Result Raised Action
finish_call now action (ok v) = finish now action v
finish_call now action (err raised) = err raised

-- `execute`; `now` is the clock when the handler has returned.
unfoldable pub execute : HandlerTable → ℕ → Action → Result Raised Action
unfolding finish no_executor
execute table now action = elim (Dict.get table action.action_type) [
  | none ↦ err (no_executor action.action_type)
  | some handler ↦ finish_call now action (handler action)
]
