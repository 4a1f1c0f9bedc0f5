-- ===== src/Orchestrator/Executor/Outcome.antt =====
-- What the executor returns.
use penny_core.Prelude.{ℕ, ◌≡◌, ◌≢◌, String, some, arith, string_eq, Option-cases, inl, inr}
use penny_core.Dict
use penny_core.Exec.{ok, Result-cases}
use penny_core.Contracts.Json.{
  Value, Fields, text, number, bool, null, obj, arr, Payload, to_fields,
}
use penny_core.Contracts.Actions.{
  Action, executed, action_type_eq, ActionType, send_borrower_message, notify_loan_officer,
  schedule_call, request_document, update_status, no_op,
}
use penny_core.Orchestrator.Executor.{
  Handler, HandlerTable, execute, finish, executed_action, default_executors,
}

-- A run of the action type's handler that returned a dict.
pub record IsRun (table : HandlerTable) (now : ℕ) (action done : Action) : Type 0 where
  pub handler : Handler
  pub fields : Fields
  pub registered : Dict.get table action.action_type ≡ some handler
  pub returned : handler action ≡ ok (obj fields)
  pub result : done ≡ executed_action now (obj fields) action

finish-IsRun :
    (table : HandlerTable) (now : ℕ) (action done : Action) (handler : Handler) (v : Value)
    → Dict.get table action.action_type ≡ some handler
    → handler action ≡ ok v
    → finish now action v ≡ ok done
    → IsRun table now action done
unfolding finish
finish-IsRun table now action done handler (obj fields) at made h = record {
  handler = handler;
  fields = fields;
  registered = at;
  returned = made;
  result = cc h;
}
finish-IsRun table now action done handler (text s) at made h = cc h
finish-IsRun table now action done handler (number n) at made h = cc h
finish-IsRun table now action done handler (bool b) at made h = cc h
finish-IsRun table now action done handler null at made h = cc h
finish-IsRun table now action done handler (arr items) at made h = cc h

pub execute-IsRun :
    (table : HandlerTable) (now : ℕ) (action done : Action)
    → execute table now action ≡ ok done
    → IsRun table now action done
unfolding execute
execute-IsRun table now action done h = elim (Option-cases (Dict.get table action.action_type)) [
  | inl missing ↦ ground arith
  | inr (handler, at) ↦ elim (Result-cases (handler action)) [
    | inl (v, made) ↦
        finish-IsRun table now action done handler v at made (ground (arith, h, at, made))
    | inr (x, raised) ↦ ground (arith, h, at, raised)
  ]
]

-- What a run changes of an action: the status, two times and one key of the payload.
pub record IsCompleted (now : ℕ) (result : Value) (action done : Action) : Type 0 where
  pub status : done.status ≡ executed
  pub executed_at : done.executed_at ≡ some now
  pub updated_at : done.updated_at ≡ now
  pub result_kept : Dict.get done.payload "_executed_payload" ≡ some result
  pub other_keys :
      (k : String) → "_executed_payload" ≢ k → Dict.get done.payload k ≡ Dict.get action.payload k
  pub id : done.id ≡ action.id
  pub tenant_id : done.tenant_id ≡ action.tenant_id
  pub proposal_id : done.proposal_id ≡ action.proposal_id
  pub event_id : done.event_id ≡ action.event_id
  pub customer_id : done.customer_id ≡ action.customer_id
  pub action_type : done.action_type ≡ action.action_type
  pub created_at : done.created_at ≡ action.created_at

-- The channel that an action of the type goes out on.
abbrev pub channel_of : ActionType → String
channel_of send_borrower_message = "chat"
channel_of notify_loan_officer = "internal"
channel_of schedule_call = "voice"
channel_of request_document = "email"
channel_of update_status = "internal"
channel_of no_op = "noop"

module _ (str : Value → String) where
  -- A dict that a default handler returns for a type.
  abbrev Dispatches : ActionType → Action → Type 0
  Dispatches k action =
      (handler : Handler) × (Dict.get (default_executors str) k ≡ some handler)
      × (d : Payload) × (handler action ≡ ok (obj (to_fields d)))
      × (Dict.get d "channel" ≡ some (text (channel_of k)))
