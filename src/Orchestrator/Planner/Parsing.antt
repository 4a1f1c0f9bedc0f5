-- ===== src/Orchestrator/Planner/Parsing.antt =====
-- `_parse_llm_response` of orchestrator/planner.py.
use penny_core.Prelude.{
  String, Bool, true, false, not, Option, none, some, List, [], ◌∷◌, ◌==◌, ◌&&◌, string_eq,
  if◌then◌else◌,
}
use package.text.Mathlib.Text.{starts_with}
use penny_core.Dict
use penny_core.Exec.{Exn, Result, ok, err, json_decode_error}
use penny_core.Contracts.Json.{Payload, Value, Fields, text, obj, end, field}
use penny_core.Contracts.Texts.{Texts, is_blank, strip}
use penny_core.Contracts.Actions.{
  ActionType, send_borrower_message, notify_loan_officer, schedule_call, request_document,
  update_status, no_op,
}

-- What the parsing uses of Python: `strip`, `splitlines`, `"\n".join` and `json.loads`, which may
-- raise.
pub record Answers : Type 0 where
  pub texts : Texts
  pub splitlines : String → List String
  pub join_lines : List String → String
  pub json_loads : String → Result Exn Value

-- `ActionType(value)` where the value is one of `_VALID_ACTION_VALUES`
unfoldable pub action_of : String → Option ActionType
action_of s =
    if s == "send_borrower_message"
    then some send_borrower_message
    else if s == "notify_loan_officer"
    then some notify_loan_officer
    else if s == "schedule_call"
    then some schedule_call
    else if s == "request_document"
    then some request_document
    else if s == "update_status"
    then some update_status
    else if s == "no_op"
    then some no_op
    else none

-- A JSON object as a dict: of a key that comes twice the last value counts.
unfoldable pub of_fields : Fields → Payload → Payload
of_fields end payload = payload
of_fields (field k v fields) payload = of_fields fields (Dict.put payload k v)

-- The action type that an object names.
unfoldable pub stated_action : Payload → Option ActionType
unfolding action_of
stated_action answer = elim (Dict.get answer "action_type") [
  | some (text s) ↦ action_of s
  | _ ↦ none
]

-- The payload of an object, which is empty where it has none.
unfoldable pub stated_payload : Payload → Option Payload
stated_payload answer = elim (Dict.get answer "payload") [
  | none ↦ some []
  | some (obj fields) ↦ some (of_fields fields [])
  | some _ ↦ none
]

-- The payload with the reasoning, unless it has one.
unfoldable pub with_reasoning : Payload → Payload → Payload
with_reasoning answer payload = elim (Dict.get answer "reasoning") [
  | some (text reasoning) ↦
      if not (is_blank reasoning) && not (Dict.contains payload "_planner_reasoning")
      then Dict.put payload "_planner_reasoning" (text reasoning)
      else payload
  | _ ↦ payload
]

-- The action and the payload that an object states, if it states both.
unfoldable pub read_answer : Payload → Option (ActionType × Payload)
unfolding stated_action stated_payload with_reasoning
read_answer answer = elim (stated_action answer) [
  | none ↦ none
  | some kind ↦ elim (stated_payload answer) [
    | none ↦ none
    | some payload ↦ some (kind, with_reasoning answer payload)
  ]
]

-- `except json.JSONDecodeError`
abbrev pub is_decode_error : Exn → Bool
is_decode_error json_decode_error = true
is_decode_error _ = false

-- What follows `json.loads`: another error than a JSONDecodeError is not caught.
unfoldable pub read_loaded : Result Exn Value → Result Exn (Option (ActionType × Payload))
read_loaded (ok (obj fields)) = ok (read_answer (of_fields fields []))
read_loaded (ok _) = ok none
read_loaded (err x) = if is_decode_error x then ok none else err x

module _ (answers : Answers) where
  -- The lines before the closing fence.
  unfoldable pub before_fence : List String → List String
  before_fence [] = []
  before_fence (line ∷ lines) =
      let rest = line ∷ before_fence lines in
      if starts_with (strip answers.texts line) "```" then [] else rest

  abbrev pub rest_of : List String → List String
  rest_of [] = []
  rest_of (_ ∷ lines) = lines

  -- The text without a code fence around it.
  unfoldable pub clean : String → String
  unfolding before_fence
  clean raw =
      let cleaned = strip answers.texts raw in
      if starts_with cleaned "```"
      then strip answers.texts
          (answers.join_lines (before_fence (rest_of (answers.splitlines cleaned))))
      else cleaned

  unfoldable pub parse_llm_response : String → Result Exn (Option (ActionType × Payload))
  unfolding clean read_loaded
  parse_llm_response raw =
      if is_blank raw then ok none else read_loaded (answers.json_loads (clean raw))
