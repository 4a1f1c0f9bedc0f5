-- ===== src/Orchestrator/Planner/Reading.antt =====
-- Which answers of the model are read as a proposal, and what is read from them.
use penny_core.Prelude.{
  ◌≡◌, ◌≢◌, refl, ap, String, Option, none, some, [], ◌⊎◌, inl, inr, arith, Option-cases,
  Bool-cases, string_eq, eq_iff, if◌then◌else◌, ◌==◌,
}
use penny_core.Dict
use penny_core.Dict.{get-put}
use penny_core.Contracts.Json.{Payload, Value, Fields, text, number, bool, null, obj, arr}
use penny_core.Contracts.Texts.{is_blank}
use penny_core.Contracts.Actions.{
  ActionType, action_value, send_borrower_message, notify_loan_officer, schedule_call,
  request_document, update_status, no_op,
}
use penny_core.Orchestrator.Planner.Parsing.{
  action_of, of_fields, stated_action, stated_payload, with_reasoning, read_answer,
}

abbrev pub first_of : Option Value → Option Value → Option Value
first_of none other = other
first_of (some v) other = some v

-- The reasoning that an answer gives, if it is a text that is not empty.
abbrev pub reasoning_of : Payload → Option Value
reasoning_of answer = elim (Dict.get answer "reasoning") [
  | some (text reasoning) ↦ if is_blank reasoning then none else some (text reasoning)
  | _ ↦ none
]

abbrev pub IsNoDict : Value → Type 0
IsNoDict v = (fields : Fields) → v ≢ obj fields

-- An answer whose action type is no value of the enum, or whose payload is there and is no dict.
abbrev pub IsUnusable : Payload → Type 0
IsUnusable answer =
    ((k : ActionType) → Dict.get answer "action_type" ≢ some (text (action_value k)))
    ⊎ (v : Value) × (Dict.get answer "payload" ≡ some v) × IsNoDict v

-- The payload that an answer states; none is an empty one.
abbrev pub States : Payload → Payload → Type 0
States answer payload =
    ((Dict.get answer "payload" ≡ none) × (payload ≡ []))
    ⊎ (fields : Fields) × (Dict.get answer "payload" ≡ some (obj fields))
      × (payload ≡ of_fields fields [])

-- The action type and the payload that are read from an answer.
pub record IsRead (answer : Payload) (kind : ActionType) (payload : Payload) : Type 0 where
  pub action : Dict.get answer "action_type" ≡ some (text (action_value kind))
  pub stated : Payload
  pub states : States answer stated
  pub reasoned :
      (k : String)
      → Dict.get payload k ≡ (
          if "_planner_reasoning" == k
          then first_of (Dict.get stated k) (reasoning_of answer)
          else Dict.get stated k)

action_of-value : (k : ActionType) → action_of (action_value k) ≡ some k
unfolding action_of action_value
action_of-value send_borrower_message = refl
action_of-value notify_loan_officer = refl
action_of-value schedule_call = refl
action_of-value request_document = refl
action_of-value update_status = refl
action_of-value no_op = refl

value-action_of : (s : String) (k : ActionType) → action_of s ≡ some k → s ≡ action_value k
unfolding action_of action_value
value-action_of s k h = ground (
  arith,
  h,
  eq_iff s "send_borrower_message",
  eq_iff s "notify_loan_officer",
  eq_iff s "schedule_call",
  eq_iff s "request_document",
  eq_iff s "update_status",
  eq_iff s "no_op",
)

stated_action-cases :
    (answer : Payload)
    → ((stated_action answer ≡ none)
        × ((k : ActionType) → Dict.get answer "action_type" ≢ some (text (action_value k))))
      ⊎ (k : ActionType) × (stated_action answer ≡ some k)
        × (Dict.get answer "action_type" ≡ some (text (action_value k)))
unfolding stated_action
stated_action-cases answer = elim (Option-cases (Dict.get answer "action_type")) [
  | inl missing ↦ inl (ground (arith, missing), λ k h. cc (missing, h))
  | inr (text s, there) ↦ elim (Option-cases (action_of s)) [
    | inl unknown ↦ inl (
      ground (arith, there, unknown),
      λ k h. ground (arith, there, h, unknown, action_of-value k),
    )
    | inr (k, known) ↦
        inr (k, ground (arith, there, known), ground (arith, there, value-action_of s k known))
  ]
  | inr (number n, there) ↦ inl (ground (arith, there), λ k h. cc (there, h))
  | inr (bool c, there) ↦ inl (ground (arith, there), λ k h. cc (there, h))
  | inr (null, there) ↦ inl (ground (arith, there), λ k h. cc (there, h))
  | inr (obj fields, there) ↦ inl (ground (arith, there), λ k h. cc (there, h))
  | inr (arr items, there) ↦ inl (ground (arith, there), λ k h. cc (there, h))
]

stated_payload-cases :
    (answer : Payload)
    → ((stated_payload answer ≡ none)
        × (v : Value) × (Dict.get answer "payload" ≡ some v)
        × IsNoDict v)
      ⊎ (stated : Payload) × (stated_payload answer ≡ some stated) × States answer stated
unfolding stated_payload
stated_payload-cases answer = elim (Option-cases (Dict.get answer "payload")) [
  | inl missing ↦ inr ([], ground (arith, missing), inl (missing, refl))
  | inr (obj fields, there) ↦
      inr (of_fields fields [], ground (arith, there), inr (fields, there, refl))
  | inr (text s, there) ↦ inl (ground (arith, there), text s, there, λ f h. cc h)
  | inr (number n, there) ↦ inl (ground (arith, there), number n, there, λ f h. cc h)
  | inr (bool c, there) ↦ inl (ground (arith, there), bool c, there, λ f h. cc h)
  | inr (null, there) ↦ inl (ground (arith, there), null, there, λ f h. cc h)
  | inr (arr items, there) ↦ inl (ground (arith, there), arr items, there, λ f h. cc h)
]

get-with_reasoning :
    (answer stated : Payload) (k : String)
    → Dict.get (with_reasoning answer stated) k ≡ (
        if "_planner_reasoning" == k
        then first_of (Dict.get stated k) (reasoning_of answer)
        else Dict.get stated k)
unfolding with_reasoning
get-with_reasoning answer stated k =
    let key : String = "_planner_reasoning" in
    let moved : key ≡ k → Dict.get stated key ≡ Dict.get stated k = λ p. ap (Dict.get stated) p in
    elim (Option-cases (Dict.get answer "reasoning")) [
      | inr (text r, there) ↦ elim (Bool-cases (key == k)) [
        | inl same ↦
            ground
              (arith, there, get-put stated key k (text r), same, moved ((eq_iff key k).0 same))
        | inr other ↦ ground (arith, there, get-put stated key k (text r), other)
      ]
      | inr (_, there) ↦ ground (arith, there)
      | inl missing ↦ ground (arith, missing)
    ]

-- An answer is unusable, or it is read as a proposal.
pub read_answer-cases :
    (answer : Payload)
    → (IsUnusable answer × (read_answer answer ≡ none))
      ⊎ (kind : ActionType) × (payload : Payload) × (read_answer answer ≡ some (kind, payload))
        × IsRead answer kind payload
unfolding read_answer
read_answer-cases answer = elim (stated_action-cases answer) [
  | inl (unread, unknown) ↦ inl (inl unknown, ground (arith, unread))
  | inr (kind, read, action) ↦ elim (stated_payload-cases answer) [
    | inl (unread, v, there, other) ↦ inl (inr (v, there, other), ground (arith, read, unread))
    | inr (stated, found, states) ↦ inr (
      kind,
      with_reasoning answer stated,
      ground (arith, read, found),
      record {
        action = action;
        stated = stated;
        states = states;
        reasoned = get-with_reasoning answer stated;
      },
    )
  ]
]
