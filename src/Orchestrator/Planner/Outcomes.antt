-- ===== src/Orchestrator/Planner/Outcomes.antt =====
-- What may become of an envelope: the model's proposal, that of the rule table, or an error of
-- `json.loads` that nobody catches.
use penny_core.Prelude.{
  ℕ, ◌≡◌, String, Bool, true, false, Option, none, some, List, [], ◌∷◌, ◌⊎◌, string_eq,
  if◌then◌else◌, ◌==◌, get_or,
}
use penny_core.Dict
use penny_core.Dict.{Dict, get-put}
use penny_core.Exec.{Exn, Result, ok, err}
use penny_core.Contracts.{fits, fits_optional}
use penny_core.Contracts.Json.{Payload, Value, Fields, text, null, obj, arr}
use penny_core.Contracts.Texts.{is_blank}
use penny_core.Contracts.Actions.{
  ActionType, send_borrower_message, notify_loan_officer, update_status, no_op, ActionProposal,
  ProposedBy, llm, fallback,
}
use penny_core.Orchestrator.Planner.{value_at, as_optional_text, text_items}
use penny_core.Orchestrator.Planner.Parsing.{Answers, clean, of_fields, is_decode_error}
use penny_core.Orchestrator.Planner.Reading.{first_of, IsNoDict, IsUnusable, IsRead}

-- An envelope as the event bus makes it, whose fields fit a proposal.
pub record IsEnvelope (envelope : Payload) (t e : String) (c : Option String) (event_type : String)
    : Type 0 where
  pub tenant : Dict.get envelope "tenant_id" ≡ some (text t)
  pub event : Dict.get envelope "event_id" ≡ some (text e)
  pub customer : as_optional_text (value_at envelope "customer_id" null) ≡ some c
  pub typed : Dict.get envelope "event_type" ≡ some (text event_type)
  pub tenant_fits : fits 64 t ≡ true
  pub event_fits : fits 64 e ≡ true
  pub customer_fits : fits_optional 64 c ≡ true

-- The rule table; any other event type is escalated to a loan officer.
abbrev pub documented_rules : Dict String ActionType
documented_rules =
    ("message_received", send_borrower_message)
    ∷ ("document_uploaded", update_status)
    ∷ ("status_changed", notify_loan_officer)
    ∷ ("anomaly_detected", notify_loan_officer)
    ∷ ("system_event", no_op)
    ∷ []

-- The sanitiser's flags as a payload holds them.
abbrev pub flags_value : List String → Option Value
flags_value [] = none
flags_value (f ∷ flags) = some (arr (text_items (f ∷ flags)))

-- A proposal for the envelope's event, by `by`.
pub record IsFor (new_id : String) (now : ℕ) (t e : String) (c : Option String) (by : ProposedBy)
    (p : ActionProposal) : Type 0 where
  pub id : p.id ≡ new_id
  pub tenant_id : p.tenant_id ≡ t
  pub event_id : p.event_id ≡ e
  pub customer_id : p.customer_id ≡ c
  pub created_at : p.created_at ≡ now
  pub proposed_by : p.proposed_by ≡ by

-- A proposal of the rule table, which says why it was made.
pub record IsFallback (event_type : String) (flags : List String) (p : ActionProposal)
    : Type 0 where
  pub action : p.action_type ≡ get_or notify_loan_officer (Dict.get documented_rules event_type)
  pub flagged : Dict.get p.payload "_injection_flags" ≡ flags_value flags
  pub reason : String
  pub reasoned : Dict.get p.payload "_planner_reasoning" ≡ some (text reason)

-- The proposal that the object `answer` of the model states.
pub record IsStated (answer : Payload) (flags : List String) (p : ActionProposal) : Type 0 where
  pub payload : Payload
  pub read : IsRead answer p.action_type payload
  pub flagged :
      (k : String)
      → Dict.get p.payload k ≡ (
          if "_injection_flags" == k
          then first_of (flags_value flags) (Dict.get payload k)
          else Dict.get payload k)

-- An answer that is no proposal: it is empty, no JSON, no object, or an object that is unusable.
abbrev pub IsRefused : Answers → String → Type 0
IsRefused answers raw =
    (is_blank raw ≡ true)
    ⊎ ((x : Exn) × (answers.json_loads (clean answers raw) ≡ err x) × (is_decode_error x ≡ true))
    ⊎ ((v : Value) × (answers.json_loads (clean answers raw) ≡ ok v) × IsNoDict v)
    ⊎ (fields : Fields) × (answers.json_loads (clean answers raw) ≡ ok (obj fields))
      × IsUnusable (of_fields fields [])

-- `json.loads` raises something else than a JSONDecodeError.
abbrev pub Escapes : Answers → String → Exn → Type 0
Escapes answers raw x =
    (is_blank raw ≡ false)
    × (answers.json_loads (clean answers raw) ≡ err x)
    × (is_decode_error x ≡ false)

-- A call that ends with the rule table's proposal.
abbrev pub FallsBack :
    String
    → ℕ
    → String
    → String
    → Option String
    → String
    → List String
    → Result Exn ActionProposal
    → Type 0
FallsBack new_id now t e c event_type flags r =
    (p : ActionProposal) × (r ≡ ok p)
    × IsFor new_id now t e c fallback p
    × IsFallback event_type flags p

-- A call that ends with the proposal that the model's answer states.
abbrev pub FollowsModel :
    String
    → ℕ
    → String
    → String
    → Option String
    → Answers
    → String
    → List String
    → Result Exn ActionProposal
    → Type 0
FollowsModel new_id now t e c answers raw flags r =
    (fields : Fields) × (p : ActionProposal) × (r ≡ ok p)
    × (answers.json_loads (clean answers raw) ≡ ok (obj fields))
    × IsFor new_id now t e c llm p
    × IsStated (of_fields fields []) flags p

-- What a call of the model that raised or returned leads to.
abbrev pub Follows :
    String
    → ℕ
    → String
    → String
    → Option String
    → String
    → Answers
    → List String
    → Result Exn String
    → Result Exn ActionProposal
    → Type 0
Follows new_id now t e c event_type answers flags (err x) r =
    FallsBack new_id now t e c event_type flags r
Follows new_id now t e c event_type answers flags (ok raw) r =
    (IsRefused answers raw × FallsBack new_id now t e c event_type flags r)
    ⊎ ((x : Exn) × Escapes answers raw x × (r ≡ err x))
    ⊎ FollowsModel new_id now t e c answers raw flags r

-- How a call of `propose_action` that began at `w` ends, where the model was asked by `asked`.
abbrev pub Proposes :
    {W : Type 0}
    → String
    → ℕ
    → String
    → String
    → Option String
    → String
    → Answers
    → List String
    → Bool
    → W
    → Result Exn String × W
    → Result Exn ActionProposal × W
    → Type 0
Proposes new_id now t e c event_type answers flags is_mock w asked (r, after) =
    ((is_mock ≡ true) × FallsBack new_id now t e c event_type flags r × (after ≡ w))
    ⊎ ((is_mock ≡ false)
        × Follows new_id now t e c event_type answers flags asked.0 r
        × (after ≡ asked.1))
