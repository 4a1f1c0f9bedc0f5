-- ===== src/Orchestrator/Planner.antt =====
-- orchestrator/planner.py: from an event's envelope to a proposal, by the language model or by the
-- rule table, and the handlers of the listener.
pub mod Parsing
pub mod Reading
pub mod Outcomes
pub mod Answering
pub mod Proposing
use Prim.Native.String.{◌++◌}
use penny_core.Prelude.{
  ℕ, String, Bool, true, false, not, Option, none, some, List, [], ◌∷◌, ◌==◌, string_eq, nat_beq,
  is_some, ◌&&◌, ◌||◌, if◌then◌else◌, length,
}
use penny_core.Dict
use penny_core.Dict.{Dict}
use penny_core.Exec.{Exn, Result, ok, err, Exec, value_error, validation_error, type_error}
use penny_core.Contracts.Texts.{is_blank}
use penny_core.Contracts.{fits, fits_optional}
use penny_core.Contracts.Json.{Payload, Value, Items, text, null, obj, arr, nil, cons, truthy}
use penny_core.Contracts.Actions.{
  ActionType, send_borrower_message, notify_loan_officer, update_status, no_op, ActionProposal,
  ProposedBy, llm, fallback,
}
use penny_core.Rings.{Ring, append, newest}
use Parsing.{Answers, parse_llm_response}

pub record PlanRequest : Type 0 where
  pub envelope : Payload
  pub brief_text : String

-- `_FALLBACK_RULES` and `_FALLBACK_DEFAULT`
unfoldable pub rule_for_event : String → Option ActionType
rule_for_event event_type =
    if event_type == "message_received"
    then some send_borrower_message
    else if event_type == "document_uploaded"
    then some update_status
    else if event_type == "status_changed"
    then some notify_loan_officer
    else if event_type == "anomaly_detected"
    then some notify_loan_officer
    else if event_type == "system_event"
    then some no_op
    else none

abbrev pub or_default : Option ActionType → ActionType
or_default none = notify_loan_officer
or_default (some k) = k

-- The rule for the value of `event_type`, and whether it is in the table; a dict or a list is a
-- TypeError, since it is no key.
unfoldable pub lookup_rule : Value → Result Exn (Option ActionType)
unfolding rule_for_event
lookup_rule (text s) = ok (rule_for_event s)
lookup_rule (obj _) = err type_error
lookup_rule (arr _) = err type_error
lookup_rule _ = ok none

-- A wrapped client: whether it is the mock one, and its call, which may raise.
pub record Client (W : Type 0) : Type 0 where
  pub is_mock : Bool
  pub call : String → Exec W String

-- `repr` and `str` of a value, and the sanitiser of context_engine/safety, with its flags.
pub record Prompts : Type 0 where
  pub repr : Value → String
  pub str : Value → String
  pub sanitize_for_prompt : String → String × List String

abbrev pub text_items : List String → Items
text_items [] = nil
text_items (s ∷ ss) = cons (text s) (text_items ss)

-- The flags in a payload, if there are any.
unfoldable pub with_flags : List String → Payload → Payload
with_flags [] payload = payload
with_flags (f ∷ flags) payload = Dict.put payload "_injection_flags" (arr (text_items (f ∷ flags)))

-- `envelope.get(key, default)`
abbrev pub value_at : Payload → String → Value → Value
value_at envelope key default = elim (Dict.get envelope key) [ none ↦ default | some v ↦ v ]

-- A field of type `str`; any other value is refused by Pydantic.
abbrev pub as_text : Value → Option String
as_text (text s) = some s
as_text _ = none

-- A field of type `str | None`
abbrev pub as_optional_text : Value → Option (Option String)
as_optional_text (text s) = some (some s)
as_optional_text null = some none
as_optional_text _ = none

-- The fields of a proposal that come from the envelope.
abbrev pub checked :
    String
    → ℕ
    → Option String
    → Option String
    → Option (Option String)
    → ActionType
    → ProposedBy
    → Payload
    → Result Exn ActionProposal
checked new_id now (some t) (some e) (some c) kind by payload =
    if fits 64 new_id && fits 64 t && fits 64 e && fits_optional 64 c
    then ok (record {
      id = new_id;
      tenant_id = t;
      event_id = e;
      customer_id = c;
      action_type = kind;
      proposed_by = by;
      payload = payload;
      created_at = now;
    })
    else err validation_error
checked new_id now _ _ _ kind by payload = err validation_error

-- `ActionProposal(...)`
unfoldable pub new_proposal :
    String → ℕ → Payload → ActionType → ProposedBy → Payload → Result Exn ActionProposal
new_proposal new_id now envelope kind by payload =
    checked new_id now (as_text (value_at envelope "tenant_id" null))
      (as_text (value_at envelope "event_id" null))
      (as_optional_text (value_at envelope "customer_id" null)) kind by payload

abbrev concat : List String → String
concat [] = ""
concat (s ∷ ss) = s ++ concat ss

unfoldable pub format_user_prompt : Prompts → Payload → String → String
format_user_prompt prompts envelope brief =
    let customer = value_at envelope "customer_id" null in
    let brief_block =
      if is_blank brief
      then "Customer brief: (no brief available — customer not yet linked or brief lookup failed)\n"
      else "Customer brief:\n" ++ (brief ++ "\n") in
    concat (
      "Event:\n  event_id: "
      ∷ prompts.str (value_at envelope "event_id" null)
      ∷ "\n  tenant_id: "
      ∷ prompts.str (value_at envelope "tenant_id" null)
      ∷ "\n  customer_id: "
      ∷ (if truthy customer then prompts.str customer else "(unlinked)")
      ∷ "\n  channel_code: "
      ∷ prompts.str (value_at envelope "channel_code" null)
      ∷ "\n  event_type: "
      ∷ prompts.str (value_at envelope "event_type" null)
      ∷ "\n  received_at: "
      ∷ prompts.str (value_at envelope "received_at" null)
      ∷ "\n\n"
      ∷ brief_block
      ∷ "\nReturn ONE JSON object as instructed."
      ∷ [])

module _ (prompts : Prompts) (new_id : String) (now : ℕ) where
  -- The reason in the payload of a fallback proposal.
  unfoldable pub fallback_reason : Value → Option ActionType → String
  fallback_reason event_type (some k) =
      "rule-table fallback for event_type=" ++ prompts.repr event_type
  fallback_reason event_type none =
      "rule-table default (unknown event_type=" ++ (prompts.repr event_type ++ ", escalating)")

  unfoldable pub fallback_proposal : Payload → List String → Result Exn ActionProposal
  fallback_proposal envelope flags =
      let event_type = value_at envelope "event_type" (text "") in
      elim (lookup_rule event_type) [
        | err x ↦ err x
        | ok rule ↦
            new_proposal new_id now envelope (or_default rule) fallback (
              with_flags flags
                (("_planner_reasoning", text (fallback_reason event_type rule)) ∷ []))
      ]

  module _ (answers : Answers) where
    -- What follows the call of the model.
    unfoldable pub from_answer :
        Payload → List String → Result Exn String → Result Exn ActionProposal
    from_answer envelope flags (err x) = fallback_proposal envelope flags
    from_answer envelope flags (ok raw) = elim (parse_llm_response answers raw) [
      | err x ↦ err x
      | ok none ↦ fallback_proposal envelope flags
      | ok (some (kind, payload)) ↦
          new_proposal new_id now envelope kind llm (with_flags flags payload)
    ]

    unfoldable pub propose_action : {W : Type 0} → Client W → PlanRequest → Exec W ActionProposal
    propose_action client request w =
        let envelope = request.envelope in
        let (sanitized, flags) = prompts.sanitize_for_prompt request.brief_text in
        let (raw, w') = client.call (format_user_prompt prompts envelope sanitized) w in
        if not (truthy (value_at envelope "tenant_id" null))
          || not (truthy (value_at envelope "event_id" null))
        then (err value_error, w)
        else if client.is_mock
        then (fallback_proposal envelope flags, w)
        else (from_answer envelope flags raw, w')

-- `ProposalsBuffer.append`
unfoldable pub append_proposal : ℕ → ActionProposal → Ring ActionProposal → Ring ActionProposal
append_proposal max_per_tenant proposal ring =
    append max_per_tenant proposal.tenant_id proposal ring

-- `buf[-limit:]`, which is the whole list where the limit is zero
unfoldable pub recent_proposals : String → ℕ → Ring ActionProposal → List ActionProposal
recent_proposals tenant_id limit ring =
    let buf = Dict.get_list ring tenant_id in
    if nat_beq limit 0 then newest (length buf) buf else newest limit buf

-- The handler of `make_planning_handler`: what the planner or the pipeline raises is swallowed.
-- `handle` is the pipeline's `handle_proposal`, or does nothing where there is no pipeline.
unfoldable pub planning_handler :
    {W P : Type 0}
    → Prompts
    → Answers
    → ℕ
    → Client W
    → (ActionProposal → Exec P (Unit {0}))
    → String
    → ℕ
    → Payload
    → W × (Ring ActionProposal × P)
    → W × (Ring ActionProposal × P)
planning_handler prompts answers max_per_tenant client handle new_id now envelope (w, (ring, p)) =
    let request : PlanRequest = record { envelope = envelope; brief_text = "" } in
    let (proposed, w') = propose_action prompts new_id now answers client request w in
    elim proposed [
      | err x ↦ (w', (ring, p))
      | ok proposal ↦ (w', (append_proposal max_per_tenant proposal ring, (handle proposal p).1))
    ]

-- `chain_handlers`: a handler that raises does not stop the later ones.
unfoldable pub chain_handlers : {S : Type 0} → List (Payload → Exec S (Unit {0})) → Payload → S → S
chain_handlers [] envelope s = s
chain_handlers (h ∷ handlers) envelope s = chain_handlers handlers envelope (h envelope s).1
