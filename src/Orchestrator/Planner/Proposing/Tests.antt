-- ===== src/Orchestrator/Planner/Proposing/Tests.antt =====
-- An envelope for a model that answers, and whose answer parses.
use penny_core.Prelude.{ℕ, ◌+◌, ◌≡◌, refl, true, false, none, [], ◌∷◌, string_eq}
use penny_core.Dict
use penny_core.Exec.{ok, err, recursion_error}
use penny_core.Contracts.{fits, fits_optional}
use penny_core.Contracts.Json.{Payload, text, null, obj, end, field, truthy}
use penny_core.Contracts.Texts.Ascii.{ascii}
use penny_core.Orchestrator.Planner.{Client, Prompts, propose_action, from_answer}
use penny_core.Orchestrator.Planner.Parsing.{Answers, parse_llm_response, read_loaded}
use penny_core.Orchestrator.Planner.Outcomes.{IsEnvelope, Proposes}
use penny_core.Orchestrator.Planner.Proposing.{propose_action_lem}

abbrev prompts : Prompts
prompts = record {
  repr = λ v. "'status_changed'";
  str = λ v. "status_changed";
  sanitize_for_prompt = λ brief. (brief, "ROLE_OVERRIDE" ∷ []);
}

abbrev answers : Answers
answers = record {
  texts = ascii;
  splitlines = λ s. s ∷ [];
  join_lines = λ lines. "";
  json_loads = λ s. ok (obj (field "action_type" (text "no_op") end));
}

abbrev client : Client ℕ
client = record { is_mock = false; call = λ prompt n. (ok "{}", n + 1) }

abbrev envelope : Payload
envelope =
    ("event_id", text "evt_1")
    ∷ ("tenant_id", text "bank_a")
    ∷ ("customer_id", null)
    ∷ ("event_type", text "status_changed")
    ∷ []

envelope-IsEnvelope : IsEnvelope envelope "bank_a" "evt_1" none "status_changed"
unfolding Dict.get fits fits_optional
envelope-IsEnvelope = record {
  tenant = refl;
  event = refl;
  customer = refl;
  typed = refl;
  tenant_fits = refl;
  event_fits = refl;
  customer_fits = refl;
}

new_id_fits : fits 64 "prop_1" ≡ true
unfolding fits
new_id_fits = refl

propose_action_lem_example :
    Proposes "prop_1" 9 "bank_a" "evt_1" none "status_changed" answers
      ("ROLE_OVERRIDE" ∷ [])
      false
      0
      (ok "{}", 1)
      (propose_action prompts "prop_1" 9 answers client
        (record { envelope = envelope; brief_text = "Brief." })
        0)
propose_action_lem_example =
    propose_action_lem prompts "prop_1" 9 new_id_fits envelope "bank_a" "evt_1" none
      "status_changed" envelope-IsEnvelope answers client "Brief." 0

-- An answer that is nested too deeply for `json.loads`.
abbrev too_deep : Answers
too_deep = record answers { json_loads = λ s. err recursion_error }

deep_answer_raises :
    propose_action prompts "prop_1" 9 too_deep client
      (record { envelope = envelope; brief_text = "Brief." })
      0
    ≡ (err recursion_error, 1)
unfolding propose_action from_answer parse_llm_response read_loaded truthy Dict.get
deep_answer_raises = refl
