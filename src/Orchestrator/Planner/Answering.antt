-- ===== src/Orchestrator/Planner/Answering.antt =====
-- The parts of a proposal: the rule for the event, the flags, and what is parsed from an answer.
use penny_core.Prelude.{
  ℕ, ◌≡◌, refl, ap, String, true, false, none, some, List, [], ◌∷◌, ◌⊎◌, inl, inr, arith,
  Bool-cases, string_eq, eq_iff, beq_sym, if◌then◌else◌, ◌==◌, get_or,
}
use penny_core.Dict
use penny_core.Dict.{Dict, get-put}
use penny_core.Exec.{Exn, ok, err, Result-cases}
use penny_core.Contracts.{fits}
use penny_core.Contracts.Json.{Payload, Fields, text, number, bool, null, obj, arr, truthy}
use penny_core.Contracts.Texts.{is_blank}
use penny_core.Contracts.Actions.{ActionType, notify_loan_officer}
use penny_core.Orchestrator.Planner.{rule_for_event, or_default, with_flags, text_items}
use penny_core.Orchestrator.Planner.Parsing.{
  Answers, clean, of_fields, is_decode_error, read_loaded, parse_llm_response,
}
use penny_core.Orchestrator.Planner.Reading.{first_of, IsRead, read_answer-cases}
use penny_core.Orchestrator.Planner.Outcomes.{documented_rules, flags_value, IsRefused, Escapes}

empty_unfit : (n : ℕ) → fits n "" ≡ false
unfolding fits
empty_unfit n = refl

pub fits-nonempty : (n : ℕ) (s : String) → fits n s ≡ true → truthy (text s) ≡ true
unfolding truthy
fits-nonempty n s h = ground (arith, h, eq_iff s "", ap (fits n), empty_unfit n)

pub rule_for_event-documented :
    (s : String)
    → or_default (rule_for_event s) ≡ get_or notify_loan_officer (Dict.get documented_rules s)
unfolding rule_for_event Dict.get
rule_for_event-documented s = ground (
  arith,
  beq_sym s "message_received",
  beq_sym s "document_uploaded",
  beq_sym s "status_changed",
  beq_sym s "anomaly_detected",
  beq_sym s "system_event",
)

pub get-with_flags :
    (flags : List String) (payload : Payload) (k : String)
    → Dict.get (with_flags flags payload) k ≡ (
        if "_injection_flags" == k
        then first_of (flags_value flags) (Dict.get payload k)
        else Dict.get payload k)
unfolding with_flags
get-with_flags [] payload k = ground arith
get-with_flags (f ∷ flags) payload k =
    ground (arith, get-put payload "_injection_flags" k (arr (text_items (f ∷ flags))))

-- What is parsed from an answer, if anything is.
pub parse-cases :
    (answers : Answers) (raw : String)
    → (IsRefused answers raw × (parse_llm_response answers raw ≡ ok none))
      ⊎ ((x : Exn) × Escapes answers raw x × (parse_llm_response answers raw ≡ err x))
      ⊎ (fields : Fields) × (kind : ActionType) × (payload : Payload) × (answers.json_loads
            (clean answers raw)
          ≡ ok (obj fields))
        × (parse_llm_response answers raw ≡ ok (some (kind, payload)))
        × IsRead (of_fields fields []) kind payload
unfolding parse_llm_response read_loaded
parse-cases answers raw = elim (Bool-cases (is_blank raw)) [
  | inl blank ↦ inl (inl blank, ground (arith, blank))
  | inr filled ↦ elim (Result-cases (answers.json_loads (clean answers raw))) [
    | inr (x, raised) ↦ elim (Bool-cases (is_decode_error x)) [
      | inl caught ↦ inl (inr (inl (x, raised, caught)), ground (arith, filled, raised, caught))
      | inr free ↦ inr (inl (x, (filled, raised, free), ground (arith, filled, raised, free)))
    ]
    | inl (obj fields, loaded) ↦ elim (read_answer-cases (of_fields fields [])) [
      | inl (unusable, unread) ↦
          inl (inr (inr (inr (fields, loaded, unusable))), ground (arith, filled, loaded, unread))
      | inr (kind, payload, found, read) ↦
          inr (inr (fields, kind, payload, loaded, ground (arith, filled, loaded, found), read))
    ]
    | inl (text s, loaded) ↦
        inl (inr (inr (inl (text s, loaded, λ f h. cc h))), ground (arith, filled, loaded))
    | inl (number n, loaded) ↦
        inl (inr (inr (inl (number n, loaded, λ f h. cc h))), ground (arith, filled, loaded))
    | inl (bool d, loaded) ↦
        inl (inr (inr (inl (bool d, loaded, λ f h. cc h))), ground (arith, filled, loaded))
    | inl (null, loaded) ↦
        inl (inr (inr (inl (null, loaded, λ f h. cc h))), ground (arith, filled, loaded))
    | inl (arr items, loaded) ↦
        inl (inr (inr (inl (arr items, loaded, λ f h. cc h))), ground (arith, filled, loaded))
  ]
]
