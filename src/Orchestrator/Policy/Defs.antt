-- ===== src/Orchestrator/Policy/Defs.antt =====
-- What the engines share: the two coercions of orchestrator/policy/declarative.py and the keys
-- that stand for any action type.
use Prim.Native.Nat.{Ordering}
use Prim.Native.String.{compare}
use penny_core.Prelude.{String, List, map, [], ◌∷◌, ◌==◌, string_eq, if◌then◌else◌}
use penny_core.Dict
use penny_core.Dict.{Dict}
use penny_core.Exec.{Exn, Result, ok, err, unknown_policy_decision}
use penny_core.Contracts.Json.{Value, text, Payload}
use penny_core.Contracts.Actions.{ActionType, action_value}
use penny_core.Contracts.Policies.{PolicyDecision, auto, approval_required, reject, decision_value}

abbrev pub default_key : String
default_key = "default"

abbrev pub wildcard_key : String
wildcard_key = "*"

abbrev pub Table : Type 0
Table = Dict String PolicyDecision

-- `PolicyDecision(value)` and its refusal.
unfoldable pub normalize_decision : String → Result Exn PolicyDecision
normalize_decision value =
    if value == "auto"
    then ok auto
    else if value == "approval_required"
    then ok approval_required
    else if value == "reject"
    then ok reject
    else err unknown_policy_decision

-- An action type as the enum or as a plain string.
pub data ActionKey : Type 0 where
  enum : ActionType → ActionKey
  plain : String → ActionKey

unfoldable pub normalize_action_type : ActionKey → String
normalize_action_type (enum action_type) = action_value action_type
normalize_action_type (plain s) = s

-- One turn of the loop in `set_policies`; the engines differ in the error for a non-string.
unfoldable pub decision_of : Exn → Value → Result Exn PolicyDecision
unfolding normalize_decision
decision_of not_text (text s) = normalize_decision s
decision_of not_text _ = err not_text

abbrev pub and_then : {A B : Type 0} → Result Exn A → (A → Result Exn B) → Result Exn B
and_then (ok a) f = f a
and_then (err x) f = err x

-- The loop of `set_policies` over `policies.items()`, onto the table so far.
unfoldable pub normalize_table : Exn → Table → Payload → Result Exn Table
unfolding decision_of
normalize_table not_text table [] = ok table
normalize_table not_text table ((k, v) ∷ policies) =
    and_then (decision_of not_text v) (λ d. normalize_table not_text (Dict.put table k d) policies)

-- Python's `sorted` on strings, which compares them by code points.
unfoldable pub insert_text : String → List String → List String
insert_text s [] = s ∷ []
insert_text s (t ∷ rest) = elim (compare t s) [
  | Ordering.lt ↦ t ∷ insert_text s rest
  | _ ↦ s ∷ t ∷ rest
]

unfoldable pub sorted : List String → List String
sorted [] = []
sorted (s ∷ rest) = insert_text s (sorted rest)

-- `{k: v.value for k, v in table.items()}`
unfoldable pub shown_table : Table → Dict String String
shown_table table = map (λ (e : String × PolicyDecision). (e.0, decision_value e.1)) table
