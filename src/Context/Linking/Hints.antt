-- ===== src/Context/Linking/Hints.antt =====
-- The identity hints and the display name of a payload, in their canonical form.
pub mod Canonical
pub mod Extraction
use penny_core.Prelude.{
  ℕ, suc, String, Bool, true, false, not, Option, none, some, List, [], ◌∷◌, ◌||◌, mem, ltb,
  string_eq, pair_eq, if◌then◌else◌,
}
use Prim.Native.String.{◌∷◌ as ◌∷ₛ◌}
use penny_core.Dict
use penny_core.Contracts.Json.{Payload, Value, text}
use penny_core.Contracts.Texts.{
  Texts, is_blank, strip, prefix, keep, is_plus, starts_with_plus, lstrip_plus,
}
use penny_core.Contracts.Customers.{
  IdentityKind, email, phone, external_id, chat_handle, kind_eq, ignores_case,
}

-- `_PAYLOAD_KEY_TO_KIND`
abbrev pub payload_key_to_kind : List (String × IdentityKind)
payload_key_to_kind =
    ("external_id", external_id)
    ∷ ("customer_external_id", external_id)
    ∷ ("from_email", email)
    ∷ ("email", email)
    ∷ ("sender_email", email)
    ∷ ("from_phone", phone)
    ∷ ("phone", phone)
    ∷ ("sender_phone", phone)
    ∷ ("chat_handle", chat_handle)
    ∷ ("user_handle", chat_handle)
    ∷ ("username", chat_handle)
    ∷ []

-- `LOOKUP_PRIORITY`
abbrev pub lookup_priority : List IdentityKind
lookup_priority = external_id ∷ email ∷ phone ∷ chat_handle ∷ []

-- `IdentityHint`: a kind and a value that is normalised.
abbrev pub IdentityHint : Type 0
IdentityHint = IdentityKind × String

-- `priority_index`
unfoldable pub priority_index : IdentityKind → ℕ
priority_index external_id = 0
priority_index email = 1
priority_index phone = 2
priority_index chat_handle = 3

-- One step of a stable sort by priority.
unfoldable pub insert_hint : IdentityHint → List IdentityHint → List IdentityHint
insert_hint h [] = h ∷ []
insert_hint h (g ∷ hints) =
    if ltb (priority_index g.0) (priority_index h.0) then g ∷ insert_hint h hints else h ∷ g ∷ hints

-- `hints.sort(key=...)`: a hint goes before those that came after it, unless they are smaller.
unfoldable pub sort_hints : List IdentityHint → List IdentityHint
sort_hints [] = []
sort_hints (h ∷ hints) = insert_hint h (sort_hints hints)

abbrev with_plus : Bool → String → String
with_plus true digits = "+" ∷ₛ digits
with_plus false digits = digits

abbrev pub name_keys : List String
name_keys = "display_name" ∷ "customer_name" ∷ "from_name" ∷ "sender_name" ∷ []

module _ (tx : Texts) where
  -- The phone number in `v`: its digits, after one plus sign where `v` starts with one.
  unfoldable pub normalize_phone : String → String
  normalize_phone v =
      with_plus (starts_with_plus v) (lstrip_plus (keep (λ c. tx.is_digit c || is_plus c) v))

  unfoldable pub normalize_identity_value : IdentityKind → String → String
  unfolding normalize_phone
  normalize_identity_value kind raw =
      let v = strip tx raw in
      if is_blank v then v else elim kind [
        | phone ↦ normalize_phone v
        | email ↦ tx.lower v
        | chat_handle ↦ tx.lower v
        | external_id ↦ v
      ]

  -- The hint under one key of the payload, if its value is a text that is not blank.
  unfoldable pub hint_at : Payload → String → IdentityKind → Option IdentityHint
  hint_at payload key kind = elim (Dict.get payload key) [
    | some (text raw) ↦
        let normalized = normalize_identity_value kind raw in
        if is_blank normalized then none else some (kind, normalized)
    | _ ↦ none
  ]

  -- The loop of `extract_identity_hints` over the recognised keys; `seen` are the hints so far.
  unfoldable pub collect_hints :
      Payload → List (String × IdentityKind) → List IdentityHint → List IdentityHint
  collect_hints payload [] seen = []
  collect_hints payload ((key, kind) ∷ keys) seen = elim (hint_at payload key kind) [
    | none ↦ collect_hints payload keys seen
    | some hint ↦
        let skipped = collect_hints payload keys seen in
        let kept = hint ∷ collect_hints payload keys (hint ∷ seen) in
        if mem hint seen then skipped else kept
  ]

  unfoldable pub extract_identity_hints : Payload → List IdentityHint
  unfolding sort_hints
  extract_identity_hints payload = sort_hints (collect_hints payload payload_key_to_kind [])

  unfoldable pub first_name : Payload → List String → Option String
  first_name payload [] = none
  first_name payload (key ∷ keys) =
      let rest = first_name payload keys in
      elim (Dict.get payload key) [
        | some (text raw) ↦ let v = strip tx raw in if is_blank v then rest else some (prefix 128 v)
        | _ ↦ rest
      ]

  unfoldable pub extract_display_name : Payload → Option String
  extract_display_name payload = first_name payload name_keys
