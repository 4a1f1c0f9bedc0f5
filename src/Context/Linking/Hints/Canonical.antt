-- ===== src/Context/Linking/Hints/Canonical.antt =====
-- The three normalisers of identity values agree: the linker's, the repository's and the one of
-- the contract.
use penny_core.Prelude.{
  ◌≡◌, String, Bool, true, false, not, none, some, List, [], ◌∷◌, ◌&&◌, ◌||◌, ◌==◌, string_eq,
  pair_eq, eq_iff, arith, refl, if◌then◌else◌, Option-cases, inl, inr,
}
use Prim.Native.Char.{Char}
use penny_core.Contracts.Texts.{
  Texts, AreUnicode, is_blank, is_blank-empty, strip, strip_idem, keep, is_plus, starts_with_plus,
  lstrip_plus, no_space, strip_of_no_space, keep-no_space, lstrip_plus-no_space,
}
use penny_core.Contracts.Customers.{
  IdentityKind, kind_beq, kind_eq, phone, ignores_case, validated_value,
}
use penny_core.Dict
use penny_core.Contracts.Json.{Payload, text}
use penny_core.Context.Customers.{ident_index_value}
use penny_core.Context.Linking.Hints.{
  IdentityHint, hint_at, with_plus, normalize_phone, normalize_identity_value,
}

module _ (tx : Texts) where
  -- A hint in canonical form.
  abbrev pub is_canonical : IdentityHint → Bool
  is_canonical h = ident_index_value tx h.0 h.1 == h.1 && not (is_blank h.1)

  abbrev pub all_canonical : List IdentityHint → Bool
  all_canonical [] = true
  all_canonical (h ∷ hints) = is_canonical h && all_canonical hints

module _ (tx : Texts) (u : AreUnicode tx) where
  phone_char : (c : Char) → (tx.is_digit c || is_plus c) ≡ true → tx.is_space c ≡ false
  phone_char c h = ground (arith, u.digit_not_space c, u.plus_not_space c, h)

  with_plus-no_space :
      (b : Bool) (s : String) → no_space tx s ≡ true → no_space tx (with_plus b s) ≡ true
  with_plus-no_space true s h = ground (arith, u.plus_not_space "+" refl, h)
  with_plus-no_space false s h = h

  normalize_phone-no_space : (v : String) → no_space tx (normalize_phone tx v) ≡ true
  unfolding normalize_phone
  normalize_phone-no_space v =
      let p = λ (c : Char). tx.is_digit c || is_plus c in
      with_plus-no_space (starts_with_plus v) (lstrip_plus (keep p v))
        (lstrip_plus-no_space tx (keep p v) (keep-no_space tx p phone_char v))

  -- What the index makes of a value that is blank after stripping.
  ident_index_value-blank :
      (kind : IdentityKind) (raw : String)
      → is_blank (strip tx raw) ≡ true
      → ident_index_value tx kind (strip tx raw) ≡ strip tx raw
  unfolding ident_index_value ignores_case
  ident_index_value-blank kind raw h = ground (
    arith,
    strip_idem tx raw,
    is_blank-empty (strip tx raw) h,
    is_blank-empty (tx.lower (strip tx raw)),
    u.lower_blank (strip tx raw),
    h,
  )

  ident_index_value-normalize :
      (kind : IdentityKind) (raw : String)
      → ident_index_value tx kind (normalize_identity_value tx kind raw)
        ≡ normalize_identity_value tx kind raw
  unfolding ident_index_value ignores_case normalize_identity_value
  ident_index_value-normalize kind raw =
      let v = strip tx raw in
      ground (
        arith,
        ident_index_value-blank kind raw,
        strip_idem tx raw,
        u.lower_idem v,
        u.lower_stripped v,
        strip_of_no_space tx (normalize_phone tx v) (normalize_phone-no_space v),
      )

  -- What the index makes of a value as it came in.
  ident_index_value-raw :
      (kind : IdentityKind) (raw : String)
      → ident_index_value tx kind raw
        ≡ (if kind_beq kind phone then strip tx raw else normalize_identity_value tx kind raw)
  unfolding ident_index_value ignores_case normalize_identity_value kind_beq
  ident_index_value-raw kind raw = ground (
    arith,
    is_blank-empty (strip tx raw),
    is_blank-empty (tx.lower (strip tx raw)),
    u.lower_blank (strip tx raw),
  )

  -- What the index makes of a value is blank when the value is blank after stripping.
  pub ident_index_value-is_blank :
      (kind : IdentityKind) (value : String)
      → is_blank (ident_index_value tx kind value) ≡ is_blank (strip tx value)
  unfolding ident_index_value
  ident_index_value-is_blank kind value = ground (arith, u.lower_blank (strip tx value))

  pub validated_value-index :
      (kind : IdentityKind) (value : String)
      → validated_value tx kind value ≡ (
          if is_blank (ident_index_value tx kind value)
          then none
          else some (ident_index_value tx kind value))
  unfolding validated_value ident_index_value
  validated_value-index kind value = ground (arith, ident_index_value-is_blank kind value)

  -- Where the Unicode tables behave as documented, the linker's canonical form of a value is what
  -- the repository's index and the contract's validator make of it, which refuses it only when it
  -- is blank; and from the value as it came in the index makes the same form, but for a phone
  -- number, of which it strips the ends alone.
  pub normalizers_agree :
      (kind : IdentityKind) (raw : String)
      → (ident_index_value tx kind (normalize_identity_value tx kind raw)
          ≡ normalize_identity_value tx kind raw)
        × (validated_value tx kind (normalize_identity_value tx kind raw) ≡ (
            if is_blank (normalize_identity_value tx kind raw)
            then none
            else some (normalize_identity_value tx kind raw)))
        × (ident_index_value tx kind raw
            ≡ (if kind_beq kind phone then strip tx raw else normalize_identity_value tx kind raw))
  normalizers_agree kind raw = (
    ident_index_value-normalize kind raw,
    ground (
      arith,
      ident_index_value-normalize kind raw,
      validated_value-index kind (normalize_identity_value tx kind raw),
    ),
    ident_index_value-raw kind raw,
  )

  pub hint_at-is_canonical :
      (payload : Payload) (key : String) (kind : IdentityKind) (h : IdentityHint)
      → hint_at tx payload key kind ≡ some h
      → is_canonical tx h ≡ true
  unfolding hint_at
  hint_at-is_canonical payload key kind h e = elim (Option-cases (Dict.get payload key)) [
    | inl missing ↦ ground (arith, missing, e)
    | inr (text raw, there) ↦ ground (
      arith,
      there,
      e,
      ident_index_value-normalize kind raw,
      eq_iff (ident_index_value tx kind (normalize_identity_value tx kind raw))
          (normalize_identity_value tx kind raw),
    )
    | inr (_, there) ↦ ground (arith, there, e)
  ]
