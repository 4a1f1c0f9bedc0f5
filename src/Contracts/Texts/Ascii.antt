-- ===== src/Contracts/Texts/Ascii.antt =====
-- Tables for texts with a few characters: ASCII's whitespace and digits, and two capitals.
use Prim.Native.Char.{Char, code}
use Prim.Native.String.{[], ◌∷◌}
use penny_core.Prelude.{
  String, Bool, true, ◌≡◌, refl, ◌&&◌, ◌||◌, arith, nat_beq, leb, false, ap, Bool-cases, ◌⊎◌, inl,
  inr,
}
use penny_core.Contracts.Texts.{Texts, AreUnicode, lstrip, rstrip, strip, is_blank}

unfoldable pub ascii_space : Char → Bool
ascii_space c = (leb 9 (code c) && leb (code c) 13) || (leb 28 (code c) && leb (code c) 32)

unfoldable pub ascii_digit : Char → Bool
ascii_digit c = leb b'0' (code c) && leb (code c) b'9'

abbrev lower_from : Bool → Bool → Char → Char
lower_from true b c = "a"
lower_from false true c = "b"
lower_from false false c = c

unfoldable pub lower_char : Char → Char
lower_char c = lower_from (nat_beq (code c) b'A') (nat_beq (code c) b'B') c

-- The three ways in which a character is lowered.
lower_char-cases :
    (c : Char)
    → ((code c ≡ b'A') × (lower_char c ≡ "a"))
      ⊎ ((code c ≡ b'B') × (lower_char c ≡ "b"))
      ⊎ (lower_char c ≡ c)
unfolding lower_char
lower_char-cases c = elim (Bool-cases (nat_beq (code c) b'A')) [
  | inl a ↦ inl (ground (arith, a), rw a refl)
  | inr other ↦ elim (Bool-cases (nat_beq (code c) b'B')) [
    | inl b ↦ inr (inl (ground (arith, b), rw (other, b) refl))
    | inr none ↦ inr (inr (rw (other, none) refl))
  ]
]

abbrev pub lower_all : String → String
lower_all [] = []
lower_all (c ∷ s) = lower_char c ∷ lower_all s

abbrev pub ascii : Texts
ascii = record { is_space = ascii_space; is_digit = ascii_digit; lower = lower_all }

lower_char_idem : (c : Char) → lower_char (lower_char c) ≡ lower_char c
unfolding lower_char
lower_char_idem c = elim (lower_char-cases c) [
  | inl (_, a) ↦ rw a refl
  | inr (inl (_, b)) ↦ rw b refl
  | inr (inr same) ↦ ap lower_char same
]

lower_char-space : (c : Char) → ascii_space (lower_char c) ≡ ascii_space c
unfolding ascii_space
lower_char-space c = elim (lower_char-cases c) [
  | inl (n, a) ↦ rw a (ground (arith, n))
  | inr (inl (n, b)) ↦ rw b (ground (arith, n))
  | inr (inr same) ↦ rw same refl
]

lower_all_idem : (s : String) → lower_all (lower_all s) ≡ lower_all s
lower_all_idem [] = refl
lower_all_idem (c ∷ s) = cc (lower_char_idem c, lower_all_idem s)

lstrip-lower_all : (s : String) → lstrip ascii (lower_all s) ≡ lower_all (lstrip ascii s)
unfolding lstrip
lstrip-lower_all [] = refl
lstrip-lower_all (c ∷ s) = ground (arith, lower_char-space c, lstrip-lower_all s)

lower_all-blank : (s : String) → is_blank (lower_all s) ≡ is_blank s
lower_all-blank [] = refl
lower_all-blank (c ∷ s) = refl

rstrip-lower_all : (s : String) → rstrip ascii (lower_all s) ≡ lower_all (rstrip ascii s)
unfolding rstrip
rstrip-lower_all [] = refl
rstrip-lower_all (c ∷ s) = ground (
  arith,
  lower_char-space c,
  rstrip-lower_all s,
  ap is_blank (rstrip-lower_all s),
  lower_all-blank (rstrip ascii s),
)

pub ascii-AreUnicode : AreUnicode ascii
unfolding strip ascii_space ascii_digit
ascii-AreUnicode = record {
  digit_not_space = λ c h. ground (arith, h);
  plus_not_space = λ c h. ground (arith, h);
  lower_idem = lower_all_idem;
  lower_blank = lower_all-blank;
  lower_stripped =
      λ s h. cc (ap (rstrip ascii) (lstrip-lower_all s), rstrip-lower_all (lstrip ascii s));
}
