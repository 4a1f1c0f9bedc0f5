-- ===== src/Contracts/Texts.antt =====
-- What the code uses of Python's `str`. Which characters are whitespace or digits, and `lower`,
-- are Unicode's tables: a parameter of everything that depends on them.
pub mod Ascii
use Prim.Native.Char.{Char, code}
use Prim.Native.String.{[], ◌∷◌}
use penny_core.Prelude.{
  ℕ, zero, suc, String, Bool, true, false, ◌≡◌, refl, ◌&&◌, arith, if◌then◌else◌, nat_beq,
}

pub record Texts : Type 0 where
  pub is_space : Char → Bool
  pub is_digit : Char → Bool
  pub lower : String → String

abbrev pub is_blank : String → Bool
is_blank [] = true
is_blank (c ∷ s) = false

abbrev pub trim_end : Bool → Char → String → String
trim_end space c rest = if space && is_blank rest then [] else c ∷ rest

module _ (tx : Texts) where
  unfoldable pub lstrip : String → String
  lstrip [] = []
  lstrip (c ∷ s) = if tx.is_space c then lstrip s else c ∷ s

  unfoldable pub rstrip : String → String
  rstrip [] = []
  rstrip (c ∷ s) = trim_end (tx.is_space c) c (rstrip s)

  -- `s.strip()`
  unfoldable pub strip : String → String
  unfolding lstrip rstrip
  strip s = rstrip (lstrip s)

  -- `s` starts with no whitespace.
  abbrev starts_clean : String → Bool
  starts_clean [] = true
  starts_clean (c ∷ s) = if tx.is_space c then false else true

  lstrip-starts_clean : (s : String) → starts_clean (lstrip s) ≡ true
  unfolding lstrip
  lstrip-starts_clean [] = refl
  lstrip-starts_clean (c ∷ s) = ground (arith, lstrip-starts_clean s)

  lstrip_of_clean : (s : String) → starts_clean s ≡ true → lstrip s ≡ s
  unfolding lstrip
  lstrip_of_clean [] h = refl
  lstrip_of_clean (c ∷ s) h = ground (arith, h)

  rstrip-starts_clean : (s : String) → starts_clean s ≡ true → starts_clean (rstrip s) ≡ true
  unfolding rstrip
  rstrip-starts_clean [] h = refl
  rstrip-starts_clean (c ∷ s) h = ground (arith, h)

  rstrip_idem : (s : String) → rstrip (rstrip s) ≡ rstrip s
  unfolding rstrip
  rstrip_idem [] = refl
  rstrip_idem (c ∷ s) = ground (arith, rstrip_idem s)

  pub strip_idem : (s : String) → strip (strip s) ≡ strip s
  unfolding strip
  strip_idem s = cc (
    lstrip_of_clean (strip s) (rstrip-starts_clean (lstrip s) (lstrip-starts_clean s)),
    rstrip_idem (lstrip s),
  )

pub is_blank-empty : (s : String) → is_blank s ≡ true → s ≡ []
is_blank-empty [] h = refl
is_blank-empty (c ∷ s) h = ground (arith, h)

-- `s[:n]`
unfoldable pub prefix : ℕ → String → String
prefix zero s = []
prefix (suc n) [] = []
prefix (suc n) (c ∷ s) = c ∷ prefix n s

-- The characters of `s` that are kept by a test, in order.
unfoldable pub keep : (Char → Bool) → String → String
keep p [] = []
keep p (c ∷ s) = let rest = keep p s in if p c then c ∷ rest else rest

abbrev pub is_plus : Char → Bool
is_plus c = nat_beq (code c) b'+'

-- `s.startswith("+")`
unfoldable pub starts_with_plus : String → Bool
starts_with_plus [] = false
starts_with_plus (c ∷ s) = is_plus c

-- `s.lstrip("+")`
unfoldable pub lstrip_plus : String → String
lstrip_plus [] = []
lstrip_plus (c ∷ s) = if is_plus c then lstrip_plus s else c ∷ s

-- What Unicode's tables satisfy, as far as the code relies on it.
pub record AreUnicode (tx : Texts) : Type 0 where
  pub digit_not_space : (c : Char) → tx.is_digit c ≡ true → tx.is_space c ≡ false
  pub plus_not_space : (c : Char) → is_plus c ≡ true → tx.is_space c ≡ false
  pub lower_idem : (s : String) → tx.lower (tx.lower s) ≡ tx.lower s
  pub lower_blank : (s : String) → is_blank (tx.lower s) ≡ is_blank s
  pub lower_stripped : (s : String) → strip tx s ≡ s → strip tx (tx.lower s) ≡ tx.lower s

module _ (tx : Texts) where
  -- `s` has no whitespace at all.
  abbrev pub no_space : String → Bool
  no_space [] = true
  no_space (c ∷ s) = if tx.is_space c then false else no_space s

  rstrip_of_no_space : (s : String) → no_space s ≡ true → rstrip tx s ≡ s
  unfolding rstrip
  rstrip_of_no_space [] h = refl
  rstrip_of_no_space (c ∷ s) h = ground (arith, rstrip_of_no_space s, h)

  pub strip_of_no_space : (s : String) → no_space s ≡ true → strip tx s ≡ s
  unfolding strip lstrip
  strip_of_no_space [] h = refl
  strip_of_no_space (c ∷ s) h = ground (arith, rstrip_of_no_space (c ∷ s), h)

  pub keep-no_space :
      (p : Char → Bool)
      → ((c : Char) → p c ≡ true → tx.is_space c ≡ false)
      → (s : String) → no_space (keep p s) ≡ true
  unfolding keep
  keep-no_space p h [] = refl
  keep-no_space p h (c ∷ s) = ground (arith, keep-no_space p h s, h c)

  pub lstrip_plus-no_space : (s : String) → no_space s ≡ true → no_space (lstrip_plus s) ≡ true
  unfolding lstrip_plus
  lstrip_plus-no_space [] h = refl
  lstrip_plus-no_space (c ∷ s) h = ground (arith, lstrip_plus-no_space s, h)
