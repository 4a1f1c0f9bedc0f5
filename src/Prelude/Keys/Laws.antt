-- ===== src/Prelude/Keys/Laws.antt =====
-- Membership, distinctness and removal, as equations between tests.
use mathlib.Core.Path.{◌≡◌, refl}
use mathlib.Core.Bool.{true, false, not, ◌&&◌, ◌||◌}
use mathlib.Core.List.{List, [], ◌∷◌, ◌++◌}
use native.Mathlib.Omega.{arith}
use penny_core.Prelude.Tests.{if◌then◌else◌}
use penny_core.Prelude.Keys.{Eq, mem, distinct, remove_first}

module _ {ℓ} {A : Type ℓ} ⦃e : Eq A⦄ where
  pub mem-append : (a : A) (xs ys : List A) → mem a (xs ++ ys) ≡ (mem a xs || mem a ys)
  unfolding mem
  mem-append a [] ys = refl
  mem-append a (x ∷ xs) ys = ground (arith, mem-append a xs ys)

  -- `a in xs + [b]`
  pub mem-snoc : (a b : A) (xs : List A) → mem a (xs ++ b ∷ []) ≡ (mem a xs || e.same a b)
  unfolding mem
  mem-snoc a b [] = ground arith
  mem-snoc a b (x ∷ xs) = ground (arith, mem-snoc a b xs)

  pub distinct-snoc :
      (a : A) (xs : List A) → distinct (xs ++ a ∷ []) ≡ (distinct xs && not (mem a xs))
  unfolding distinct
  distinct-snoc a [] = refl
  distinct-snoc a (x ∷ xs) =
      ground (arith, distinct-snoc a xs, mem-snoc x a xs, e.same_iff a x, e.same_iff x a)

  mem_of_beq : (a b : A) (xs : List A) → e.same a b ≡ true → mem a xs ≡ mem b xs
  mem_of_beq a b xs h = ground (arith, (e.same_iff a b).0 h)

  pub mem-remove_first :
      (a b : A) (xs : List A)
      → distinct xs ≡ true
      → mem b (remove_first a xs) ≡ (if e.same a b then false else mem b xs)
  unfolding mem distinct remove_first
  mem-remove_first a b [] h = ground arith
  mem-remove_first a b (x ∷ xs) h = ground (
    arith,
    mem-remove_first a b xs,
    e.same_iff a b,
    e.same_iff a x,
    e.same_iff b x,
    mem_of_beq a x xs,
    mem_of_beq b x xs,
  )

  pub distinct-remove_first :
      (a : A) (xs : List A) → distinct xs ≡ true → distinct (remove_first a xs) ≡ true
  unfolding mem distinct remove_first
  distinct-remove_first a [] h = refl
  distinct-remove_first a (x ∷ xs) h =
      ground (arith, distinct-remove_first a xs, mem-remove_first a x xs)

  pub remove_first_missing : (a : A) (xs : List A) → mem a xs ≡ false → remove_first a xs ≡ xs
  unfolding mem remove_first
  remove_first_missing a [] h = refl
  remove_first_missing a (x ∷ xs) h = ground (arith, remove_first_missing a xs)
