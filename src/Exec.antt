-- ===== src/Exec.antt =====
-- Python methods that change an object and may raise. What was written before a raise stays
-- written, so the state comes back beside the exception too. A method holds its object's lock for
-- the whole call, so that a call is one step and threads interleave calls.
use penny_core.Prelude.{◌≡◌, refl, ◌⊎◌, inl, inr, Bool, if◌then◌else◌}

-- The exceptions that the modelled code raises, without their messages.
pub data Exn : Type 0 where
  value_error validation_error key_error lookup_error : Exn
  approval_not_found approval_state approver_not_eligible duplicate_approver : Exn
  action_not_found unknown_policy_decision identity_collision type_error : Exn
  json_decode_error recursion_error : Exn

pub data Result (E A : Type 0) : Type 0 where
  ok : A → Result E A
  err : E → Result E A

pub Result-cases :
    {E A : Type 0} (r : Result E A) → ((a : A) × (r ≡ ok a)) ⊎ ((x : E) × (r ≡ err x))
Result-cases (ok a) = inl (a, refl)
Result-cases (err x) = inr (x, refl)

abbrev pub Exec : Type 0 → Type 0 → Type 0
Exec S A = S → Result Exn A × S

module _ {S A : Type 0} where
  abbrev pub pure : A → Exec S A
  pure a s = (ok a, s)

  abbrev pub raise : Exn → Exec S A
  raise x s = (err x, s)

  abbrev pub gets : (S → A) → Exec S A
  gets f s = (ok (f s), s)

  abbrev pub lift : Result Exn A → Exec S A
  lift r s = (r, s)

abbrev pub modify : {S : Type 0} → (S → S) → Exec S (Unit {0})
modify f s = (ok tt, f s)

-- `if c: raise x`
abbrev pub raise_if : {S : Type 0} → Bool → Exn → Exec S (Unit {0})
raise_if c x s = (if c then err x else ok tt, s)

abbrev pub continue : {S A B : Type 0} → Result Exn A → (A → Exec S B) → Exec S B
continue (ok a) f s = f a s
continue (err x) f s = (err x, s)

infixl 5 ◌>>=◌ ◌>>◌
abbrev pub ◌>>=◌ : {S A B : Type 0} → Exec S A → (A → Exec S B) → Exec S B
◌>>=◌ m f s = let (r, s') = m s in continue r f s'

abbrev pub ◌>>◌ : {S A B : Type 0} → Exec S A → Exec S B → Exec S B
m >> k = m >>= λ _. k

-- A call of a method of a part of the object.
abbrev pub on_part : {S T A : Type 0} → (S → T) → (T → S → S) → Exec T A → Exec S A
on_part part update m s = let (r, t) = m (part s) in (r, update t s)
