-- ===== src/Rings.antt =====
-- A bounded buffer for each tenant, a list whose oldest items are dropped: the storage of
-- QuarantineBuffer, SlowCallQueue, RecentEventsBuffer and ProposalsBuffer.
use penny_core.Prelude.{
  ℕ, ◌+◌, ◌-◌, ◌≤◌, ◌≡◌, sym, ap, String, List, [], ◌∷◌, ◌++◌, arith, ◌==◌, string_eq, eq_iff,
  if◌then◌else◌, length, drop, snoc, reverse, length-append, length-drop, drop-append, drop-drop,
  ◌∙◌, Bool-cases, inl, inr, append_assoc, append-nil,
}
use penny_core.Dict
use penny_core.Dict.{Dict, get_list-put}

abbrev pub Ring : Type 0 → Type 0
Ring A = Dict String (List A)

module _ {A : Type 0} where
  -- `del buf[: len(buf) - max]` where that is positive
  abbrev pub trim : ℕ → List A → List A
  trim most buf = drop (length buf - most) buf

  -- `buf.append(item)` and the deletion of what is too much
  unfoldable pub append : ℕ → String → A → Ring A → Ring A
  append most tenant_id item ring =
      Dict.put ring tenant_id (trim most (snoc (Dict.get_list ring tenant_id) item))

  -- `list(reversed(buf[-limit:]))` for a positive limit
  abbrev pub newest : ℕ → List A → List A
  newest limit buf = reverse (drop (length buf - limit) buf)

  unfoldable pub append_all : ℕ → List (String × A) → Ring A → Ring A
  append_all most [] ring = ring
  append_all most ((t, item) ∷ items) ring = append_all most items (append most t item ring)

  -- The items of one tenant in the order of the calls.
  unfoldable pub items_of : String → List (String × A) → List A
  items_of u [] = []
  items_of u ((t, item) ∷ items) = if t == u then item ∷ items_of u items else items_of u items

  -- What is dropped from a part is dropped from the whole.
  trim-append : (most : ℕ) (xs ys : List A) → trim most (trim most xs ++ ys) ≡ trim most (xs ++ ys)
  trim-append most xs ys =
      let k = length xs - most in
      let whole = xs ++ ys in
      let joined : trim most xs ++ ys ≡ drop k whole = sym (drop-append k xs ys (omega arith)) in
      let total : k + (length (drop k whole) - most) ≡ length whole - most =
        omega (arith, length-drop k whole, length-append xs ys) in
      ap (trim most) joined
      ∙ drop-drop (length (drop k whole) - most) k whole
      ∙ ap (λ n. drop n whole) total

  pub length-trim : (most : ℕ) (xs : List A) → length (trim most xs) ≤ most
  length-trim most xs = omega (arith, length-drop (length xs - most) xs)

  pub trim_short : (most : ℕ) (xs : List A) → length xs ≤ most → trim most xs ≡ xs
  trim_short most xs h =
      let none_over : length xs - most ≡ 0 = omega (arith, h) in ap (λ n. drop n xs) none_over

  pub get_list-append :
      (most : ℕ) (t u : String) (item : A) (ring : Ring A)
      → Dict.get_list (append most t item ring) u
        ≡ (if t == u then trim most (snoc (Dict.get_list ring u) item) else Dict.get_list ring u)
  unfolding append
  get_list-append most t u item ring =
      ground
        (arith, get_list-put ring t u (trim most (snoc (Dict.get_list ring t) item)), eq_iff t u)

  window_from :
      (most : ℕ) (items : List (String × A)) (ring : Ring A) (u : String)
      → length (Dict.get_list ring u) ≤ most
      → Dict.get_list (append_all most items ring) u
        ≡ trim most (Dict.get_list ring u ++ items_of u items)
  unfolding append_all items_of
  window_from most [] ring u h = sym (
      ap (trim most) (append-nil (Dict.get_list ring u)) ∙ trim_short most (Dict.get_list ring u) h)
  window_from most ((t, item) ∷ items) ring u h =
      let buf = Dict.get_list ring u in
      let rest = items_of u items in
      let ring' = append most t item ring in
      elim (Bool-cases (t == u)) [
        | inl here ↦
            let e : Dict.get_list ring' u ≡ trim most (snoc buf item) =
              ground (arith, get_list-append most t u item ring, here) in
            rw here (
              window_from most items ring' u
                (omega (arith, ap length e, length-trim most (snoc buf item)))
              ∙ ap (λ b. trim most (b ++ rest)) e
              ∙ trim-append most (snoc buf item) rest
              ∙ ap (trim most) (append_assoc buf (item ∷ []) rest))
        | inr other ↦
            let e : Dict.get_list ring' u ≡ buf =
              ground (arith, get_list-append most t u item ring, other) in
            rw other (
              window_from most items ring' u (omega (arith, ap length e, h))
              ∙ ap (λ b. trim most (b ++ rest)) e)
      ]

  -- After any appends to a new buffer, a tenant's list is the newest of its own items, in order.
  pub append_all_window :
      (most : ℕ) (items : List (String × A)) (u : String)
      → Dict.get_list (append_all most items []) u ≡ trim most (items_of u items)
  unfolding Dict.get
  append_all_window most items u = window_from most items [] u (omega arith)
