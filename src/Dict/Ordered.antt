-- ===== src/Dict/Ordered.antt =====
-- Python's `OrderedDict`: keys that are unique, and the move of a key to the end.
use penny_core.Prelude.{
  ℕ, suc, ◌≡◌, refl, Bool, true, false, Option, none, some, [], ◌∷◌, arith, Eq, if◌then◌else◌,
  beq_refl, beq_sym, length, snoc, Option-cases, length-append, inl, inr, drop, zero, ◌≤◌,
}
use penny_core.Dict
use penny_core.Dict.{Dict, get-put, get-remove}

-- The value that is found first.
abbrev or_else {κ} : {V : Type κ} → Option V → Option V → Option V
or_else none b = b
or_else (some a) b = some a

module _ {ℓ κ} {K : Type ℓ} {V : Type κ} ⦃e : Eq K⦄ where
  -- `d[k] = v; d.move_to_end(k)`
  unfoldable pub move_to_end : K → V → Dict K V → Dict K V
  move_to_end k v d = snoc (Dict.remove d k) (k, v)

  -- No key comes twice.
  unfoldable pub unique : Dict K V → Bool
  unique [] = true
  unique ((k, v) ∷ d) = if Dict.contains d k then false else unique d

  get-snoc :
      (d : Dict K V) (k j : K) (v : V)
      → Dict.get (snoc d (k, v)) j ≡ or_else (Dict.get d j) (if e.same k j then some v else none)
  unfolding Dict.get
  get-snoc [] k j v = refl
  get-snoc ((i, w) ∷ d) k j v = ground (arith, get-snoc d k j v)

  pub get-move_to_end :
      (d : Dict K V) (k j : K) (v : V)
      → Dict.get (move_to_end k v d) j ≡ (if e.same k j then some v else Dict.get d j)
  unfolding move_to_end
  get-move_to_end d k j v = ground (arith, get-snoc (Dict.remove d k) k j v, get-remove d k j)

  unique-remove : (d : Dict K V) (k : K) → unique d ≡ true → unique (Dict.remove d k) ≡ true
  unfolding unique Dict.remove
  unique-remove [] k u = refl
  unique-remove ((i, w) ∷ d) k u = ground (arith, unique-remove d k, get-remove d k i, u)

  unique-snoc :
      (d : Dict K V) (k : K) (v : V)
      → unique d ≡ true
      → Dict.get d k ≡ none
      → unique (snoc d (k, v)) ≡ true
  unfolding unique Dict.get
  unique-snoc [] k v u m = refl
  unique-snoc ((i, w) ∷ d) k v u m =
      ground (arith, unique-snoc d k v, get-snoc d k i v, beq_sym i k, u, m)

  pub unique-move_to_end :
      (d : Dict K V) (k : K) (v : V) → unique d ≡ true → unique (move_to_end k v d) ≡ true
  unfolding move_to_end
  unique-move_to_end d k v u =
      unique-snoc (Dict.remove d k) k v (unique-remove d k u)
        (ground (arith, get-remove d k k, beq_refl k))

  pub remove_missing : (d : Dict K V) (k : K) → Dict.get d k ≡ none → Dict.remove d k ≡ d
  unfolding Dict.get Dict.remove
  remove_missing [] k m = refl
  remove_missing ((i, w) ∷ d) k m = ground (arith, remove_missing d k, m)

  length-remove :
      (d : Dict K V) (k : K) (v : V)
      → unique d ≡ true
      → Dict.get d k ≡ some v
      → suc (length (Dict.remove d k)) ≡ length d
  unfolding unique Dict.get Dict.remove
  length-remove [] k v u m = ground (arith, m)
  length-remove ((i, w) ∷ d) k v u m =
      ground (arith, length-remove d k v, remove_missing d k, e.same_iff i k, u, m)

  pub length-put_new :
      (d : Dict K V) (k : K) (v : V)
      → Dict.get d k ≡ none
      → length (Dict.put d k v) ≡ suc (length d)
  unfolding Dict.get Dict.put
  length-put_new [] k v m = refl
  length-put_new ((i, w) ∷ d) k v m = ground (arith, length-put_new d k v, e.same_iff i k, m)

  -- A key that was there keeps the size, another adds one.
  pub length-move_to_end :
      (d : Dict K V) (k : K) (v : V)
      → unique d ≡ true
      → length (move_to_end k v d) ≡ (if Dict.contains d k then length d else suc (length d))
  unfolding move_to_end
  length-move_to_end d k v u = elim (Option-cases (Dict.get d k)) [
    | inl missing ↦
        ground (
          arith,
          missing,
          remove_missing d k missing,
          length-append (Dict.remove d k) ((k, v) ∷ []),
        )
    | inr (w, there) ↦
        ground
          (arith, there, length-remove d k w u there, length-append (Dict.remove d k) ((k, v) ∷ []))
  ]

  get-drop-none :
      (j : ℕ) (d : Dict K V) (k : K) → Dict.get d k ≡ none → Dict.get (drop j d) k ≡ none
  unfolding Dict.get
  get-drop-none zero d k m = m
  get-drop-none (suc j) [] k m = m
  get-drop-none (suc j) ((i, w) ∷ d) k m = get-drop-none j d k (ground (arith, m))

  drop-snoc :
      (j : ℕ) (d : Dict K V) (x : K × V) → j ≤ length d → drop j (snoc d x) ≡ snoc (drop j d) x
  drop-snoc zero d x h = refl
  drop-snoc (suc j) [] x h = ground (arith, h)
  drop-snoc (suc j) (y ∷ d) x h = drop-snoc j d x (omega (arith, h))

  -- The entry at the end survives when entries before it are dropped.
  pub get-drop_newest :
      (j : ℕ) (d : Dict K V) (k : K) (v : V)
      → Dict.get d k ≡ none
      → j ≤ length d
      → Dict.get (drop j (move_to_end k v d)) k ≡ some v
  unfolding move_to_end
  get-drop_newest j d k v m h = ground (
    arith,
    remove_missing d k m,
    drop-snoc j d (k, v) h,
    get-snoc (drop j d) k k v,
    get-drop-none j d k m,
    beq_refl k,
  )
