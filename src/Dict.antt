-- ===== src/Dict.antt =====
-- Python's `dict`, in insertion order: an assignment to a present key keeps its place.
pub mod Ordered
use penny_core.Prelude.{
  ◌≡◌, refl, ◌≢◌, Bool, Option, none, some, List, [], ◌∷◌, ◌++◌, arith, Eq, if◌then◌else◌, is_some,
  get_or, beq_refl, beq_ne, true, Option-cases, inl, inr,
}

abbrev pub Dict {ℓ κ} : Type ℓ → Type κ → Type (ℓ ⊔ κ)
Dict K V = List (K × V)

module _ {ℓ κ} {K : Type ℓ} {V : Type κ} ⦃e : Eq K⦄ where
  -- `d.get(k)`
  unfoldable pub get : Dict K V → K → Option V
  get [] k = none
  get ((j, v) ∷ d) k = if e.same j k then some v else get d k

  -- `d[k] = v`
  unfoldable pub put : Dict K V → K → V → Dict K V
  put [] k v = (k, v) ∷ []
  put ((j, w) ∷ d) k v = if e.same j k then (j, v) ∷ d else (j, w) ∷ put d k v

  -- `del d[k]` where `k` may be missing
  unfoldable pub remove : Dict K V → K → Dict K V
  remove [] k = []
  remove ((j, w) ∷ d) k = let rest = remove d k in if e.same j k then rest else (j, w) ∷ rest

  -- `k in d`
  abbrev pub contains : Dict K V → K → Bool
  contains d k = is_some (get d k)

  pub contains-get : (d : Dict K V) (k : K) → contains d k ≡ true → (v : V) × (get d k ≡ some v)
  contains-get d k h = elim (Option-cases (get d k)) [
    | inl missing ↦ ground (arith, missing, h)
    | inr there ↦ there
  ]

  pub get-put :
      (d : Dict K V) (k j : K) (v : V)
      → get (put d k v) j ≡ (if e.same k j then some v else get d j)
  unfolding get put
  get-put [] k j v = refl
  get-put ((i, w) ∷ d) k j v =
      ground (arith, get-put d k j v, e.same_iff i k, e.same_iff i j, e.same_iff k j)

  pub get-put_self : (d : Dict K V) (k : K) (v : V) → get (put d k v) k ≡ some v
  get-put_self d k v = ground (arith, get-put d k k v, beq_refl k)

  pub get-put_ne : (d : Dict K V) (k j : K) (v : V) → k ≢ j → get (put d k v) j ≡ get d j
  get-put_ne d k j v h = ground (arith, get-put d k j v, beq_ne k j)

  pub get-remove :
      (d : Dict K V) (k j : K) → get (remove d k) j ≡ (if e.same k j then none else get d j)
  unfolding get remove
  get-remove [] k j = ground arith
  get-remove ((i, w) ∷ d) k j =
      ground (arith, get-remove d k j, e.same_iff i k, e.same_iff i j, e.same_iff k j)

module _ {ℓ κ} {K : Type ℓ} {V : Type κ} ⦃e : Eq K⦄ where
  -- `d.get(k, [])`
  abbrev pub get_list : Dict K (List V) → K → List V
  get_list d k = get_or [] (get d k)

  -- `d.setdefault(k, []).append(v)`
  unfoldable pub push : Dict K (List V) → K → V → Dict K (List V)
  push d k v = put d k (get_list d k ++ v ∷ [])

  pub get_list-push :
      (d : Dict K (List V)) (k j : K) (v : V)
      → get_list (push d k v) j ≡ (if e.same k j then get_list d j ++ v ∷ [] else get_list d j)
  unfolding push
  get_list-push d k j v = ground (arith, get-put d k j (get_list d k ++ v ∷ []), e.same_iff k j)

  pub get_list-put :
      (d : Dict K (List V)) (k j : K) (vs : List V)
      → get_list (put d k vs) j ≡ (if e.same k j then vs else get_list d j)
  get_list-put d k j vs = ground (arith, get-put d k j vs)
