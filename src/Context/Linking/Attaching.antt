-- ===== src/Context/Linking/Attaching.antt =====
-- What `_attach_new_identities` leaves: every hint leads to the customer, or it raised.
use penny_core.Prelude.{
  ◌≡◌, sym, subst, String, Bool, true, false, none, some, List, [], ◌∷◌, ◌⊎◌, inl, inr, eq_iff,
  string_eq, pair_eq, arith, Option-cases, Bool-cases, if◌then◌else◌, suc, ◌==◌, ap,
}
use penny_core.Dict
use penny_core.Exec.{Exn, Result, ok, err, validation_error, identity_collision}
use penny_core.Contracts.Texts.{Texts}
use penny_core.Contracts.Customers.{kind_eq, Customer}
use penny_core.Context.Customers.{
  LinkKey, Customers, Supply, find_customer_by_identity, ident_index_value,
}
use penny_core.Context.Customers.Links.{
  IsLinked, Grows, Grows-refl, Grows-trans, Grows-turned, AllLead,
}
use penny_core.Context.Customers.Links.Growth.{
  index_key, turned, identity_fits, insert_identity_lem, inserted, inserted-Grows, inserted-leads,
}
use penny_core.Context.Customers.Links.Writes.{add_identity_free}
use penny_core.Context.Linking.{attach_new_identities}
use penny_core.Context.Linking.Hints.{IdentityHint}
use penny_core.Context.Linking.Hints.Canonical.{all_canonical, is_canonical}

-- The keys of the hints in the index.
abbrev pub keys_of : String → List IdentityHint → List LinkKey
keys_of t [] = []
keys_of t (h ∷ hints) = (t, h) ∷ keys_of t hints

module _ (repo : Customers) (v : IsLinked repo) (t : String) (h : IdentityHint) where
  -- A lookup by identity follows the link, and the customer that it finds is the one linked.
  pub find_customer-cases :
      ((find_customer_by_identity t h.0 h.1 repo ≡ none)
        × (Dict.get repo.identity_index (t, h) ≡ none))
      ⊎ ((c : Customer) × (find_customer_by_identity t h.0 h.1 repo ≡ some c)
          × (Dict.get repo.identity_index (t, h) ≡ some c.id)
          × (Dict.contains repo.customers (t, c.id) ≡ true))
  unfolding find_customer_by_identity
  find_customer-cases = elim (Option-cases (Dict.get repo.identity_index (t, h))) [
    | inl free ↦ inl (ground (arith, free), free)
    | inr (cid, linked) ↦
        let (c, there) = v.leads t h cid linked in
        let id = (v.keyed t cid c there).1 in
        inr
          (c, ground (arith, linked, there), ground (arith, linked, id), ground (arith, there, id))
  ]

  pub found_link :
      (c : Customer)
      → find_customer_by_identity t h.0 h.1 repo ≡ some c
      → (Dict.get repo.identity_index (t, h) ≡ some c.id)
        × (Dict.contains repo.customers (t, c.id) ≡ true)
  found_link c found = elim find_customer-cases [
    | inl (missing, _) ↦ ground (arith, missing, found)
    | inr (d, found', linked, there) ↦
        let same : some d ≡ some c = cc (found, found') in
        (ground (arith, same, linked), ground (arith, same, there))
  ]

module _ (tx : Texts) (supply : Supply) where
  pub index_key-canonical :
      (t : String) (h : IdentityHint) → is_canonical tx h ≡ true → index_key tx t h ≡ (t, h)
  index_key-canonical t h canonical =
      ap (λ s. (t, (h.0, s))) (ground (arith, canonical, eq_iff (ident_index_value tx h.0 h.1) h.1))

  -- `[h] + added`
  abbrev pub prepend :
      IdentityHint
      → Result Exn (List IdentityHint) × Customers
      → Result Exn (List IdentityHint) × Customers
  prepend h (ok added, repo) = (ok (h ∷ added), repo)
  prepend h (err x, repo) = (err x, repo)

  pub attach-free :
      (t cid : String) (h : IdentityHint) (hints : List IdentityHint) (repo : Customers)
      → is_canonical tx h ≡ true
      → find_customer_by_identity t h.0 h.1 repo ≡ none
      → Dict.get repo.identity_index (t, h) ≡ none
      → Dict.contains repo.customers (t, cid) ≡ true
      → attach_new_identities tx supply cid t (h ∷ hints) repo ≡ (
          if identity_fits tx supply repo.drawn t cid h.1
          then prepend h
              (attach_new_identities tx supply cid t hints (inserted tx supply t cid h repo))
          else (err validation_error, turned tx repo))
  unfolding attach_new_identities
  attach-free t cid h hints repo canonical missing free there = ground (
    arith,
    missing,
    add_identity_free tx supply t cid h.0 h.1 repo (cc (index_key-canonical t h canonical, free))
        there,
    insert_identity_lem tx supply t cid h.0 h.1 repo,
  )

  pub attach-linked :
      (t cid : String) (h : IdentityHint) (hints : List IdentityHint) (repo : Customers)
      (c : Customer)
      → find_customer_by_identity t h.0 h.1 repo ≡ some c
      → attach_new_identities tx supply cid t (h ∷ hints) repo ≡ (
          if c.id == cid
          then attach_new_identities tx supply cid t hints repo
          else (err identity_collision, repo))
  unfolding attach_new_identities
  attach-linked t cid h hints repo c found = ground (arith, found)

  abbrev pub Attaches :
      String
      → String
      → List IdentityHint
      → Customers
      → Result Exn (List IdentityHint) × Customers
      → Type 0
  Attaches t cid hints repo (err x, after) = Grows t repo after
  Attaches t cid hints repo (ok added, after) =
      Grows t repo after × AllLead after cid (keys_of t hints)

  prepend-Attaches :
      (t cid : String) (h : IdentityHint) (hints : List IdentityHint) (repo first : Customers)
      (r : Result Exn (List IdentityHint) × Customers)
      → Grows t repo first
      → Dict.get first.identity_index (t, h) ≡ some cid
      → Attaches t cid hints first r
      → Attaches t cid (h ∷ hints) repo (prepend h r)
  prepend-Attaches t cid h hints repo first (err x, after) grown leads g =
      Grows-trans t repo first after grown g
  prepend-Attaches t cid h hints repo first (ok added, after) grown leads (g, l) =
      (Grows-trans t repo first after grown g, (g.kept (t, h) cid leads, l))

  linked-Attaches :
      (t cid : String) (h : IdentityHint) (hints : List IdentityHint) (repo : Customers)
      (r : Result Exn (List IdentityHint) × Customers)
      → Dict.get repo.identity_index (t, h) ≡ some cid
      → Attaches t cid hints repo r
      → Attaches t cid (h ∷ hints) repo r
  linked-Attaches t cid h hints repo (err x, after) leads g = g
  linked-Attaches t cid h hints repo (ok added, after) leads (g, l) =
      (g, (g.kept (t, h) cid leads, l))

  if-Attaches :
      (t cid : String) (hints : List IdentityHint) (repo : Customers) (fit : Bool)
      (r : Result Exn (List IdentityHint) × Customers) (x : Exn) (after : Customers)
      → Attaches t cid hints repo r
      → Grows t repo after
      → Attaches t cid hints repo (if fit then r else (err x, after))
  if-Attaches t cid hints repo true r x after a g = a
  if-Attaches t cid hints repo false r x after a g = g

  -- A call for a customer that is stored.
  pub attach-Attaches :
      (t cid : String) (hints : List IdentityHint) (repo : Customers)
      → IsLinked repo
      → Dict.contains repo.customers (t, cid) ≡ true
      → all_canonical tx hints ≡ true
      → Attaches t cid hints repo (attach_new_identities tx supply cid t hints repo)
  unfolding attach_new_identities
  attach-Attaches t cid [] repo v there canonical = (Grows-refl t repo, tt)
  attach-Attaches t cid (h ∷ hints) repo v there canonical =
      let this : is_canonical tx h ≡ true = ground (arith, canonical) in
      let others : all_canonical tx hints ≡ true = ground (arith, canonical) in
      elim (find_customer-cases repo v t h) [
        | inl (missing, free) ↦
            let first = inserted tx supply t cid h repo in
            let key = index_key-canonical t h this in
            let grown = inserted-Grows tx supply t cid h repo there (inl (cc (key, free))) in
            let rest =
              attach-Attaches t cid hints first (grown.linked v) (grown.present t cid there)
                others in
            subst (Attaches t cid (h ∷ hints) repo)
              (sym (attach-free t cid h hints repo this missing free there))
              (if-Attaches t cid (h ∷ hints) repo (identity_fits tx supply repo.drawn t cid h.1)
                (prepend h (attach_new_identities tx supply cid t hints first)) validation_error
                (turned tx repo)
                (prepend-Attaches t cid h hints repo first
                  (attach_new_identities tx supply cid t hints first) grown
                  (cc (inserted-leads tx supply t cid h repo, key)) rest)
                (Grows-turned t repo (suc repo.drawn)))
        | inr (c, found, linked, _) ↦
            let rest = attach-Attaches t cid hints repo v there others in
            subst (Attaches t cid (h ∷ hints) repo) (sym (attach-linked t cid h hints repo c found))
              (elim (Bool-cases (c.id == cid)) [
                | inr other ↦ rw other (Grows-refl t repo)
                | inl same ↦ rw same (
                    linked-Attaches t cid h hints repo
                      (attach_new_identities tx supply cid t hints repo)
                      (ground (arith, linked, same, eq_iff c.id cid)) rest)
              ])
      ]
