-- ===== src/Context/Linking/Resolving.antt =====
-- What `resolve_customer` leaves: whoever it returns, every hint of the payload leads there.
use penny_core.Prelude.{
  ◌≡◌, refl, sym, subst, String, true, false, Option, none, some, List, [], ◌∷◌, inl, inr,
  string_eq, pair_eq, pair_beq_iff, arith, Option-cases, Bool-cases, ◌==◌, mem, ap,
}
use penny_core.Dict
use penny_core.Exec.{Exn, Result, ok, err}
use penny_core.Contracts.Texts.{Texts}
use penny_core.Contracts.Customers.{kind_eq, Customer}
use penny_core.Context.Customers.{Customers, Supply, get_customer}
use penny_core.Context.Customers.Links.{IsLinked, Grows, AllLead}
use penny_core.Context.Linking.{
  LinkingOutcome, attach_new_identities, all_but, match_kinds, link_match, match_or, link_explicit,
}
use penny_core.Context.Linking.Hints.{IdentityHint, lookup_priority}
use penny_core.Context.Linking.Hints.Canonical.{all_canonical}
use penny_core.Context.Linking.Attaching.{keys_of, found_link, Attaches, attach-Attaches}
use penny_core.Context.Linking.Walk.{walk_found}

-- Every key of the hints leads to `cid`, one hint at a time.
pub AllLead-mem :
    (repo : Customers) (t cid : String) (hints : List IdentityHint) (h : IdentityHint)
    → AllLead repo cid (keys_of t hints)
    → mem h hints ≡ true
    → Dict.get repo.identity_index (t, h) ≡ some cid
unfolding mem
AllLead-mem repo t cid [] h l m = ground (arith, m)
AllLead-mem repo t cid (g ∷ hints) h (at, l) m = ground (
  arith,
  at,
  AllLead-mem repo t cid hints h l,
  pair_beq_iff h g,
  ap (λ f. Dict.get repo.identity_index (t, f)),
  m,
)

-- The hints but one, and that one: together they are all.
AllLead-all_but :
    (repo : Customers) (t cid : String) (hints : List IdentityHint) (h : IdentityHint)
    → AllLead repo cid (keys_of t (all_but h hints))
    → Dict.get repo.identity_index (t, h) ≡ some cid
    → AllLead repo cid (keys_of t hints)
unfolding all_but
AllLead-all_but repo t cid [] h l at = tt
AllLead-all_but repo t cid (g ∷ hints) h l at =
    let Lead : List IdentityHint → Type 0 = λ rest. AllLead repo cid (keys_of t rest) in
    elim (Bool-cases (g == h)) [
      | inl same ↦
          let e : all_but h (g ∷ hints) ≡ all_but h hints = ground (arith, same) in
          (
            ground
                (arith, at, same, ap (λ f. Dict.get repo.identity_index (t, f)), pair_beq_iff g h),
            AllLead-all_but repo t cid hints h (subst Lead e l) at,
          )
      | inr other ↦
          let e : all_but h (g ∷ hints) ≡ g ∷ all_but h hints = ground (arith, other) in
          let (first, rest) = subst Lead e l in (first, AllLead-all_but repo t cid hints h rest at)
    ]

all_but-all_canonical :
    (tx : Texts) (h : IdentityHint) (hints : List IdentityHint)
    → all_canonical tx hints ≡ true
    → all_canonical tx (all_but h hints) ≡ true
unfolding all_but
all_but-all_canonical tx h [] c = refl
all_but-all_canonical tx h (g ∷ hints) c = ground (arith, all_but-all_canonical tx h hints, c)

module _ (tx : Texts) (supply : Supply) where
  -- What a call for `t` with these hints leaves: if it returns, the customer is stored and every
  -- hint leads to it.
  abbrev pub Resolves :
      String → List IdentityHint → Customers → Result Exn LinkingOutcome × Customers → Type 0
  Resolves t hints repo (err x, after) = Grows t repo after
  Resolves t hints repo (ok o, after) =
      Grows t repo after
      × (Dict.contains after.customers (t, o.customer_id) ≡ true)
      × AllLead after o.customer_id (keys_of t hints)

  -- The outcome for a customer that was there.
  abbrev pub enriched :
      String
      → Option IdentityHint
      → Result Exn (List IdentityHint) × Customers
      → Result Exn LinkingOutcome × Customers
  enriched cid matched (err x, after) = (err x, after)
  enriched cid matched (ok added, after) = (
    ok (record {
      customer_id = cid;
      customer_created = false;
      matched = matched;
      identities_added = added;
    }),
    after,
  )

  pub link_match_lem :
      (t : String) (hints : List IdentityHint) (h : IdentityHint) (c : Customer) (repo : Customers)
      → link_match tx supply t hints (h, c) repo
        ≡ enriched c.id (some h) (attach_new_identities tx supply c.id t (all_but h hints) repo)
  unfolding link_match
  link_match_lem t hints h c repo = ground arith

  pub link_explicit_lem :
      (t cid : String) (hints : List IdentityHint) (c : Customer) (repo : Customers)
      → get_customer t cid repo ≡ some c
      → link_explicit tx supply t cid hints repo
        ≡ enriched c.id none (attach_new_identities tx supply c.id t hints repo)
  unfolding link_explicit
  link_explicit_lem t cid hints c repo there = ground (arith, there)

  pub enriched-Resolves :
      (t cid : String) (matched : Option IdentityHint) (some_hints hints : List IdentityHint)
      (repo : Customers) (r : Result Exn (List IdentityHint) × Customers)
      → Dict.contains repo.customers (t, cid) ≡ true
      → ((after : Customers)
          → Grows t repo after
          → AllLead after cid (keys_of t some_hints)
          → AllLead after cid (keys_of t hints))
      → Attaches tx supply t cid some_hints repo r
      → Resolves t hints repo (enriched cid matched r)
  enriched-Resolves t cid matched some_hints hints repo (err x, after) there all g = g
  enriched-Resolves t cid matched some_hints hints repo (ok added, after) there all (g, l) =
      (g, g.present t cid there, all after g l)

  pub link_match-Resolves :
      (t : String) (hints : List IdentityHint) (h : IdentityHint) (c : Customer) (repo : Customers)
      → IsLinked repo
      → all_canonical tx hints ≡ true
      → Dict.get repo.identity_index (t, h) ≡ some c.id
      → Dict.contains repo.customers (t, c.id) ≡ true
      → Resolves t hints repo (link_match tx supply t hints (h, c) repo)
  link_match-Resolves t hints h c repo v canonical linked there =
      let others = all_but h hints in
      subst (Resolves t hints repo) (sym (link_match_lem t hints h c repo)) (
        enriched-Resolves t c.id (some h) others hints repo
          (attach_new_identities tx supply c.id t others repo) there
          (λ after g l. AllLead-all_but after t c.id hints h l (g.kept (t, h) c.id linked))
          (attach-Attaches tx supply t c.id others repo v there
            (all_but-all_canonical tx h hints canonical)))

  pub match_or-none :
      (missing : Customers → Result Exn LinkingOutcome × Customers) (t : String)
      (hints : List IdentityHint) (repo : Customers)
      → match_kinds lookup_priority t hints repo ≡ none
      → match_or tx supply missing t hints repo ≡ missing repo
  unfolding match_or
  match_or-none missing t hints repo e = ground (arith, e)

  pub match_or-some :
      (missing : Customers → Result Exn LinkingOutcome × Customers) (t : String)
      (hints : List IdentityHint) (h : IdentityHint) (c : Customer) (repo : Customers)
      → match_kinds lookup_priority t hints repo ≡ some (h, c)
      → match_or tx supply missing t hints repo ≡ link_match tx supply t hints (h, c) repo
  unfolding match_or
  match_or-some missing t hints h c repo e = ground (arith, e)

  -- Where a walk that finds nothing is followed by `missing`.
  pub match_or-Resolves :
      (missing : Customers → Result Exn LinkingOutcome × Customers) (t : String)
      (hints : List IdentityHint) (repo : Customers)
      → IsLinked repo
      → all_canonical tx hints ≡ true
      → Resolves t hints repo (missing repo)
      → Resolves t hints repo (match_or tx supply missing t hints repo)
  match_or-Resolves missing t hints repo v canonical otherwise =
      elim (Option-cases (match_kinds lookup_priority t hints repo)) [
        | inl nothing ↦
            subst (Resolves t hints repo) (sym (match_or-none missing t hints repo nothing))
              otherwise
        | inr ((h, c), walked) ↦
            let (m, found) = walk_found t repo hints h c walked in
            let (linked, there) = found_link repo v t h c found in
            subst (Resolves t hints repo) (sym (match_or-some missing t hints h c repo walked))
              (link_match-Resolves t hints h c repo v canonical linked there)
      ]
