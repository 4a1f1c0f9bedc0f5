-- ===== src/Context/Linking/Replays.antt =====
-- A payload whose identities lead to a customer already: a replay, and the loser of a race.
use penny_core.Prelude.{
  ◌≡◌, refl, String, true, false, some, List, [], ◌∷◌, inl, inr, string_eq, pair_eq, arith,
  Option-cases, Bool-cases, ◌==◌, mem, eq_iff,
}
use penny_core.Dict
use penny_core.Exec.{ok}
use penny_core.Contracts.Texts.{Texts}
use penny_core.Contracts.Customers.{kind_eq, Customer}
use penny_core.Context.Customers.{Customers, Supply, find_customer_by_identity}
use penny_core.Context.Customers.Links.{IsLinked, AllLead}
use penny_core.Context.Linking.{
  LinkingOutcome, attach_new_identities, all_but, match_kinds, link_match,
}
use penny_core.Context.Linking.Hints.{IdentityHint, lookup_priority}
use penny_core.Context.Linking.Attaching.{keys_of, attach-linked}
use penny_core.Context.Linking.Walk.{walk_found, walk_missing}
use penny_core.Context.Linking.Resolving.{AllLead-mem, link_match_lem}

-- What a key leads to, a lookup finds.
lead_found :
    (repo : Customers) (t cid : String) (h : IdentityHint)
    → IsLinked repo
    → Dict.get repo.identity_index (t, h) ≡ some cid
    → (c : Customer) × (find_customer_by_identity t h.0 h.1 repo ≡ some c) × (c.id ≡ cid)
unfolding find_customer_by_identity
lead_found repo t cid h v at =
    let (c, stored) = v.leads t h cid at in
    (c, ground (arith, at, stored), (v.keyed t cid c stored).1)

AllLead-but :
    (repo : Customers) (t cid : String) (h : IdentityHint) (hints : List IdentityHint)
    → AllLead repo cid (keys_of t hints)
    → AllLead repo cid (keys_of t (all_but h hints))
unfolding all_but
AllLead-but repo t cid h [] l = tt
AllLead-but repo t cid h (g ∷ hints) (at, l) =
    let rest = AllLead-but repo t cid h hints l in
    elim (Bool-cases (g == h)) [ inl same ↦ rw same rest | inr other ↦ rw other (at, rest) ]

-- The outcome for a payload whose identities all lead to `cid`, and that adds nothing.
abbrev pub again : String → IdentityHint → LinkingOutcome
again cid h = record {
  customer_id = cid;
  customer_created = false;
  matched = some h;
  identities_added = [];
}

module _ (tx : Texts) (supply : Supply) (repo : Customers) (v : IsLinked repo)
    (t cid : String) where
  attach_again :
      (hints : List IdentityHint)
      → AllLead repo cid (keys_of t hints)
      → attach_new_identities tx supply cid t hints repo ≡ (ok [], repo)
  unfolding attach_new_identities
  attach_again [] l = refl
  attach_again (h ∷ hints) (at, l) =
      let (c, found, id) = lead_found repo t cid h v at in
      ground (
        arith,
        attach-linked tx supply t cid h hints repo c found,
        eq_iff c.id cid,
        id,
        attach_again hints l,
      )

  module _ (hints : List IdentityHint) (l : AllLead repo cid (keys_of t hints)) where
    link_again :
        (h : IdentityHint) (c : Customer)
        → c.id ≡ cid
        → link_match tx supply t hints (h, c) repo ≡ (ok (again cid h), repo)
    link_again h c id = ground (
      arith,
      link_match_lem tx supply t hints h c repo,
      attach_again (all_but h hints) (AllLead-but repo t cid h hints l),
      id,
    )

    -- The walk finds the customer.
    pub walk_again :
        (g : IdentityHint)
        → mem g hints ≡ true
        → (h : IdentityHint) × (c : Customer) × (match_kinds lookup_priority t hints repo
            ≡ some (h, c))
          × (link_match tx supply t hints (h, c) repo ≡ (ok (again cid h), repo))
    walk_again g m = elim (Option-cases (match_kinds lookup_priority t hints repo)) [
      | inl nothing ↦
          let (c, found, _) = lead_found repo t cid g v (AllLead-mem repo t cid hints g l m) in
          ground (arith, walk_missing t repo hints g nothing m, found)
      | inr ((h, c), walked) ↦
          let (m', found) = walk_found t repo hints h c walked in
          let (d, found', id) = lead_found repo t cid h v (AllLead-mem repo t cid hints h l m') in
          (h, c, walked, link_again h c (ground (arith, found, found', id)))
    ]
