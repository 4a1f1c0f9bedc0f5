-- ===== src/Context/Linking/Races.antt =====
-- A request that comes again, and two requests that race to create one customer.
use penny_core.Prelude.{
  ◌≡◌, refl, ap, String, true, Option, none, some, List, [], ◌∷◌, ◌∙◌, subst, string_eq, pair_eq,
  arith, mem,
}
use penny_core.Dict
use penny_core.Exec.{Exn, Result, ok, err, identity_collision}
use penny_core.Contracts.Texts.{Texts, AreUnicode}
use penny_core.Contracts.Customers.{kind_eq}
use penny_core.Context.Customers.{LinkKey, Customers, Supply, any_linked}
use penny_core.Context.Customers.Links.{IsLinked, AllLead}
use penny_core.Context.Customers.Links.Writes.{create_customer_lem}
use penny_core.Context.Ingestion.{IngestionRequest}
use penny_core.Context.Linking.{
  LinkingOutcome, match_kinds, create_or_match, after_create, resolve_customer,
}
use penny_core.Context.Linking.Hints.{
  IdentityHint, lookup_priority, extract_identity_hints, extract_display_name,
}
use penny_core.Context.Linking.Hints.Canonical.{all_canonical}
use penny_core.Context.Linking.Attaching.{keys_of, index_key-canonical}
use penny_core.Context.Linking.Resolving.{Resolves, match_or-some}
use penny_core.Context.Linking.Returning.{
  resolve_found, resolve_missing, resolve-Resolves, hints_canonical,
}
use penny_core.Context.Linking.Replays.{again, walk_again}

module _ (tx : Texts) (supply : Supply) where
  any_linked_lead :
      (repo : Customers) (t cid : String) (hints : List IdentityHint) (g : IdentityHint)
      → all_canonical tx hints ≡ true
      → AllLead repo cid (keys_of t hints)
      → mem g hints ≡ true
      → any_linked tx t hints repo ≡ true
  unfolding any_linked mem
  any_linked_lead repo t cid [] g c l m = ground (arith, m)
  any_linked_lead repo t cid (h ∷ hints) g c (at, l) m = ground (
    arith,
    ap (Dict.get repo.identity_index) (index_key-canonical tx supply t h (ground (arith, c))),
    at,
  )

  -- Step 3 when every identity leads to `cid` by then: the collision is met and the second walk
  -- finds the customer.
  create_again :
      (repo : Customers) (t cid : String) (hints : List IdentityHint) (name : Option String)
      (g : IdentityHint)
      → IsLinked repo
      → all_canonical tx hints ≡ true
      → AllLead repo cid (keys_of t hints)
      → mem g hints ≡ true
      → (h : IdentityHint) × (create_or_match tx supply t hints name repo
          ≡ (ok (again cid h), repo))
  unfolding create_or_match after_create
  create_again repo t cid hints name g v c l m =
      let (h, customer, walked, linked) = walk_again tx supply repo v t cid hints l g m in
      (
        h,
        ground (
          arith,
          create_customer_lem tx supply t hints name repo,
          any_linked_lead repo t cid hints g c l m,
          match_or-some tx supply (λ s. (err identity_collision, s)) t hints h customer repo walked,
          linked,
        ),
      )

  module _ (u : AreUnicode tx) where
    -- Every identity of the payload leads to the customer of an outcome that was returned.
    returned_lead :
        (between : Customers → Customers) (request : IngestionRequest) (repo after : Customers)
        (o : LinkingOutcome)
        → IsLinked repo
        → IsLinked (between repo)
        → resolve_customer tx supply between request repo ≡ (ok o, after)
        → IsLinked after
          × AllLead after o.customer_id
              (keys_of request.tenant_id (extract_identity_hints tx request.payload))
    returned_lead between request repo after o v w e =
        let (start, _, linked, resolves) = resolve-Resolves tx supply u between request repo v w in
        let (grown, _, l) =
          subst
            (Resolves tx supply request.tenant_id (extract_identity_hints tx request.payload) start)
            e resolves in
        (grown.linked linked, l)

    AllLead-kept :
        (before after : Customers) (cid t : String) (hints : List IdentityHint)
        → ((k : LinkKey) (c : String)
            → Dict.get before.identity_index k ≡ some c
            → Dict.get after.identity_index k ≡ some c)
        → AllLead before cid (keys_of t hints)
        → AllLead after cid (keys_of t hints)
    AllLead-kept before after cid t [] kept l = tt
    AllLead-kept before after cid t (h ∷ hints) kept (at, l) =
        (kept (t, h) cid at, AllLead-kept before after cid t hints kept l)

    -- Where the Unicode tables behave as documented and every link leads to a stored customer of
    -- its tenant: after a request that returned, in any later state that kept its links, a request
    -- of the same tenant with no explicit id and the same payload, which states an identity, is
    -- matched to the customer of the first by one of the identities, adds none and changes
    -- nothing.
    pub resolve_customer_replay :
        (between : Customers → Customers) (request : IngestionRequest) (repo after : Customers)
        (o : LinkingOutcome) (g : IdentityHint) (later : Customers)
        → IsLinked repo
        → IsLinked (between repo)
        → resolve_customer tx supply between request repo ≡ (ok o, after)
        → IsLinked later
        → ((k : LinkKey) (c : String)
            → Dict.get after.identity_index k ≡ some c
            → Dict.get later.identity_index k ≡ some c)
        → mem g (extract_identity_hints tx request.payload) ≡ true
        → (h : IdentityHint) × (resolve_customer tx supply between
              (record request { customer_id = none })
              later
            ≡ (ok (again o.customer_id h), later))
    resolve_customer_replay between request repo after o g later v w e x kept m =
        let t = request.tenant_id in
        let hints = extract_identity_hints tx request.payload in
        let (_, l) = returned_lead between request repo after o v w e in
        let lead = AllLead-kept after later o.customer_id t hints kept l in
        let (h, c, walked, linked) = walk_again tx supply later x t o.customer_id hints lead g m in
        (
          h,
          resolve_found tx supply between (record request { customer_id = none }) later (h, c) refl
                walked
              ∙ linked,
        )

    -- Where the Unicode tables behave as documented and every link leads to a stored customer of
    -- its tenant: of two requests of a tenant with no explicit id and the same payload, which
    -- states an identity, when the second finds no customer, the first is then resolved as a
    -- whole and returns, and only then the second goes on to create the customer, then the second
    -- is matched to the customer of the first, adds no identity and changes nothing.
    pub resolve_customer_race :
        (request : IngestionRequest) (repo after : Customers) (o : LinkingOutcome)
        (g : IdentityHint)
        → IsLinked repo
        → request.customer_id ≡ none
        → match_kinds lookup_priority request.tenant_id
            (extract_identity_hints tx request.payload)
            repo
          ≡ none
        → resolve_customer tx supply (λ now. now) request repo ≡ (ok o, after)
        → mem g (extract_identity_hints tx request.payload) ≡ true
        → (h : IdentityHint) × (resolve_customer tx supply
              (λ now. (resolve_customer tx supply (λ alone. alone) request now).1)
              request
              repo
            ≡ (ok (again o.customer_id h), after))
    resolve_customer_race request repo after o g v implicit walked e m =
        let t = request.tenant_id in
        let hints = extract_identity_hints tx request.payload in
        let name = extract_display_name tx request.payload in
        let alone : Customers → Customers = λ now. now in
        let winner : Customers → Customers =
          λ now. (resolve_customer tx supply alone request now).1 in
        let (linked, l) = returned_lead alone request repo after o v v e in
        let (h, created) =
          create_again after t o.customer_id hints name g linked
            (hints_canonical tx supply u request) l m in
        (
          h,
          resolve_missing tx supply winner request repo implicit walked
              ∙ ap
                  (λ (r : Result Exn LinkingOutcome × Customers).
                    create_or_match tx supply t hints name r.1)
                  e
              ∙ created,
        )
