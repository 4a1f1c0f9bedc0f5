-- ===== src/Context/Linking/Returning.antt =====
-- Whatever `resolve_customer` meets in the repository, its result and what it leaves.
use penny_core.Prelude.{
  ◌≡◌, refl, ap₂, sym, subst, String, true, false, Option, none, some, List, [], ◌∷◌, map, ◌⊎◌, inl,
  inr, string_eq, pair_eq, arith, Option-cases, if◌then◌else◌,
}
use penny_core.Dict
use penny_core.Exec.{Exn, Result, ok, err, lookup_error}
use penny_core.Contracts.Texts.{Texts, AreUnicode}
use penny_core.Contracts.Customers.{kind_eq, Customer}
use penny_core.Context.Customers.{Customers, Supply, get_customer, create_customer}
use penny_core.Context.Customers.Links.{IsLinked, Grows, Grows-refl, Grows-trans}
use penny_core.Context.Customers.Links.Growth.{index_key}
use penny_core.Context.Customers.Links.Writes.{Creates, create_customer-Creates}
use penny_core.Context.Ingestion.{IngestionRequest}
use penny_core.Context.Linking.{
  LinkingOutcome, attach_new_identities, match_kinds, link_match, match_or, after_create,
  is_collision, create_or_match, link_explicit, resolve_customer,
}
use penny_core.Context.Linking.Hints.{
  IdentityHint, lookup_priority, extract_identity_hints, extract_display_name,
}
use penny_core.Context.Linking.Hints.Canonical.{all_canonical, is_canonical}
use penny_core.Context.Linking.Hints.Extraction.{extract_identity_hints_lem}
use penny_core.Context.Linking.Attaching.{keys_of, found_link, index_key-canonical, attach-Attaches}
use penny_core.Context.Linking.Walk.{walk_found}
use penny_core.Context.Linking.Resolving.{
  Resolves, link_match-Resolves, enriched-Resolves, link_explicit_lem, match_or-Resolves,
}

pub stored_there :
    (repo : Customers) (t cid : String) (c : Customer)
    → IsLinked repo
    → get_customer t cid repo ≡ some c
    → Dict.contains repo.customers (t, c.id) ≡ true
unfolding get_customer
stored_there repo t cid c v stored = ground (arith, stored, (v.keyed t cid c stored).1)

module _ (tx : Texts) (supply : Supply) where
  index_keys-canonical :
      (t : String) (hints : List IdentityHint)
      → all_canonical tx hints ≡ true
      → map (index_key tx t) hints ≡ keys_of t hints
  index_keys-canonical t [] canonical = refl
  index_keys-canonical t (h ∷ hints) canonical =
      let this : is_canonical tx h ≡ true = ground (arith, canonical) in
      let others : all_canonical tx hints ≡ true = ground (arith, canonical) in
      ap₂ (λ k keys. k ∷ keys) (index_key-canonical tx supply t h this)
        (index_keys-canonical t hints others)

  Resolves-trans :
      (t : String) (hints : List IdentityHint) (repo between : Customers)
      (r : Result Exn LinkingOutcome × Customers)
      → Grows t repo between
      → Resolves tx supply t hints between r
      → Resolves tx supply t hints repo r
  Resolves-trans t hints repo between (err x, after) p q = Grows-trans t repo between after p q
  Resolves-trans t hints repo between (ok o, after) p (q, there, l) =
      (Grows-trans t repo between after p q, there, l)

  after_create-Resolves :
      (t : String) (hints : List IdentityHint) (repo : Customers)
      (r : Result Exn Customer × Customers)
      → IsLinked repo
      → all_canonical tx hints ≡ true
      → Creates tx t (keys_of t hints) repo r
      → Resolves tx supply t hints repo (after_create tx supply t hints r.0 r.1)
  unfolding after_create
  after_create-Resolves t hints repo (ok c, after) v canonical created = created
  after_create-Resolves t hints repo (err x, after) v canonical grown =
      let again = match_or tx supply (λ s. (err x, s)) t hints after in
      elim (is_collision x)
        as (λ c. Resolves tx supply t hints repo (if c then again else (err x, after))) [
          | true ↦ Resolves-trans t hints repo after again grown (
              match_or-Resolves tx supply (λ s. (err x, s)) t hints after (grown.linked v) canonical
                (Grows-refl t after))
          | false ↦ grown
        ]

  pub create_or_match-Resolves :
      (t : String) (hints : List IdentityHint) (name : Option String) (repo : Customers)
      → IsLinked repo
      → all_canonical tx hints ≡ true
      → Resolves tx supply t hints repo (create_or_match tx supply t hints name repo)
  unfolding create_or_match
  create_or_match-Resolves t hints name repo v canonical =
      after_create-Resolves t hints repo (create_customer tx supply t hints name repo) v canonical (
        subst (λ keys. Creates tx t keys repo (create_customer tx supply t hints name repo))
          (index_keys-canonical t hints canonical)
          (create_customer-Creates tx supply t hints name repo))

  pub link_explicit-unknown :
      (t cid : String) (hints : List IdentityHint) (repo : Customers)
      → get_customer t cid repo ≡ none
      → link_explicit tx supply t cid hints repo ≡ (err lookup_error, repo)
  unfolding link_explicit
  link_explicit-unknown t cid hints repo missing = ground (arith, missing)

  link_explicit-Resolves :
      (t cid : String) (hints : List IdentityHint) (repo : Customers)
      → IsLinked repo
      → all_canonical tx hints ≡ true
      → Resolves tx supply t hints repo (link_explicit tx supply t cid hints repo)
  link_explicit-Resolves t cid hints repo v canonical =
      elim (Option-cases (get_customer t cid repo)) [
        | inl missing ↦
            subst (Resolves tx supply t hints repo)
              (sym (link_explicit-unknown t cid hints repo missing)) (Grows-refl t repo)
        | inr (c, stored) ↦
            let there = stored_there repo t cid c v stored in
            subst (Resolves tx supply t hints repo)
              (sym (link_explicit_lem tx supply t cid hints c repo stored))
              (enriched-Resolves tx supply t c.id none hints hints repo
                (attach_new_identities tx supply c.id t hints repo) there (λ after g l. l)
                (attach-Attaches tx supply t c.id hints repo v there canonical))
      ]

  pub resolve_explicit :
      (between : Customers → Customers) (request : IngestionRequest) (repo : Customers)
      (cid : String)
      → request.customer_id ≡ some cid
      → resolve_customer tx supply between request repo
        ≡ link_explicit tx supply request.tenant_id cid
            (extract_identity_hints tx request.payload)
            repo
  unfolding resolve_customer
  resolve_explicit between request repo cid e = ground (arith, e)

  -- A request with no explicit id, whose walk finds nothing.
  pub resolve_missing :
      (between : Customers → Customers) (request : IngestionRequest) (repo : Customers)
      → request.customer_id ≡ none
      → match_kinds lookup_priority request.tenant_id
          (extract_identity_hints tx request.payload)
          repo
        ≡ none
      → resolve_customer tx supply between request repo
        ≡ create_or_match tx supply request.tenant_id
            (extract_identity_hints tx request.payload)
            (extract_display_name tx request.payload)
            (between repo)
  unfolding resolve_customer match_or
  resolve_missing between request repo e walked = ground (arith, e, walked)

  -- A request with no explicit id, whose walk finds a customer.
  pub resolve_found :
      (between : Customers → Customers) (request : IngestionRequest) (repo : Customers)
      (found : IdentityHint × Customer)
      → request.customer_id ≡ none
      → match_kinds lookup_priority request.tenant_id
          (extract_identity_hints tx request.payload)
          repo
        ≡ some found
      → resolve_customer tx supply between request repo
        ≡ link_match tx supply request.tenant_id
            (extract_identity_hints tx request.payload)
            found
            repo
  unfolding resolve_customer match_or
  resolve_found between request repo found e walked = ground (arith, e, walked)

  module _ (u : AreUnicode tx) where
    pub hints_canonical :
        (request : IngestionRequest)
        → all_canonical tx (extract_identity_hints tx request.payload) ≡ true
    hints_canonical request = (extract_identity_hints_lem tx request.payload u).0

    -- From the state in which the customer is looked up, or created.
    pub resolve-Resolves :
        (between : Customers → Customers) (request : IngestionRequest) (repo : Customers)
        → IsLinked repo
        → IsLinked (between repo)
        → (start : Customers) × ((start ≡ repo) ⊎ (start ≡ between repo))
          × IsLinked start
          × Resolves tx supply request.tenant_id
              (extract_identity_hints tx request.payload)
              start
              (resolve_customer tx supply between request repo)
    resolve-Resolves between request repo v w =
        let t = request.tenant_id in
        let hints = extract_identity_hints tx request.payload in
        let c = hints_canonical request in
        let Result_from = Resolves tx supply t hints in
        elim (Option-cases request.customer_id) [
          | inr (cid, e) ↦ (
            repo,
            inl refl,
            v,
            subst (Result_from repo) (sym (resolve_explicit between request repo cid e))
                (link_explicit-Resolves t cid hints repo v c),
          )
          | inl e ↦ elim (Option-cases (match_kinds lookup_priority t hints repo)) [
            | inl nothing ↦ (
              between repo,
              inr refl,
              w,
              subst (Result_from (between repo))
                  (sym (resolve_missing between request repo e nothing))
                  (create_or_match-Resolves t hints (extract_display_name tx request.payload)
                    (between repo) w c),
            )
            | inr ((h, customer), walked) ↦
                let (m, found) = walk_found t repo hints h customer walked in
                let (linked, there) = found_link repo v t h customer found in
                (
                  repo,
                  inl refl,
                  v,
                  subst (Result_from repo)
                      (sym (resolve_found between request repo (h, customer) e walked))
                      (link_match-Resolves tx supply t hints h customer repo v c linked there),
                )
          ]
        ]
