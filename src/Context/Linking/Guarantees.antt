-- ===== src/Context/Linking/Guarantees.antt =====
-- What callers of `resolve_customer` rely on.
use penny_core.Prelude.{
  ◌≡◌, subst, String, true, some, List, inl, inr, string_eq, pair_eq, arith, mem,
}
use penny_core.Exec.{Exn, Result, ok, err}
use penny_core.Contracts.Texts.{Texts, AreUnicode}
use penny_core.Contracts.Customers.{kind_eq, Customer}
use penny_core.Context.Customers.{Customers, Supply, find_customer_by_identity}
use penny_core.Context.Customers.Links.{IsLinked, Grows}
use penny_core.Context.Ingestion.{IngestionRequest}
use penny_core.Context.Linking.{LinkingOutcome, resolve_customer}
use penny_core.Context.Linking.Hints.{IdentityHint, extract_identity_hints}
use penny_core.Context.Linking.Resolving.{AllLead-mem, Resolves}
use penny_core.Context.Linking.Returning.{resolve-Resolves}

module _ (tx : Texts) (supply : Supply) where
  -- A returned outcome names a stored customer, and every hint is a lookup of it.
  abbrev pub Returns : String → List IdentityHint → Result Exn LinkingOutcome × Customers → Type 0
  Returns t hints (err x, after) = IsLinked after
  Returns t hints (ok o, after) =
      IsLinked after
      × ((h : IdentityHint)
          → mem h hints ≡ true
          → (c : Customer) × (find_customer_by_identity t h.0 h.1 after ≡ some c)
            × (c.id ≡ o.customer_id)
            × (c.tenant_id ≡ t))

  Resolves-Returns :
      (t : String) (hints : List IdentityHint) (repo : Customers)
      (r : Result Exn LinkingOutcome × Customers)
      → IsLinked repo
      → Resolves tx supply t hints repo r
      → Returns t hints r
  unfolding find_customer_by_identity
  Resolves-Returns t hints repo (err x, after) v g = g.linked v
  Resolves-Returns t hints repo (ok o, after) v (g, there, l) = (
    g.linked v,
    λ h m.
        let at = AllLead-mem after t o.customer_id hints h l m in
        let (c, stored) = (g.linked v).leads t h o.customer_id at in
        let (tenant, id) = (g.linked v).keyed t o.customer_id c stored in
        (c, ground (arith, at, stored), id, tenant),
  )

  Resolves-Grows :
      (t : String) (hints : List IdentityHint) (repo : Customers)
      (r : Result Exn LinkingOutcome × Customers)
      → Resolves tx supply t hints repo r
      → Grows t repo r.1
  Resolves-Grows t hints repo (err x, after) g = g
  Resolves-Grows t hints repo (ok o, after) (g, _, _) = g

  module _ (u : AreUnicode tx) where
    -- Where the Unicode tables behave as documented, and before the call and after what other
    -- threads do during it every link leads to a stored customer of its tenant: it is so after
    -- the call, also when the call raises, and when the call returns, then looking up any
    -- identity of the payload finds the customer that the outcome names, in the tenant of the
    -- request.
    pub resolve_customer-Returns :
        (between : Customers → Customers) (request : IngestionRequest) (repo : Customers)
        → IsLinked repo
        → IsLinked (between repo)
        → Returns request.tenant_id
            (extract_identity_hints tx request.payload)
            (resolve_customer tx supply between request repo)
    resolve_customer-Returns between request repo v w =
        let (start, _, linked, resolves) = resolve-Resolves tx supply u between request repo v w in
        Resolves-Returns request.tenant_id (extract_identity_hints tx request.payload) start
          (resolve_customer tx supply between request repo) linked resolves

    -- Where the Unicode tables behave as documented, every link leads to a stored customer of its
    -- tenant and no other thread is at work: whether the call returns or raises, every link still
    -- leads to the customer that it led to, every customer is still stored, and the links and the
    -- customers of the other tenants are as they were.
    pub resolve_customer-Grows :
        (request : IngestionRequest) (repo : Customers)
        → IsLinked repo
        → Grows request.tenant_id repo (resolve_customer tx supply (λ now. now) request repo).1
    resolve_customer-Grows request repo v =
        let alone : Customers → Customers = λ now. now in
        let (start, same, _, resolves) = resolve-Resolves tx supply u alone request repo v v in
        let from : start ≡ repo = elim same [ inl e ↦ e | inr e ↦ e ] in
        subst (λ s. Grows request.tenant_id s (resolve_customer tx supply alone request repo).1)
          from
          (Resolves-Grows request.tenant_id (extract_identity_hints tx request.payload) start
            (resolve_customer tx supply alone request repo) resolves)
