-- ===== src/Context/Linking/Creating.antt =====
-- A payload that nobody is known by: the call creates a customer with all its identities.
use penny_core.Prelude.{
  ℕ, suc, ◌≡◌, ap, String, true, false, Option, none, some, List, length, subst, ◌==◌,
  if◌then◌else◌, inl, inr, ◌∙◌, string_eq, pair_eq, arith, Option-cases, ◌&&◌, mem, beq_refl,
}
use penny_core.Dict
use penny_core.Dict.{get-put}
use penny_core.Dict.Ordered.{length-put_new}
use penny_core.Exec.{ok}
use penny_core.Contracts.{fits, fits_optional}
use penny_core.Contracts.Texts.{Texts, AreUnicode}
use penny_core.Contracts.Customers.{kind_eq, Customer}
use penny_core.Context.Customers.{
  Customers, Supply, any_linked, find_customer_by_identity, get_customer, count_customers,
  store_customer,
}
use penny_core.Context.Customers.Links.{IsLinked}
use penny_core.Context.Customers.Links.Writes.{create_customer_lem, made, with_row}
use penny_core.Context.Ingestion.{IngestionRequest}
use penny_core.Context.Linking.{create_or_match, after_create, resolve_customer}
use penny_core.Context.Linking.Hints.{IdentityHint, extract_identity_hints, extract_display_name}
use penny_core.Context.Linking.Hints.Canonical.{all_canonical}
use penny_core.Context.Linking.Guarantees.{Returns, resolve_customer-Returns}
use penny_core.Context.Linking.Returning.{resolve_missing, hints_canonical}
use penny_core.Context.Linking.Inserting.{
  unlinked, walk_unknown, extract_display_name-fits, any_linked_unknown, insert_identities_total,
  all_short,
}

module _ (tx : Texts) (supply : Supply) (u : AreUnicode tx)
    (customer_ids : (n : ℕ) → fits 64 (supply.new_customer_id n) ≡ true)
    (ids : (n : ℕ) → fits 64 (supply.new_identity_id n) ≡ true) where
  create_new :
      (t : String) (hints : List IdentityHint) (name : Option String) (repo : Customers)
      → fits 64 t ≡ true
      → fits_optional 128 name ≡ true
      → all_canonical tx hints ≡ true
      → all_short tx hints ≡ true
      → any_linked tx t hints repo ≡ false
      → (after : Customers) × (create_or_match tx supply t hints name repo ≡ (
        ok (record {
          customer_id = supply.new_customer_id repo.drawn;
          customer_created = true;
          matched = none;
          identities_added = hints;
        }),
        after,
      ))
        × (after.customers ≡ (with_row tx supply t name repo).customers)
  unfolding create_or_match after_create
  create_new t hints name repo tenant named c s free =
      let new = made tx supply t name repo in
      let (after, filled, same) =
        insert_identities_total tx u supply ids t new.id tenant (customer_ids repo.drawn) hints
          (with_row tx supply t name repo) c s in
      (
        after,
        ground (
          arith,
          create_customer_lem tx supply t hints name repo,
          free,
          customer_ids repo.drawn,
          tenant,
          named,
          filled,
        ),
        same,
      )

  -- A lookup of a customer after a new one was stored.
  get-with_row :
      (t : String) (name : Option String) (repo after : Customers) (u cid : String)
      → after.customers ≡ (with_row tx supply t name repo).customers
      → get_customer u cid after ≡ (
          if t == u && supply.new_customer_id repo.drawn == cid
          then some (made tx supply t name repo)
          else get_customer u cid repo)
  unfolding get_customer store_customer
  get-with_row t name repo after u cid same =
      let new = made tx supply t name repo in
      ap (λ d. Dict.get d (u, cid)) same ∙ get-put repo.customers (t, new.id) (u, cid) new

  count-with_row :
      (t : String) (name : Option String) (repo after : Customers)
      → after.customers ≡ (with_row tx supply t name repo).customers
      → get_customer t (supply.new_customer_id repo.drawn) repo ≡ none
      → count_customers none after ≡ suc (count_customers none repo)
  unfolding count_customers get_customer store_customer
  count-with_row t name repo after same unused =
      let new = made tx supply t name repo in
      ap length same ∙ length-put_new repo.customers (t, new.id) new unused

  -- What a lookup finds is the stored customer with the id that it states.
  found-stored :
      (t : String) (h : IdentityHint) (repo : Customers) (c : Customer)
      → IsLinked repo
      → find_customer_by_identity t h.0 h.1 repo ≡ some c
      → get_customer t c.id repo ≡ some c
  unfolding find_customer_by_identity get_customer
  found-stored t h repo c v found = elim (Option-cases (Dict.get repo.identity_index (t, h))) [
    | inl free ↦ ground (arith, free, found)
    | inr (cid, linked) ↦
        let (d, there) = v.leads t h cid linked in
        ground (arith, linked, there, (v.keyed t cid d there).1, found)
  ]

  -- Where the Unicode tables behave as documented, new ids and the tenant's id fit the contract,
  -- every link leads to a stored customer of its tenant and no other thread is at work: a request
  -- with no explicit id, none of whose identities is known to its tenant and each of which is at
  -- most 256 characters long, for whose customer the tenant has not used the new id, returns a new
  -- customer with all its identities. Afterwards there is one customer more, which is stored under
  -- the new id with the payload's display name, every other customer is as it was, and a lookup of
  -- any of the identities finds the new one.
  pub resolve_customer_new :
      (request : IngestionRequest) (repo : Customers)
      → IsLinked repo
      → request.customer_id ≡ none
      → fits 64 request.tenant_id ≡ true
      → all_short tx (extract_identity_hints tx request.payload) ≡ true
      → get_customer request.tenant_id (supply.new_customer_id repo.drawn) repo ≡ none
      → ((h : IdentityHint)
          → mem h (extract_identity_hints tx request.payload) ≡ true
          → find_customer_by_identity request.tenant_id h.0 h.1 repo ≡ none)
      → let new = made tx supply request.tenant_id (extract_display_name tx request.payload) repo in
        (after : Customers) × (resolve_customer tx supply (λ now. now) request repo ≡ (
          ok (record {
            customer_id = new.id;
            customer_created = true;
            matched = none;
            identities_added = extract_identity_hints tx request.payload;
          }),
          after,
        ))
        × (count_customers none after ≡ suc (count_customers none repo))
        × ((u cid : String)
            → get_customer u cid after ≡ (
                if request.tenant_id == u && new.id == cid
                then some new
                else get_customer u cid repo))
        × ((h : IdentityHint)
            → mem h (extract_identity_hints tx request.payload) ≡ true
            → find_customer_by_identity request.tenant_id h.0 h.1 after ≡ some new)
  resolve_customer_new request repo v implicit tenant short unused unknown =
      let t = request.tenant_id in
      let name = extract_display_name tx request.payload in
      let hints = extract_identity_hints tx request.payload in
      let c = hints_canonical tx supply u request in
      let free =
        any_linked_unknown tx supply t hints repo c (λ h m. unlinked repo v t h (unknown h m)) in
      let (after, created, rows) =
        create_new t hints name repo tenant (extract_display_name-fits tx request.payload) c short
          free in
      let result =
        resolve_missing tx supply (λ now. now) request repo implicit
          (walk_unknown repo t hints unknown)
        ∙ created in
      let (linked, found) =
        subst (Returns tx supply t hints) result
          (resolve_customer-Returns tx supply u (λ now. now) request repo v v) in
      (
        after,
        result,
        count-with_row t name repo after rows unused,
        λ w cid. get-with_row t name repo after w cid rows,
        λ h m.
            let (d, at, id, _) = found h m in
            let new = made tx supply t name repo in
            ground (
              arith,
              at,
              id,
              found-stored t h after d linked at,
              ap (λ s. get_customer t s after) id,
              get-with_row t name repo after t new.id rows,
              beq_refl t,
              beq_refl new.id,
            ),
      )
