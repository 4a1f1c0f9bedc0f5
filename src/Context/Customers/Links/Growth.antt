-- ===== src/Context/Customers/Links/Growth.antt =====
-- Each operation of the repository, however it ends, only adds links for its own tenant.
use penny_core.Prelude.{
  ℕ, suc, ◌≡◌, refl, sym, subst, String, Bool, true, false, some, List, [], ◌∷◌, map, ◌⊎◌, inl, inr,
  eq_iff, string_eq, pair_eq, pair_beq_iff, arith, Bool-cases, ◌&&◌, not, if◌then◌else◌,
}
use penny_core.Dict
use penny_core.Dict.{get-put, get-put_self, contains-get}
use penny_core.Exec.{Exn, Result, ok, err, validation_error}
use penny_core.Contracts.{fits}
use penny_core.Contracts.Texts.{Texts, is_blank, strip}
use penny_core.Contracts.Customers.{IdentityKind, kind_eq, CustomerIdentity, validated_value}
use penny_core.Context.Customers.{
  LinkKey, Customers, Supply, ident_index_value, new_identity, store_identity, insert_identity,
  insert_identities,
}
use penny_core.Context.Customers.Links.{
  Grows, Grows-refl, Grows-trans, Grows-turned, IsFree, AllFree, AllLead,
}

abbrev pub is_ok : {A : Type 0} → Result Exn A → Bool
is_ok (ok a) = true
is_ok (err x) = false

module _ (tx : Texts) where
  -- A link after the two writes is the new one or was there.
  link_from :
      (t cid : String) (identity : CustomerIdentity) (repo : Customers) (u : String)
      (h : IdentityKind × String) (c : String)
      → Dict.get (store_identity tx t cid identity repo).identity_index (u, h) ≡ some c
      → ((t ≡ u) × (cid ≡ c)) ⊎ (Dict.get repo.identity_index (u, h) ≡ some c)
  unfolding store_identity
  link_from t cid identity repo u h c e = ground (
    arith,
    get-put repo.identity_index (t, (identity.identity_kind, identity.identity_value)) (u, h) cid,
    eq_iff t u,
    e,
  )

  store_identity-Grows :
      (t cid : String) (identity : CustomerIdentity) (repo : Customers)
      → Dict.contains repo.customers (t, cid) ≡ true
      → IsFree repo (t, (identity.identity_kind, identity.identity_value)) cid
      → Grows t repo (store_identity tx t cid identity repo)
  unfolding store_identity
  store_identity-Grows t cid identity repo there free =
      let key : LinkKey = (t, (identity.identity_kind, identity.identity_value)) in
      record {
        linked = λ v. record {
          leads = λ u h c e. elim (link_from t cid identity repo u h c e) [
            | inl (same_t, same_c) ↦
                let (found, at) = contains-get repo.customers (t, cid) there in
                (found, cc (at, same_t, same_c))
            | inr old ↦ v.leads u h c old
          ];
          keyed = v.keyed;
        };
        kept = λ k c e.
            ground (arith, get-put repo.identity_index key k cid, pair_beq_iff key k, free, e);
        present = λ u c e. e;
        other_links =
            λ u h n. ground (arith, get-put repo.identity_index key (u, h) cid, eq_iff t u, n);
        other_customers = λ u c n. refl;
      }

  -- The key under which an identity is indexed.
  abbrev pub index_key : String → IdentityKind × String → LinkKey
  index_key t (kind, value) = (t, (kind, ident_index_value tx kind value))

  abbrev pub turned : Customers → Customers
  turned repo = record repo { drawn = suc repo.drawn }

  -- The identity that a call stores.
  abbrev pub stored_identity :
      Supply → ℕ → String → String → IdentityKind → String → CustomerIdentity
  stored_identity supply n t cid kind value = record {
    id = supply.new_identity_id n;
    tenant_id = t;
    customer_id = cid;
    identity_kind = kind;
    identity_value = ident_index_value tx kind value;
    created_at = supply.now n;
  }

  -- What `CustomerIdentity` accepts.
  abbrev pub identity_fits : Supply → ℕ → String → String → String → Bool
  identity_fits supply n t cid value =
      fits 64 (supply.new_identity_id n)
      && fits 64 t
      && fits 64 cid
      && fits 256 value
      && not (is_blank (strip tx value))

  pub new_identity_lem :
      (supply : Supply) (n : ℕ) (t cid : String) (kind : IdentityKind) (value : String)
      → new_identity tx supply n t cid kind value ≡ (
          if identity_fits supply n t cid value
          then ok (stored_identity supply n t cid kind value)
          else err validation_error)
  unfolding new_identity validated_value ident_index_value
  new_identity_lem supply n t cid kind value = ground arith

  -- What `_insert_identity_locked` leaves when the identity is accepted.
  abbrev pub inserted : Supply → String → String → IdentityKind × String → Customers → Customers
  inserted supply t cid (kind, value) repo =
      store_identity tx t cid (stored_identity supply repo.drawn t cid kind value) (turned repo)

  pub insert_identity_lem :
      (supply : Supply) (t cid : String) (kind : IdentityKind) (value : String) (repo : Customers)
      → insert_identity tx supply t cid kind value repo ≡ (
          if identity_fits supply repo.drawn t cid value
          then (
            ok (stored_identity supply repo.drawn t cid kind value),
            inserted supply t cid (kind, value) repo,
          )
          else (err validation_error, turned repo))
  unfolding insert_identity
  insert_identity_lem supply t cid kind value repo =
      ground (arith, new_identity_lem supply repo.drawn t cid kind value)

  pub inserted-Grows :
      (supply : Supply) (t cid : String) (h : IdentityKind × String) (repo : Customers)
      → Dict.contains repo.customers (t, cid) ≡ true
      → IsFree repo (index_key t h) cid
      → Grows t repo (inserted supply t cid h repo)
  inserted-Grows supply t cid (kind, value) repo there free =
      let identity = stored_identity supply repo.drawn t cid kind value in
      Grows-trans t repo (turned repo) (inserted supply t cid (kind, value) repo)
        (Grows-turned t repo (suc repo.drawn))
        (store_identity-Grows t cid identity (turned repo) there free)

  pub inserted-leads :
      (supply : Supply) (t cid : String) (h : IdentityKind × String) (repo : Customers)
      → Dict.get (inserted supply t cid h repo).identity_index (index_key t h) ≡ some cid
  unfolding store_identity
  inserted-leads supply t cid h repo = get-put_self repo.identity_index (index_key t h) cid

  -- A key that is free for a customer stays so when an identity of the customer is stored.
  inserted-IsFree :
      (supply : Supply) (t cid : String) (h : IdentityKind × String) (repo : Customers)
      (k : LinkKey)
      → IsFree repo k cid
      → IsFree (inserted supply t cid h repo) k cid
  unfolding store_identity
  inserted-IsFree supply t cid h repo k free =
      ground (arith, get-put repo.identity_index (index_key t h) k cid, free)

  inserted-AllFree :
      (supply : Supply) (t cid : String) (h : IdentityKind × String) (repo : Customers)
      (keys : List LinkKey)
      → AllFree repo cid keys
      → AllFree (inserted supply t cid h repo) cid keys
  inserted-AllFree supply t cid h repo [] free = tt
  inserted-AllFree supply t cid h repo (k ∷ keys) (free, rest) =
      (inserted-IsFree supply t cid h repo k free, inserted-AllFree supply t cid h repo keys rest)

  pub insert_identity-Grows :
      (supply : Supply) (t cid : String) (kind : IdentityKind) (value : String) (repo : Customers)
      → Dict.contains repo.customers (t, cid) ≡ true
      → IsFree repo (index_key t (kind, value)) cid
      → Grows t repo (insert_identity tx supply t cid kind value repo).1
  insert_identity-Grows supply t cid kind value repo there free =
      elim (Bool-cases (identity_fits supply repo.drawn t cid value)) [
        | inl fit ↦
            rw (insert_identity_lem supply t cid kind value repo, fit)
              (inserted-Grows supply t cid (kind, value) repo there free)
        | inr unfit ↦
            rw (insert_identity_lem supply t cid kind value repo, unfit)
              (Grows-turned t repo (suc repo.drawn))
      ]

  -- What a loop of inserts leaves, and its links when it comes to its end.
  abbrev pub Fills :
      String → String → List LinkKey → Customers → Result Exn (Unit {0}) × Customers → Type 0
  Fills t cid keys repo r = Grows t repo r.1 × (is_ok r.0 ≡ true → AllLead r.1 cid keys)

  pub insert_identities-step :
      (supply : Supply) (t cid : String) (h : IdentityKind × String)
      (hints : List (IdentityKind × String)) (repo : Customers)
      → insert_identities tx supply t cid (h ∷ hints) repo ≡ (
          if identity_fits supply repo.drawn t cid h.1
          then insert_identities tx supply t cid hints (inserted supply t cid h repo)
          else (err validation_error, turned repo))
  unfolding insert_identities
  insert_identities-step supply t cid (kind, value) hints repo =
      elim (Bool-cases (identity_fits supply repo.drawn t cid value)) [
        | inl fit ↦ rw (insert_identity_lem supply t cid kind value repo, fit) refl
        | inr unfit ↦ rw (insert_identity_lem supply t cid kind value repo, unfit) refl
      ]

  pub insert_identities-Fills :
      (supply : Supply) (t cid : String) (hints : List (IdentityKind × String)) (repo : Customers)
      → Dict.contains repo.customers (t, cid) ≡ true
      → AllFree repo cid (map (index_key t) hints)
      → Fills t cid (map (index_key t) hints) repo (insert_identities tx supply t cid hints repo)
  unfolding insert_identities
  insert_identities-Fills supply t cid [] repo there free = (Grows-refl t repo, λ h. tt)
  insert_identities-Fills supply t cid (h ∷ hints) repo there (free, rest) =
      let keys = map (index_key t) hints in
      let after = inserted supply t cid h repo in
      let first = inserted-Grows supply t cid h repo there free in
      let (g, l) =
        insert_identities-Fills supply t cid hints after (first.present t cid there)
          (inserted-AllFree supply t cid h repo keys rest) in
      let end = insert_identities tx supply t cid hints after in
      subst (Fills t cid (index_key t h ∷ keys) repo)
        (sym (insert_identities-step supply t cid h hints repo))
        (elim (identity_fits supply repo.drawn t cid h.1)
          as (λ fit.
            Fills t cid (index_key t h ∷ keys) repo
              (if fit then end else (err validation_error, turned repo))) [
                | true ↦ (
                  Grows-trans t repo after end.1 first g,
                  λ e. (g.kept (index_key t h) cid (inserted-leads supply t cid h repo), l e),
                )
                | false ↦ (Grows-turned t repo (suc repo.drawn), λ e. ground (arith, e))
              ])
