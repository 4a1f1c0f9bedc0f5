-- ===== src/Context/Customers/Links.antt =====
-- The links from identities to customers: each leads to a stored customer of its tenant, none is
-- ever moved, and a call for one tenant leaves those of the others alone.
pub mod Growth
pub mod Writes
use penny_core.Prelude.{
  ℕ, ◌≡◌, ◌≢◌, refl, String, Bool, true, false, Option, none, some, List, [], ◌∷◌, ◌⊎◌, inl, inr,
  ap₂, eq_iff, string_eq, pair_eq, pair_beq_iff, arith, Option-cases, is_some, ◌∙◌, beq_ne,
}
use penny_core.Dict
use penny_core.Dict.{get-put, contains-get}
use penny_core.Exec.{Exn, Result, ok, err, Result-cases}
use penny_core.Contracts.Texts.{Texts}
use penny_core.Contracts.Customers.{IdentityKind, kind_eq, Customer, CustomerIdentity}
use penny_core.Context.Customers.{
  LinkKey, Customers, Supply, empty_customers, get_customer, find_customer_by_identity,
  ident_index_value, new_identity, store_identity, insert_identity, any_linked, insert_identities,
  new_customer, store_customer, create_customer, add_identity,
}

-- A link leads to a stored customer of its tenant, and a customer is stored under its tenant and id.
pub record IsLinked (repo : Customers) : Type 0 where
  pub leads :
      (t : String) (h : IdentityKind × String) (cid : String)
      → Dict.get repo.identity_index (t, h) ≡ some cid
      → (c : Customer) × (Dict.get repo.customers (t, cid) ≡ some c)
  pub keyed :
      (t cid : String) (c : Customer)
      → Dict.get repo.customers (t, cid) ≡ some c
      → (c.tenant_id ≡ t) × (c.id ≡ cid)

-- What a call for the tenant `t` may do to the links and the customers.
pub record Grows (t : String) (before after : Customers) : Type 0 where
  pub linked : IsLinked before → IsLinked after
  pub kept :
      (k : LinkKey) (cid : String)
      → Dict.get before.identity_index k ≡ some cid
      → Dict.get after.identity_index k ≡ some cid
  pub present :
      (u cid : String)
      → Dict.contains before.customers (u, cid) ≡ true
      → Dict.contains after.customers (u, cid) ≡ true
  pub other_links :
      (u : String) (h : IdentityKind × String)
      → t ≢ u
      → Dict.get after.identity_index (u, h) ≡ Dict.get before.identity_index (u, h)
  pub other_customers :
      (u cid : String)
      → t ≢ u
      → Dict.get after.customers (u, cid) ≡ Dict.get before.customers (u, cid)

pub Grows-refl : (t : String) (repo : Customers) → Grows t repo repo
Grows-refl t repo = record {
  linked = λ v. v;
  kept = λ k cid h. h;
  present = λ u cid h. h;
  other_links = λ u h n. refl;
  other_customers = λ u cid n. refl;
}

pub Grows-trans : (t : String) (a b c : Customers) → Grows t a b → Grows t b c → Grows t a c
Grows-trans t a b c p q = record {
  linked = λ v. q.linked (p.linked v);
  kept = λ k cid h. q.kept k cid (p.kept k cid h);
  present = λ u cid h. q.present u cid (p.present u cid h);
  other_links = λ u h n. q.other_links u h n ∙ p.other_links u h n;
  other_customers = λ u cid n. q.other_customers u cid n ∙ p.other_customers u cid n;
}

-- Drawing an id changes no link.
pub Grows-turned :
    (t : String) (repo : Customers) (n : ℕ) → Grows t repo (record repo { drawn = n })
Grows-turned t repo n = record {
  linked = λ v. record { leads = v.leads; keyed = v.keyed };
  kept = λ k cid h. h;
  present = λ u cid h. h;
  other_links = λ u h n. refl;
  other_customers = λ u cid n. refl;
}

-- `k` is free, or leads to `cid` already.
abbrev pub IsFree : Customers → LinkKey → String → Type 0
IsFree repo k cid =
    (Dict.get repo.identity_index k ≡ none) ⊎ (Dict.get repo.identity_index k ≡ some cid)

-- Every key of the list leads to `cid`.
abbrev pub AllLead : Customers → String → List LinkKey → Type 0
AllLead repo cid [] = Unit {0}
AllLead repo cid (k ∷ keys) = (Dict.get repo.identity_index k ≡ some cid) × AllLead repo cid keys

abbrev pub AllFree : Customers → String → List LinkKey → Type 0
AllFree repo cid [] = Unit {0}
AllFree repo cid (k ∷ keys) = IsFree repo k cid × AllFree repo cid keys

pub AllLead-Grows :
    (t cid : String) (keys : List LinkKey) (before after : Customers)
    → Grows t before after
    → AllLead before cid keys
    → AllLead after cid keys
AllLead-Grows t cid [] before after g l = tt
AllLead-Grows t cid (k ∷ keys) before after g (at, l) =
    (g.kept k cid at, AllLead-Grows t cid keys before after g l)
