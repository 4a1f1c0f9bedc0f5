-- ===== src/Context/Linking/Tests.antt =====
-- Two messages of one sender, of whom the repository knows nothing at first.
use penny_core.Prelude.{
  ℕ, suc, String, ◌&&◌, ◌==◌, ◌≡◌, refl, subst, true, none, some, List, [], ◌∷◌, mem, string_eq,
  pair_eq, arith, if◌then◌else◌, distinct,
}
use penny_core.Dict
use penny_core.Exec.{Exn, Result, ok}
use penny_core.Contracts.{fits, fits_optional}
use penny_core.Contracts.Json.{text}
use penny_core.Contracts.Events.{chat, message_received}
use penny_core.Contracts.Texts.{
  is_blank, strip, lstrip, rstrip, keep, starts_with_plus, lstrip_plus,
}
use penny_core.Contracts.Texts.Ascii.{ascii, ascii-AreUnicode, ascii_space, ascii_digit, lower_char}
use penny_core.Contracts.Customers.{
  email, phone, kind_eq, kind_beq, ignores_case, validated_value, Customer,
}
use penny_core.Context.Customers
use penny_core.Context.Customers.{
  Customers, Supply, empty_customers, get_customer, count_customers, ident_index_value,
  find_customer_by_identity,
}
use penny_core.Context.Customers.Links.{IsLinked, Grows}
use penny_core.Context.Customers.Links.Writes.{made}
use penny_core.Context.Ingestion.{IngestionRequest}
use penny_core.Context.Linking.Hints.Canonical.{normalizers_agree, all_canonical}
use penny_core.Context.Linking.Hints.Extraction.{extract_identity_hints_lem, by_priority, stated}
use penny_core.Context.Linking.Guarantees.{
  Returns, resolve_customer-Returns, resolve_customer-Grows,
}
use penny_core.Context.Linking.Replays.{again}
use penny_core.Context.Linking.Races.{resolve_customer_replay, resolve_customer_race}
use penny_core.Context.Linking.Inserting.{all_short}
use penny_core.Context.Linking.Creating.{resolve_customer_new}
use penny_core.Context.Linking.{
  LinkingOutcome, match_kinds, match_kind, match_or, after_create, create_or_match,
  resolve_customer,
}
use penny_core.Context.Linking.Hints.{
  IdentityHint, normalize_identity_value, normalize_phone, extract_identity_hints,
  extract_display_name, first_name, sort_hints, insert_hint, collect_hints, hint_at, priority_index,
  lookup_priority, payload_key_to_kind,
}

abbrev supply : Supply
supply = record {
  new_customer_id = λ n. "cust_1";
  new_identity_id = λ n. "idn_1";
  now = λ n. n;
  later = λ n. n;
}

abbrev request : IngestionRequest
request = record {
  tenant_id = "bank_a";
  customer_id = none;
  channel_code = chat;
  event_type = message_received;
  idempotency_key = none;
  payload = ("phone", text "+1 (555) 0100") ∷ ("from_email", text " BABA@b.co ") ∷ [];
}

abbrev hints : List IdentityHint
hints = (email, "baba@b.co") ∷ (phone, "+15550100") ∷ []

hints_found : extract_identity_hints ascii request.payload ≡ hints
unfolding extract_identity_hints sort_hints insert_hint collect_hints hint_at
    normalize_identity_value normalize_phone priority_index strip lstrip rstrip keep
    starts_with_plus lstrip_plus ascii_space ascii_digit lower_char Dict.get mem kind_beq
hints_found = refl

abbrev first : LinkingOutcome
first = record {
  customer_id = "cust_1";
  customer_created = true;
  matched = none;
  identities_added = hints;
}

abbrev customer : Customer
customer = record {
  id = "cust_1";
  tenant_id = "bank_a";
  display_name = none;
  created_at = 0;
  updated_at = 0;
  metadata = [];
}

abbrev known : Customers
known = record {
  customers = (("bank_a", "cust_1"), customer) ∷ [];
  identities =
      (
        ("bank_a", "idn_1"),
        record {
          id = "idn_1";
          tenant_id = "bank_a";
          customer_id = "cust_1";
          identity_kind = phone;
          identity_value = "+15550100";
          created_at = 2;
        },
      )
      ∷ [];
  identity_index =
      (("bank_a", (email, "baba@b.co")), "cust_1")
      ∷ (("bank_a", (phone, "+15550100")), "cust_1")
      ∷ [];
  drawn = 3;
}

empty_customers-IsLinked : IsLinked empty_customers
unfolding Dict.get
empty_customers-IsLinked = record { leads = λ t h c e. cc e; keyed = λ t c d e. cc e }

nothing_known : match_kinds lookup_priority "bank_a" hints empty_customers ≡ none
unfolding match_kinds match_kind find_customer_by_identity Dict.get kind_beq
nothing_known = refl

created_first : create_or_match ascii supply "bank_a" hints none empty_customers ≡ (ok first, known)
unfolding create_or_match after_create Customers.create_customer Customers.any_linked
    Customers.new_customer Customers.store_customer Customers.insert_identities
    Customers.insert_identity Customers.new_identity Customers.store_identity validated_value
    ident_index_value ignores_case Dict.get Dict.put strip lstrip rstrip ascii_space lower_char
    kind_beq fits fits_optional
created_first = refl

resolved_first :
    resolve_customer ascii supply (λ now. now) request empty_customers ≡ (ok first, known)
unfolding resolve_customer match_or extract_display_name first_name Dict.get
resolved_first = ground (arith, hints_found, nothing_known, created_first)

abbrev known_email : IdentityHint
known_email = (email, "baba@b.co")

known_email_stated : mem known_email (extract_identity_hints ascii request.payload) ≡ true
unfolding mem kind_beq
known_email_stated = rw hints_found refl

known-IsLinked : IsLinked known
known-IsLinked =
    subst (λ (r : Result Exn LinkingOutcome × Customers). IsLinked r.1) resolved_first
      ((resolve_customer-Grows ascii supply ascii-AreUnicode request empty_customers
          empty_customers-IsLinked).linked
        empty_customers-IsLinked)

normalizers_agree_example :
    (ident_index_value ascii phone (normalize_identity_value ascii phone "+1 (555)")
      ≡ normalize_identity_value ascii phone "+1 (555)")
    × (validated_value ascii phone (normalize_identity_value ascii phone "+1 (555)") ≡ (
        if is_blank (normalize_identity_value ascii phone "+1 (555)")
        then none
        else some (normalize_identity_value ascii phone "+1 (555)")))
    × (ident_index_value ascii phone "+1 (555)" ≡ (
        if kind_beq phone phone
        then strip ascii "+1 (555)"
        else normalize_identity_value ascii phone "+1 (555)"))
normalizers_agree_example = normalizers_agree ascii ascii-AreUnicode phone "+1 (555)"

extract_identity_hints_lem_example :
    (all_canonical ascii (extract_identity_hints ascii request.payload) ≡ true)
    × (distinct (extract_identity_hints ascii request.payload) ≡ true)
    × (by_priority (extract_identity_hints ascii request.payload) ≡ true)
    × ((h : IdentityHint)
        → mem h (extract_identity_hints ascii request.payload)
          ≡ stated ascii request.payload payload_key_to_kind h)
extract_identity_hints_lem_example =
    extract_identity_hints_lem ascii request.payload ascii-AreUnicode

resolve_customer-Returns_example :
    Returns ascii supply "bank_a"
      (extract_identity_hints ascii request.payload)
      (resolve_customer ascii supply (λ now. now) request empty_customers)
resolve_customer-Returns_example =
    resolve_customer-Returns ascii supply ascii-AreUnicode (λ now. now) request empty_customers
      empty_customers-IsLinked empty_customers-IsLinked

resolve_customer-Grows_example :
    Grows "bank_a" known (resolve_customer ascii supply (λ now. now) request known).1
resolve_customer-Grows_example =
    resolve_customer-Grows ascii supply ascii-AreUnicode request known known-IsLinked

resolve_customer_replay_example :
    (h : IdentityHint) × (resolve_customer ascii supply (λ now. now) request known
      ≡ (ok (again "cust_1" h), known))
resolve_customer_replay_example =
    resolve_customer_replay ascii supply ascii-AreUnicode (λ now. now) request empty_customers known
      first known_email known empty_customers-IsLinked empty_customers-IsLinked resolved_first
      known-IsLinked (λ k c e. e) known_email_stated

resolve_customer_race_example :
    (h : IdentityHint) × (resolve_customer ascii supply
        (λ now. (resolve_customer ascii supply (λ alone. alone) request now).1)
        request
        empty_customers
      ≡ (ok (again "cust_1" h), known))
resolve_customer_race_example =
    resolve_customer_race ascii supply ascii-AreUnicode request empty_customers known first
      known_email empty_customers-IsLinked refl (rw hints_found nothing_known) resolved_first
      known_email_stated

supply_fits : (n : ℕ) → fits 64 "cust_1" ≡ true
unfolding fits
supply_fits n = refl

identity_supply_fits : (n : ℕ) → fits 64 "idn_1" ≡ true
unfolding fits
identity_supply_fits n = refl

tenant_fits : fits 64 "bank_a" ≡ true
unfolding fits
tenant_fits = refl

hints_short : all_short ascii (extract_identity_hints ascii request.payload) ≡ true
unfolding fits
hints_short = rw hints_found refl

nobody_known :
    (h : IdentityHint)
    → mem h (extract_identity_hints ascii request.payload) ≡ true
    → find_customer_by_identity "bank_a" h.0 h.1 empty_customers ≡ none
unfolding find_customer_by_identity Dict.get
nobody_known h m = refl

id_unused : get_customer "bank_a" "cust_1" empty_customers ≡ none
unfolding get_customer Dict.get
id_unused = refl

resolve_customer_new_example :
    let new =
      made ascii supply "bank_a" (extract_display_name ascii request.payload) empty_customers in
    (after : Customers) × (resolve_customer ascii supply (λ now. now) request empty_customers ≡ (
      ok (record {
        customer_id = "cust_1";
        customer_created = true;
        matched = none;
        identities_added = extract_identity_hints ascii request.payload;
      }),
      after,
    ))
    × (count_customers none after ≡ suc (count_customers none empty_customers))
    × ((u cid : String)
        → get_customer u cid after ≡ (
            if "bank_a" == u && "cust_1" == cid
            then some new
            else get_customer u cid empty_customers))
    × ((h : IdentityHint)
        → mem h (extract_identity_hints ascii request.payload) ≡ true
        → find_customer_by_identity "bank_a" h.0 h.1 after ≡ some new)
resolve_customer_new_example =
    resolve_customer_new ascii supply ascii-AreUnicode supply_fits identity_supply_fits request
      empty_customers empty_customers-IsLinked refl tenant_fits hints_short id_unused nobody_known
