-- ===== src/Context/SemanticCache/Tests.antt =====
-- A cache of two entries for a tenant, where texts are alike when they are as long.
use Prim.Native.String.{count}
use penny_core.Prelude.{
  ℕ, ◌+◌, ◌*◌, string_eq, ◌≡◌, refl, String, true, some, List, [], ◌∷◌, arith, nat_beq, ltb, leb,
  if◌then◌else◌,
}
use penny_core.Dict
use penny_core.Exec.{Exn, ok, err, Exec}
use penny_core.Context.SemanticCache.{
  exact, Floats, Cache, empty_cache, evict, missed, miss_result, lookup, store, complete,
}
use penny_core.Context.SemanticCache.Namespaces.{Evicts, evict-Evicts}
use penny_core.Context.SemanticCache.Validity.{IsValid, empty_cache-IsValid}
use penny_core.Context.SemanticCache.Stores.{lookup-store}
use penny_core.Context.SemanticCache.Calls.{
  CacheCall, look, keep, perform_all, calls_keep-IsValid, foreign_calls_unseen,
}
use penny_core.Context.SemanticCache.Client.{complete_asks_once}

abbrev floats : Floats ℕ ℕ ℕ
floats = record {
  embed = count;
  cosine = λ a b. if nat_beq a b then 10 else 3;
  zero_score = 0;
  one_score = 10;
  exact_score = 9;
  is_above = λ a b. ltb b a;
  is_at_least = λ a b. leb b a;
  no_cost = 0;
  add_entry_cost = λ c i o. c + i * 3 + o * 15;
}

abbrev calls : List CacheCall
calls =
    keep "bank_a" "What is my balance?" "12"
    ∷ keep "bank_a" "Where is my card?" "On its way."
    ∷ look "bank_a" "What is my balance?"
    ∷ keep "bank_a" "Who are you?" "PennyCore."
    ∷ []

abbrev filled : Cache ℕ ℕ
filled = perform_all floats 8 2 calls (empty_cache floats)

calls_keep-IsValid_example : IsValid floats 8 2 (perform_all floats 8 2 calls (empty_cache floats))
calls_keep-IsValid_example = calls_keep-IsValid floats 8 2 calls

filled-IsValid : IsValid floats 8 2 filled
filled-IsValid = calls_keep-IsValid floats 8 2 calls

lookup-store_example :
    (after : Cache ℕ ℕ) × (later : Cache ℕ ℕ) × (store floats 8 2 "bank_a" "Where is my card?"
        "Lost." filled
      ≡ (ok tt, after))
    × (lookup floats 8 2 "bank_a" "Where is my card?" after ≡ (
      ok (record { hit = true; response = some "Lost."; similarity = 10; kind = exact }),
      later,
    ))
lookup-store_example =
    lookup-store floats 8 2 filled filled-IsValid "bank_a" "Where is my card?" "Lost." (omega arith)

foreign_calls_unseen_example :
    (lookup floats 8 2 "bank_b" "What is my balance?" (perform_all floats 8 2 calls filled)).0
    ≡ (lookup floats 8 2 "bank_b" "What is my balance?" filled).0
foreign_calls_unseen_example =
    foreign_calls_unseen floats 8 2 calls "bank_b" "What is my balance?" filled filled-IsValid refl

abbrev answer_hi : String → Exec ℕ String
answer_hi prompt n = (ok "Hi.", n + 1)

abbrev answer_bye : String → Exec ℕ String
answer_bye prompt n = (err Exn.value_error, n + 1)

first_misses : lookup floats 8 2 "bank_a" "Hello" (empty_cache floats) ≡ (
  ok (miss_result floats 0),
  record (empty_cache floats) { stats = missed floats (empty_cache floats).stats },
)
unfolding lookup Dict.get
first_misses = refl

complete_asks_once_example :
    (after : Cache ℕ ℕ) × (later : Cache ℕ ℕ) × (complete floats 8 2 answer_hi "bank_a" "Hello"
        (empty_cache floats, 0)
      ≡ (ok "Hi.", (after, 1)))
    × (complete floats 8 2 answer_bye "bank_a" "Hello" (after, 1) ≡ (ok "Hi.", (later, 1)))
complete_asks_once_example =
    complete_asks_once floats 8 2 answer_hi answer_bye "bank_a" "Hello" "Hi." 0 1 1
      (miss_result floats 0) (empty_cache floats)
      (record (empty_cache floats) { stats = missed floats (empty_cache floats).stats })
      (omega arith) (empty_cache-IsValid floats 8 2) first_misses refl refl

evict-Evicts_example :
    Evicts 1 filled.next_id
      (Dict.get_list filled.entries "bank_a")
      0
      (evict 1 (Dict.get_list filled.entries "bank_a") (Dict.get_list filled.exact_ids "bank_a") 0)
evict-Evicts_example =
    evict-Evicts 1 filled.next_id (Dict.get_list filled.entries "bank_a")
      (Dict.get_list filled.exact_ids "bank_a") 0 (filled-IsValid.synced "bank_a")
