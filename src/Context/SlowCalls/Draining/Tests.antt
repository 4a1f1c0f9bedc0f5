-- ===== src/Context/SlowCalls/Draining/Tests.antt =====
-- Three calls of one tenant on a queue of two, and one of another.
use penny_core.Prelude.{◌≡◌, String, List, [], ◌∷◌, ◌==◌, string_eq, if◌then◌else◌, take, drop}
use penny_core.Dict
use penny_core.Exec.{ok}
use penny_core.Context.SlowCalls.{DeferredCall, transient_error, drain}
use penny_core.Context.SlowCalls.Draining.{defer_all, waiting, drain-defer_all}

abbrev call : String → String → DeferredCall
call id tenant_id = record {
  id = id;
  tenant_id = tenant_id;
  operation = "load_history";
  reason = transient_error;
  detail = "refused";
  payload = [];
  deferred_at = 5;
  elapsed = 30;
  context = [];
}

abbrev entries : List DeferredCall
entries =
    call "def_1" "bank_a"
    ∷ call "def_2" "bank_b"
    ∷ call "def_3" "bank_a"
    ∷ call "def_4" "bank_a"
    ∷ []

drain-defer_all_example :
    ((drain "bank_a" 1 (defer_all 2 entries [])).0 ≡ ok (take 1 (waiting 2 entries "bank_a")))
    × ((u : String)
        → Dict.get_list (drain "bank_a" 1 (defer_all 2 entries [])).1 u
          ≡ (if "bank_a" == u then drop 1 (waiting 2 entries u) else waiting 2 entries u))
drain-defer_all_example = drain-defer_all 2 entries "bank_a" 1
