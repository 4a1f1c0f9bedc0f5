-- ===== src/Context/Briefs.antt =====
-- `pack_segments` of context_engine/brief_assembly.py, with `estimate_tokens` of
-- context_engine/retrieval/recency.py. A budget is a natural number, so that 0 stands for the
-- budgets that are refused.
pub mod Lines
pub mod Budget
mod Tests
use Prim.Native.String.{count}
use penny_core.Prelude.{
  ℕ, zero, suc, ◌+◌, ◌/◌, Bool, true, false, not, ◌&&◌, Option, none, some, List, [], ◌∷◌, ◌++◌,
  String, ltb, leb, length, ◌==◌, string_eq, if◌then◌else◌,
}
use penny_core.Context.Briefs.Lines.{join_lines}
use penny_core.Exec.{Exn, Result, ok, err, value_error}

-- `BriefSegment`, its fields that the assembly reads.
pub record BriefSegment : Type 0 where
  pub body : String
  pub token_estimate : ℕ

unfoldable pub estimate_tokens : String → ℕ
estimate_tokens text = count text / 4

abbrev pub newline_token_cost : ℕ
newline_token_cost = 1

-- The parts and the tokens used when the header is reserved; `if header` skips an empty one.
unfoldable pub reserve_header : ℕ → Option String → List String × ℕ
unfolding estimate_tokens
reserve_header budget none = ([], 0)
reserve_header budget (some header) =
    let cost = estimate_tokens header + newline_token_cost in
    if not (header == "") && leb cost budget then (header ∷ [], cost) else ([], 0)

-- The loop over the segments: one that does not fit is skipped, not the end.
unfoldable pub pack_loop : ℕ → List BriefSegment → List String × ℕ → List String × ℕ
pack_loop budget [] (parts, used) = (parts, used)
pack_loop budget (seg ∷ segments) (parts, used) =
    let cost = seg.token_estimate + newline_token_cost in
    pack_loop budget segments
      (if ltb budget (used + cost) then (parts, used) else (parts ++ seg.body ∷ [], used + cost))

-- `parts.pop()`
unfoldable pub drop_last : List String → List String
drop_last [] = []
drop_last (part ∷ []) = []
drop_last (part ∷ next ∷ parts) = part ∷ drop_last (next ∷ parts)

-- The `while` loop at the end, on fuel: each turn pops a part, so that their number is enough.
unfoldable pub trim : ℕ → ℕ → List String → List String
unfolding estimate_tokens join_lines drop_last
trim zero budget parts = parts
trim (suc fuel) budget [] = []
trim (suc fuel) budget (part ∷ parts) =
    let rest = trim fuel budget (drop_last (part ∷ parts)) in
    if ltb budget (estimate_tokens (join_lines (part ∷ parts))) then rest else part ∷ parts

unfoldable pub pack_segments : List BriefSegment → ℕ → Option String → Result Exn String
unfolding reserve_header pack_loop trim join_lines
pack_segments segments budget header =
    let parts = (pack_loop budget segments (reserve_header budget header)).0 in
    if leb budget 0 then err value_error else ok (join_lines (trim (length parts) budget parts))
