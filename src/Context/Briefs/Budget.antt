-- ===== src/Context/Briefs/Budget.antt =====
-- A brief never exceeds its token budget, and trimming is never needed for honest estimates.
use Prim.Native.String.{count}
use penny_core.Prelude.{
  ℕ, zero, suc, ◌+◌, ◌*◌, ◌≤◌, ◌≡◌, refl, Option, none, some, List, [], ◌∷◌, ◌++◌, String, ltb,
  length, arith, if◌then◌else◌,
}
use penny_core.Exec.{ok}
use penny_core.Context.Briefs.Lines.{join_lines, weight, join_lines-weight, join_lines_nil}
use penny_core.Context.Briefs.{
  BriefSegment, estimate_tokens, reserve_header, pack_loop, drop_last, trim, pack_segments,
}

length-drop_last :
    (part : String) (parts : List String) → length (drop_last (part ∷ parts)) ≡ length parts
unfolding drop_last
length-drop_last part [] = refl
length-drop_last part (next ∷ parts) = omega (arith, length-drop_last next parts)

-- With a turn for each part, the loop ends in a brief that fits.
trim_fits :
    (fuel budget : ℕ) (parts : List String)
    → length parts ≤ fuel
    → estimate_tokens (join_lines (trim fuel budget parts)) ≤ budget
unfolding trim estimate_tokens
trim_fits zero budget [] h = omega (arith, join_lines_nil)
trim_fits zero budget (part ∷ parts) h = ground arith
trim_fits (suc fuel) budget [] h = omega (arith, join_lines_nil)
trim_fits (suc fuel) budget (part ∷ parts) h =
    ground (arith, trim_fits fuel budget (drop_last (part ∷ parts)), length-drop_last part parts)

-- For every positive budget `pack_segments` returns a brief, and its token estimate is within the
-- budget, whatever estimates the segments carry.
pub brief_within_budget :
    (segments : List BriefSegment) (budget : ℕ) (header : Option String)
    → 1 ≤ budget
    → (brief : String) × (pack_segments segments budget header ≡ ok brief)
      × (estimate_tokens brief ≤ budget)
unfolding pack_segments
brief_within_budget segments budget header h =
    let parts = (pack_loop budget segments (reserve_header budget header)).0 in
    (
      join_lines (trim (length parts) budget parts),
      ground (arith, h),
      trim_fits (length parts) budget parts (omega arith),
    )

weight-snoc :
    (parts : List String) (part : String)
    → weight (parts ++ part ∷ []) ≡ weight parts + (count part + 1)
unfolding weight
weight-snoc [] part = omega arith
weight-snoc (p ∷ parts) part = omega (arith, weight-snoc parts part)

-- Every segment carries the estimate of its body.
abbrev pub Honest : List BriefSegment → Type 0
Honest [] = Unit {0}
Honest (seg ∷ segments) = (seg.token_estimate ≡ estimate_tokens seg.body) × Honest segments

-- The parts cost no more than the tokens used, which are in the budget.
abbrev Within : ℕ → List String × ℕ → Type 0
Within budget (parts, used) = (weight parts ≤ 4 * used) × (used ≤ budget)

reserve_header-Within :
    (budget : ℕ) (header : Option String) → Within budget (reserve_header budget header)
unfolding reserve_header weight estimate_tokens
reserve_header-Within budget none = (omega arith, omega arith)
reserve_header-Within budget (some header) = ground arith

pack_loop-Within :
    (budget : ℕ) (segments : List BriefSegment) (state : List String × ℕ)
    → Honest segments
    → Within budget state
    → Within budget (pack_loop budget segments state)
unfolding pack_loop estimate_tokens
pack_loop-Within budget [] (parts, used) honest h = h
pack_loop-Within budget (seg ∷ segments) (parts, used) (same, honest) (light, fits) =
    let cost = seg.token_estimate + 1 in
    pack_loop-Within budget segments
      (if ltb budget (used + cost) then (parts, used) else (parts ++ seg.body ∷ [], used + cost))
      honest (ground (arith, weight-snoc parts seg.body, same, light, fits))

trim_none :
    (fuel budget : ℕ) (parts : List String)
    → estimate_tokens (join_lines parts) ≤ budget
    → trim fuel budget parts ≡ parts
unfolding trim
trim_none zero budget parts h = refl
trim_none (suc fuel) budget [] h = refl
trim_none (suc fuel) budget (part ∷ parts) h = ground (arith, h)

-- When every segment carries the estimate of its own body, the greedy packing is the result: the
-- loop that trims a brief that is too long never drops anything.
pub exact_estimates_untrimmed :
    (segments : List BriefSegment) (budget : ℕ) (header : Option String)
    → 1 ≤ budget
    → Honest segments
    → pack_segments segments budget header
      ≡ ok (join_lines (pack_loop budget segments (reserve_header budget header)).0)
unfolding pack_segments estimate_tokens
exact_estimates_untrimmed segments budget header h honest =
    let packed = pack_loop budget segments (reserve_header budget header) in
    let within =
      pack_loop-Within budget segments (reserve_header budget header) honest
        (reserve_header-Within budget header) in
    let same =
      trim_none (length packed.0) budget packed.0
        (omega (arith, join_lines-weight packed.0, within.0, within.1)) in
    ground (arith, h, same)
