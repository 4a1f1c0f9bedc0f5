-- ===== src/Context/Briefs/Tests.antt =====
-- Two segments and a budget that has room for one beside the header.
use penny_core.Prelude.{◌≡◌, ◌≤◌, refl, arith, String, some, List, [], ◌∷◌}
use penny_core.Exec.{ok}
use penny_core.Context.Briefs.{
  BriefSegment, pack_segments, pack_loop, reserve_header, estimate_tokens,
}
use penny_core.Context.Briefs.Lines.{join_lines}
use penny_core.Context.Briefs.Budget.{brief_within_budget, exact_estimates_untrimmed, Honest}

abbrev segments : List BriefSegment
segments =
    record { body = "an older message of this borrower"; token_estimate = 8 }
    ∷ record { body = "short"; token_estimate = 1 }
    ∷ []

packed : pack_segments segments 8 (some "Borrower: c1") ≡ ok "Borrower: c1\nshort"
unfolding pack_segments estimate_tokens
packed = refl

honest : Honest segments
unfolding estimate_tokens
honest = (refl, (refl, tt))

brief_within_budget_example :
    (brief : String) × (pack_segments segments 8 (some "Borrower: c1") ≡ ok brief)
    × (estimate_tokens brief ≤ 8)
brief_within_budget_example = brief_within_budget segments 8 (some "Borrower: c1") (omega arith)

exact_estimates_untrimmed_example :
    pack_segments segments 8 (some "Borrower: c1")
    ≡ ok (join_lines (pack_loop 8 segments (reserve_header 8 (some "Borrower: c1"))).0)
exact_estimates_untrimmed_example =
    exact_estimates_untrimmed segments 8 (some "Borrower: c1") (omega arith) honest
