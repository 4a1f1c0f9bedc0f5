-- ===== src/Context/Briefs/Lines.antt =====
-- Python's `"\n".join`.
use Prim.Native.String.{String, count, ◌++◌}
use text.Mathlib.TextLemmas.{length-append}
use penny_core.Prelude.{ℕ, ◌+◌, ◌≤◌, ◌≡◌, refl, List, [], ◌∷◌, arith}

-- `"\n".join(parts)`
unfoldable pub join_lines : List String → String
join_lines [] = ""
join_lines (part ∷ []) = part
join_lines (part ∷ next ∷ parts) = part ++ ("\n" ++ join_lines (next ∷ parts))

-- The characters of the parts with a newline each.
unfoldable pub weight : List String → ℕ
weight [] = 0
weight (part ∷ parts) = count part + 1 + weight parts

count_newline : count "\n" ≡ 1
count_newline = refl

count_nil : count "" ≡ 0
count_nil = refl

pub join_lines_nil : count (join_lines []) ≡ 0
unfolding join_lines
join_lines_nil = count_nil

pub join_lines-weight : (parts : List String) → count (join_lines parts) ≤ weight parts
unfolding weight join_lines
join_lines-weight [] = omega (arith, count_nil)
join_lines-weight (part ∷ []) = omega arith
join_lines-weight (part ∷ next ∷ parts) = omega (
  arith,
  join_lines-weight (next ∷ parts),
  length-append part ("\n" ++ join_lines (next ∷ parts)),
  length-append "\n" (join_lines (next ∷ parts)),
  count_newline,
)
