-- ===== src/Similarity.antt =====
-- internal/similarity/similarity.go: the edit distance between two texts, as lists of runes. The
-- two rows that the code writes over are lists that each round makes new.
pub mod Distance
use lyrics_plus.Common.{
  ℕ, zero, suc, ◌+◌, Bool, true, false, List, [], ◌∷◌, leb, ltb, ◌==◌, if◌then◌else◌, length,
}
use lyrics_plus.Common.Text.{Text, text_eq}
use lyrics_plus.Domain.Query.{is_empty}

unfoldable pub min_int : ℕ → ℕ → ℕ
min_int a b = if ltb a b then a else b

unfoldable pub cost : ℕ → ℕ → ℕ
cost a b = if a == b then 0 else 1

-- `for i := range prevRow { prevRow[i] = i }`
unfoldable pub first_row : Text → ℕ → List ℕ
first_row [] i = i ∷ []
first_row (a ∷ r) i = i ∷ first_row r (suc i)

-- The cells of a row behind `left`, for a rune of the second text: `above` is the row before, from
-- the cell above `left` on.
unfoldable pub next_cells : ℕ → Text → List ℕ → ℕ → List ℕ
unfolding min_int cost
next_cells c (a ∷ r) (diag ∷ (up ∷ above)) left =
    let cell = min_int (left + 1) (min_int (up + 1) (diag + cost a c)) in
    cell ∷ next_cells c r (up ∷ above) cell
next_cells c r above left = []

unfoldable pub next_row : ℕ → ℕ → Text → List ℕ → List ℕ
next_row j c r above = j ∷ next_cells c r above j

-- The loop over the second text; `j` counts from 1.
unfoldable pub rows : ℕ → Text → Text → List ℕ → List ℕ
rows j r1 [] row = row
rows j r1 (c ∷ r2) row = rows (suc j) r1 r2 (next_row j c r1 row)

unfoldable pub last_cell : List ℕ → ℕ
last_cell [] = 0
last_cell (n ∷ []) = n
last_cell (n ∷ (m ∷ row)) = last_cell (m ∷ row)

unfoldable pub table : Text → Text → ℕ
table r1 r2 = last_cell (rows 1 r1 r2 (first_row r1 0))

unfoldable pub levenshtein_distance : Text → Text → ℕ
levenshtein_distance s t =
    if text_eq s t
    then 0
    else if is_empty s
    then length t
    else if is_empty t
    then length s
    else if ltb (length t) (length s)
    then table t s
    else table s t
