-- ===== src/Tests/Similarity.antt =====
-- The edit distance of two words (internal/similarity/similarity.go).
use lyrics_plus.Common.{◌≡◌, refl, []}
use lyrics_plus.Common.Text.{codes, text_eq}
use lyrics_plus.Domain.Query.{is_empty}
use lyrics_plus.Similarity.{
  levenshtein_distance, table, rows, next_row, next_cells, first_row, last_cell, min_int, cost,
}
use lyrics_plus.Similarity.Distance.{edit, onto, levenshtein_distance-edit}

kitten : levenshtein_distance (codes "kitten") (codes "sitting") ≡ 3
unfolding levenshtein_distance table rows next_row next_cells first_row last_cell min_int cost
    text_eq is_empty
kitten = refl

levenshtein_distance-edit_example :
    levenshtein_distance (codes "kitten") (codes "sit")
    ≡ edit (onto (codes "kitten") []) (onto (codes "sit") [])
levenshtein_distance-edit_example = levenshtein_distance-edit (codes "kitten") (codes "sit")
