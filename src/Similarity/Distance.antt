-- ===== src/Similarity/Distance.antt =====
-- The table of internal/similarity/similarity.go computes the edit distance.
use lyrics_plus.Common.{
  ℕ, suc, ◌+◌, ◌≡◌, refl, sym, subst, ◌∙◌, ap, List, [], ◌∷◌, ltb, if◌then◌else◌, length,
  Bool-cases, inl, inr, arith,
}
use lyrics_plus.Common.Text.{Text, text_eq, text_eq_iff}
use lyrics_plus.Domain.Query.{is_empty}
use lyrics_plus.Similarity.{
  min_int, cost, first_row, next_cells, next_row, rows, last_cell, table, levenshtein_distance,
}

-- The edit distance by its recursion on the last runes, the texts written backwards.
unfoldable pub edit : Text → Text → ℕ
edit [] q = length q
edit (a ∷ p) [] = suc (length p)
edit (a ∷ p) (c ∷ q) =
    min_int (edit p (c ∷ q) + 1) (min_int (edit (a ∷ p) q + 1) (edit p q + cost a c))

edit_nil : (p : Text) → edit p [] ≡ length p
unfolding edit
edit_nil [] = refl
edit_nil (a ∷ p) = refl

-- The row for the rune list `q`, from the cell of `p` on, with `r` still to come.
unfoldable row_of : Text → Text → Text → List ℕ
row_of p [] q = edit p q ∷ []
row_of p (a ∷ r) q = edit p q ∷ row_of (a ∷ p) r q

unfoldable tail_of : Text → Text → Text → List ℕ
tail_of p [] q = []
tail_of p (a ∷ r) q = row_of (a ∷ p) r q

row_of-tail_of : (p r q : Text) → row_of p r q ≡ edit p q ∷ tail_of p r q
unfolding row_of tail_of
row_of-tail_of p [] q = refl
row_of-tail_of p (a ∷ r) q = refl

next_cells_of :
    (c a d left : ℕ) (p r q : Text)
    → let cell = min_int (left + 1) (min_int (edit p q + 1) (d + cost a c)) in
      next_cells c (a ∷ r) (d ∷ row_of p r q) left ≡ cell ∷ next_cells c r (row_of p r q) cell
unfolding next_cells
next_cells_of c a d left p r q = rw (row_of-tail_of p r q) refl

-- One round of the loop makes the row for one rune more.
next_cells-row_of :
    (c : ℕ) (p r q : Text) → next_cells c r (row_of p r q) (edit p (c ∷ q)) ≡ tail_of p r (c ∷ q)
unfolding row_of tail_of edit
next_cells-row_of c p [] q = unfold next_cells in refl
next_cells-row_of c p (a ∷ r) q =
    next_cells_of c a (edit p q) (edit p (c ∷ q)) (a ∷ p) r q
    ∙ (ap (◌∷◌ (edit (a ∷ p) (c ∷ q))) (next_cells-row_of c (a ∷ p) r q)
        ∙ sym (row_of-tail_of (a ∷ p) r (c ∷ q)))

next_row-row_of :
    (c : ℕ) (r q : Text) → next_row (suc (length q)) c r (row_of [] r q) ≡ row_of [] r (c ∷ q)
unfolding next_row edit
next_row-row_of c r q =
    ap (◌∷◌ (suc (length q))) (next_cells-row_of c [] r q) ∙ sym (row_of-tail_of [] r (c ∷ q))

first_row-row_of : (p r : Text) → first_row r (length p) ≡ row_of p r []
unfolding first_row row_of
first_row-row_of p [] = ap (λ n. n ∷ []) (sym (edit_nil p))
first_row-row_of p (a ∷ r) = rw (edit_nil p, first_row-row_of (a ∷ p) r) refl

-- The runes of a text before others, backwards.
abbrev pub onto : Text → Text → Text
onto [] q = q
onto (c ∷ r) q = onto r (c ∷ q)

rows-row_of :
    (r1 r2 q : Text) → rows (suc (length q)) r1 r2 (row_of [] r1 q) ≡ row_of [] r1 (onto r2 q)
unfolding rows
rows-row_of r1 [] q = refl
rows-row_of r1 (c ∷ r2) q = rw (next_row-row_of c r1 q) (rows-row_of r1 r2 (c ∷ q))

last_cell_behind : (n : ℕ) (p r q : Text) → last_cell (n ∷ row_of p r q) ≡ last_cell (row_of p r q)
unfolding last_cell
last_cell_behind n p r q = rw (row_of-tail_of p r q) refl

last_cell-row_of : (p r q : Text) → last_cell (row_of p r q) ≡ edit (onto r p) q
unfolding row_of
last_cell-row_of p [] q = unfold last_cell in refl
last_cell-row_of p (a ∷ r) q =
    last_cell_behind (edit p q) (a ∷ p) r q ∙ last_cell-row_of (a ∷ p) r q

table-edit : (r1 r2 : Text) → table r1 r2 ≡ edit (onto r1 []) (onto r2 [])
unfolding table
table-edit r1 r2 =
    rw (first_row-row_of [] r1, rows-row_of r1 r2 []) (last_cell-row_of [] r1 (onto r2 []))

min_int_swap : (x y z : ℕ) → min_int x (min_int y z) ≡ min_int y (min_int x z)
unfolding min_int
min_int_swap x y z = ground arith

cost_comm : (a c : ℕ) → cost a c ≡ cost c a
unfolding cost
cost_comm a c = ground arith

edit_comm : (p q : Text) → edit p q ≡ edit q p
unfolding edit
edit_comm [] [] = refl
edit_comm [] (c ∷ q) = refl
edit_comm (a ∷ p) [] = refl
edit_comm (a ∷ p) (c ∷ q) =
    rw (edit_comm p (c ∷ q), edit_comm (a ∷ p) q, edit_comm p q, cost_comm a c) (min_int_swap _ _ _)

edit_same : (p : Text) → edit p p ≡ 0
unfolding edit min_int cost
edit_same [] = refl
edit_same (a ∷ p) = rw (edit_same p) (ground arith)

length-onto : (r q : Text) → length (onto r q) ≡ length r + length q
length-onto [] q = omega arith
length-onto (c ∷ r) q = omega (arith, length-onto r (c ∷ q))

edit_nil_left : (q : Text) → edit [] q ≡ length q
unfolding edit
edit_nil_left q = refl

-- What follows the test for equal texts.
distinct :
    (s t : Text)
    → (if is_empty s
        then length t
        else if is_empty t
        then length s
        else if ltb (length t) (length s)
        then table t s
        else table s t)
      ≡ edit (onto s []) (onto t [])
unfolding is_empty
distinct [] t = sym (edit_nil_left (onto t []) ∙ (length-onto t [] ∙ omega arith))
distinct (a ∷ s) [] = sym (edit_nil (onto (a ∷ s) []) ∙ (length-onto (a ∷ s) [] ∙ omega arith))
distinct (a ∷ s) (c ∷ t) = elim (Bool-cases (ltb (length (c ∷ t)) (length (a ∷ s)))) [
  | inl e ↦ rw e (table-edit (c ∷ t) (a ∷ s) ∙ edit_comm (onto (c ∷ t) []) (onto (a ∷ s) []))
  | inr e ↦ rw e (table-edit (a ∷ s) (c ∷ t))
]

-- For all texts, the two rows that the code writes over give the edit distance of its recursion,
-- each text read from its end. The shortcuts for equal and for empty texts and the exchange of
-- the texts change nothing.
pub levenshtein_distance-edit :
    (s t : Text) → levenshtein_distance s t ≡ edit (onto s []) (onto t [])
unfolding levenshtein_distance
levenshtein_distance-edit s t = elim (Bool-cases (text_eq s t)) [
  | inl e ↦ rw e (
      sym (
        subst (λ x. edit (onto s []) (onto x []) ≡ 0) ((text_eq_iff s t).0 e)
          (edit_same (onto s []))))
  | inr e ↦ rw e (distinct s t)
]

-- The distance does not depend on the order of the texts.
pub levenshtein_distance_comm : (s t : Text) → levenshtein_distance s t ≡ levenshtein_distance t s
levenshtein_distance_comm s t =
    levenshtein_distance-edit s t
    ∙ (edit_comm (onto s []) (onto t []) ∙ sym (levenshtein_distance-edit t s))
