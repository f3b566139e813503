-- ===== src/Parsers/Lrc/Durations.antt =====
-- The durations of LRC lines (internal/parsers/lrc.go).
use lyrics_plus.Common.{
  ℕ, ◌+◌, ◌-◌, ◌≤◌, ◌<◌, ◌^◌, ◌≡◌, ◌∙◌, ap, inl, inr, List, [], ◌∷◌, ◌++◌, map, if◌then◌else◌, ltb,
  Bool-cases, arith, sub_i64, sub_i64-le, lt_i64, lt_i64-ltb,
}
use lyrics_plus.Parsers.Lrc.{LrcLine, set_durations}

-- Lines that have no duration yet, in the order of their times, none after the end of the song.
abbrev pub AreTimed : ℕ → List LrcLine → Type 0
AreTimed end [] = Unit
AreTimed end (l ∷ []) = (l.time ≤ end) × (l.duration ≡ 0)
AreTimed end (l ∷ (l' ∷ ls)) = (l.time ≤ l'.time) × ((l'.time ≤ end) × AreTimed end (l' ∷ ls))

abbrev pub end_of : LrcLine → ℕ
end_of l = l.time + l.duration

last_end :
    (end : ℕ) (l : LrcLine)
    → end < 2 ^ 63
    → l.time ≤ end
    → l.duration ≡ 0
    → end_of
        (if lt_i64 0 (sub_i64 end l.time) then record l { duration = sub_i64 end l.time } else l)
      ≡ end
last_end end l h k z =
    let gap = sub_i64-le end l.time h k in
    let sign : lt_i64 0 (sub_i64 end l.time) ≡ ltb 0 (end - l.time) =
      ap (lt_i64 0) gap ∙ lt_i64-ltb 0 (end - l.time) (omega arith) (omega arith) in
    elim (Bool-cases (ltb 0 (end - l.time))) [
      | inl some_left ↦ rw (sign ∙ some_left) (omega (arith, gap))
      | inr none_left ↦ rw (sign ∙ none_left) (ground arith)
    ]

-- When the end of the song is known, below 2^63, and the lines have no duration yet, are in the
-- order of their times and none is after the end of the song, they fill the song from the first
-- line on: each ends, its duration after its time, where the next one begins, and the last one at
-- the end of the song.
pub set_durations_fill :
    (end : ℕ) (l : LrcLine) (ls : List LrcLine)
    → end < 2 ^ 63
    → AreTimed end (l ∷ ls)
    → map end_of (set_durations end (l ∷ ls)) ≡ map (λ (x : LrcLine). x.time) ls ++ (end ∷ [])
unfolding set_durations
set_durations_fill end l [] h (k, z) = ap (λ n. n ∷ []) (last_end end l h k z)
set_durations_fill end l (l' ∷ ls) h (k, (before, a)) =
    let gap = sub_i64-le l'.time l.time (omega arith) k in
    let ends : l.time + sub_i64 l'.time l.time ≡ l'.time = omega (arith, gap) in
    λ i. ends i ∷ set_durations_fill end l' ls h a i
