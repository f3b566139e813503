-- ===== src/Parsers/Kpoe/Groups.antt =====
-- internal/parsers/kpoe.go: no segment is lost, doubled or moved by the grouping into lines, and
-- a line lasts from its first syllable to the end of its last.
use mathlib.Core.List.{append_assoc}
use lyrics_plus.Common.{
  ℕ, ◌+◌, ◌^◌, ◌≤◌, ◌<◌, ◌≡◌, refl, sym, subst, ap, Bool, true, false, Option, none, some, List, [],
  ◌∷◌, ◌++◌, map, All, lt_i64, sub_i64, add_i64, lt_i64-ltb, add_i64-lt, sub_i64-le, if◌then◌else◌,
  arith,
}
use lyrics_plus.Domain.{Syllable, Line}
use lyrics_plus.Parsers.Kpoe.{
  set_bounds, earliest_from, latest_from, finalize_group, add_syllable, grown, group_from,
  nest_flat_lyrics, opening_of, syllable_of, ends_line,
}

abbrev pub syllables : List Line → List Syllable
syllables [] = []
syllables (l ∷ ls) = l.syllabus ++ syllables ls

set_bounds-syllabus : (ss : List Syllable) (l : Line) → (set_bounds ss l).syllabus ≡ l.syllabus
unfolding set_bounds
set_bounds-syllabus [] l = refl
set_bounds-syllabus (s ∷ ss) l = refl

pub finalize_group-syllabus : (l : Line) → (finalize_group l).syllabus ≡ l.syllabus
unfolding finalize_group
finalize_group-syllabus l = set_bounds-syllabus l.syllabus l

abbrev pub held : Option Line → List Syllable
held none = []
held (some l) = l.syllabus

after_segment :
    (b : Bool) (line : Line) (closed still : List Line) (before : List Syllable) (new : Syllable)
    (more : List Syllable)
    → line.syllabus ≡ before ++ (new ∷ [])
    → syllables closed ≡ more
    → syllables still ≡ line.syllabus ++ more
    → syllables (if b then finalize_group line ∷ closed else still) ≡ before ++ (new ∷ more)
after_segment true line closed still before new more el ec es =
    rw (finalize_group-syllabus line, el, ec) (append_assoc before (new ∷ []) more)
after_segment false line closed still before new more el ec es =
    rw (es, el) (append_assoc before (new ∷ []) more)

module _ {S : Type 0} (opening : S → Line) (syllable : S → Syllable) (ends : S → Bool)
    (fresh : (s : S) → (opening s).syllabus ≡ []) where
  pub grown-syllabus :
      (c : Option Line) (s : S)
      → (grown opening syllable ends c s).syllabus ≡ held c ++ (syllable s ∷ [])
  unfolding grown add_syllable
  grown-syllabus none s = rw (fresh s) refl
  grown-syllabus (some l) s = refl

  -- The syllables of the lines are those of the segments, in order.
  pub group_from-syllables :
      (c : Option Line) (segs : List S)
      → syllables (group_from opening syllable ends c segs) ≡ held c ++ map syllable segs
  unfolding group_from
  group_from-syllables none [] = refl
  group_from-syllables (some l) [] = ap (λ ss. ss ++ []) (finalize_group-syllabus l)
  group_from-syllables none (s ∷ rest) =
      after_segment (ends s) _ _ _ [] (syllable s) _ (grown-syllabus none s)
        (group_from-syllables none rest)
        (group_from-syllables (some (grown opening syllable ends none s)) rest)
  group_from-syllables (some l) (s ∷ rest) =
      after_segment (ends s) _ _ _ l.syllabus (syllable s) _ (grown-syllabus (some l) s)
        (group_from-syllables none rest)
        (group_from-syllables (some (grown opening syllable ends (some l) s)) rest)

-- The syllables of the nested lines are the segments, each once and in order.
pub nest_flat_lyrics-syllables :
    (segs : List Line) → syllables (nest_flat_lyrics segs) ≡ map syllable_of segs
unfolding nest_flat_lyrics opening_of
nest_flat_lyrics-syllables segs =
    group_from-syllables opening_of syllable_of ends_line (λ s. refl) none segs

abbrev lesser : ℕ → ℕ → ℕ
lesser a b = if lt_i64 a b then a else b

abbrev greater : ℕ → ℕ → ℕ
greater a b = if lt_i64 a b then b else a

lesser-le : (a b : ℕ) → a < 2 ^ 63 → b < 2 ^ 63 → (lesser a b ≤ a) × (lesser a b ≤ b)
lesser-le a b ha hb = rw (lt_i64-ltb a b ha hb) (ground arith)

greater-le :
    (a b : ℕ)
    → a < 2 ^ 63
    → b < 2 ^ 63
    → (a ≤ greater a b) × (b ≤ greater a b) × (greater a b < 2 ^ 63)
greater-le a b ha hb = rw (lt_i64-ltb a b ha hb) (ground arith)

-- The times are those of a song: no sum of a time and a duration wraps.
abbrev pub IsPlain : Syllable → Type 0
IsPlain s = s.time + s.duration < 2 ^ 63

abbrev pub Covers : ℕ → ℕ → Syllable → Type 0
Covers from to s = (from ≤ s.time) × (s.time + s.duration ≤ to)

earliest_from-le :
    (ss : List Syllable) (e : ℕ)
    → e < 2 ^ 63
    → All IsPlain ss
    → (earliest_from e ss ≤ e) × All (λ s. earliest_from e ss ≤ s.time) ss
unfolding earliest_from
earliest_from-le [] e he all = (omega arith, tt)
earliest_from-le (s ∷ ss) e he (hs, all) =
    let (below, below') = lesser-le s.time e (omega arith) he in
    let (first, rest) = earliest_from-le ss (lesser s.time e) (omega arith) all in
    (omega arith, (omega arith, rest))

latest_from-le :
    (ss : List Syllable) (m : ℕ)
    → m < 2 ^ 63
    → All IsPlain ss
    → (m ≤ latest_from m ss)
      × (latest_from m ss < 2 ^ 63)
      × All (λ s. s.time + s.duration ≤ latest_from m ss) ss
unfolding latest_from
latest_from-le [] m he all = (omega arith, he, tt)
latest_from-le (s ∷ ss) m he (hs, all) =
    let end = add_i64 s.time s.duration in
    let sum : add_i64 s.time s.duration ≡ s.time + s.duration = add_i64-lt s.time s.duration hs in
    let (above, above', small) = greater-le m end he (omega arith) in
    let (first, bound, rest) = latest_from-le ss (greater m end) small all in
    (omega arith, bound, (omega arith, rest))

zip-Covers :
    (from to : ℕ) (ss : List Syllable)
    → All (λ s. from ≤ s.time) ss
    → All (λ s. s.time + s.duration ≤ to) ss
    → All (Covers from to) ss
zip-Covers from to [] a b = tt
zip-Covers from to (s ∷ ss) (a, as') (b, bs) = ((a, b), zip-Covers from to ss as' bs)

set_bounds-Covers :
    (ss : List Syllable) (l : Line)
    → All IsPlain ss
    → let out = set_bounds ss l in All (Covers out.time (out.time + out.duration)) ss
unfolding set_bounds
set_bounds-Covers [] l h = tt
set_bounds-Covers (s ∷ ss) l (hs, h) =
    let (below, begins) = earliest_from-le (s ∷ ss) s.time (omega arith) (hs, h) in
    let (zero_le, small, ends) = latest_from-le (s ∷ ss) 0 (omega arith) (hs, h) in
    let (first, rest) = ends in
    let sub =
      sub_i64-le (latest_from 0 (s ∷ ss)) (earliest_from s.time (s ∷ ss)) small (omega arith) in
    let whole : earliest_from s.time (s ∷ ss)
          + sub_i64 (latest_from 0 (s ∷ ss)) (earliest_from s.time (s ∷ ss))
        ≡ latest_from 0 (s ∷ ss) =
      omega arith in
    zip-Covers _ _ (s ∷ ss) begins
      (subst (λ to. All (λ x. x.time + x.duration ≤ to) (s ∷ ss)) (sym whole) ends)

-- A finalized group begins no later than each of its syllables, and ends no earlier, if the time
-- and the duration of every syllable add up to less than 2^63, so that no time is negative and no
-- sum wraps.
pub finalize_group-Covers :
    (l : Line)
    → All IsPlain l.syllabus
    → let out = finalize_group l in All (Covers out.time (out.time + out.duration)) l.syllabus
unfolding finalize_group
finalize_group-Covers l h = set_bounds-Covers l.syllabus l h
