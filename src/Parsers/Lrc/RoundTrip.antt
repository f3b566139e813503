-- ===== src/Parsers/Lrc/RoundTrip.antt =====
-- Reading LRC lines that were written out (internal/parsers/lrc.go).
use lyrics_plus.Common.{
  ℕ, suc, ◌+◌, ◌-◌, ◌*◌, ◌^◌, ◌%◌, ◌≡◌, refl, ◌∙◌, ap, inl, inr, Bool, true, false, not, ◌&&◌, none,
  some, List, [], ◌∷◌, ◌++◌, map, ◌==◌, if◌then◌else◌, All, length, min, Bool-cases, sub_i64,
  lt_i64, arith,
}
use lyrics_plus.Common.Text.{Text, join}
use lyrics_plus.Common.Decimal.{itoa, value_from}
use lyrics_plus.Domain.{Line}
use lyrics_plus.Domain.Query.{is_empty}
use lyrics_plus.Parsers.Lrc.{
  onto_first, split_lines, is_digit, digits_then, stop_at, group_to, skip_space, LrcMatch,
  after_secs, after_mins, match_line, LrcLine, atoi, time_of, line_of, lrc_lines, set_durations,
  lyrics_of, convert_lrclib,
}

abbrev pub AreDigits : Text → Type 0
AreDigits ds = (is_empty ds ≡ false) × All (λ c. is_digit c ≡ true) ds

-- A line's parts: three groups of digits, and text without a line break or a space in front.
abbrev pub IsWritable : LrcMatch → Type 0
IsWritable m =
    AreDigits m.mins
    × (AreDigits m.secs
        × (AreDigits m.fraction
            × (All (λ (c : ℕ). (c == 10) ≡ false) m.text × (skip_space m.text ≡ m.text))))

unfoldable pub write_line : LrcMatch → Text
write_line m = b'[' ∷ (m.mins ++ (b':' ∷ (m.secs ++ (b'.' ∷ (m.fraction ++ (b']' ∷ m.text))))))

digits_then-append :
    (ds rest : Text) (stop : ℕ)
    → All (λ c. is_digit c ≡ true) ds
    → is_digit stop ≡ false
    → digits_then (ds ++ (stop ∷ rest)) ≡ (ds, stop ∷ rest)
unfolding digits_then
digits_then-append [] rest stop a h = rw (h, digits_then) refl
digits_then-append (c ∷ ds) rest stop (d, a) h =
    rw (d, digits_then)
      (ap (λ (p : Text × Text). (c ∷ p.0, p.1)) (digits_then-append ds rest stop a h))

group_to-append :
    (ds rest : Text) (stop : ℕ)
    → AreDigits ds
    → is_digit stop ≡ false
    → group_to stop (ds ++ (stop ∷ rest)) ≡ some (ds, rest)
unfolding group_to stop_at
group_to-append ds rest stop (there, a) h =
    let same : (not (is_empty ds) && stop == stop) ≡ true = ground arith in
    ap (stop_at stop) (digits_then-append ds rest stop a h)
    ∙ ap (λ (b : Bool). if b then some (ds, rest) else none) same

after_secs-append :
    (mins secs fraction text : Text)
    → AreDigits fraction
    → skip_space text ≡ text
    → after_secs mins secs (fraction ++ (b']' ∷ text))
      ≡ some record { mins = mins; secs = secs; fraction = fraction; text = text }
unfolding after_secs
after_secs-append mins secs fraction text a h =
    rw (group_to-append fraction text b']' a refl, after_secs) (rw h refl)

after_mins-append :
    (mins secs rest : Text)
    → AreDigits secs
    → after_mins mins (secs ++ (b'.' ∷ rest)) ≡ after_secs mins secs rest
unfolding after_mins
after_mins-append mins secs rest a = rw (group_to-append secs rest b'.' a refl, after_mins) refl

match_line-append :
    (mins rest : Text)
    → AreDigits mins
    → match_line (b'[' ∷ (mins ++ (b':' ∷ rest))) ≡ after_mins mins rest
unfolding match_line
match_line-append mins rest a = rw (group_to-append mins rest b':' a refl, match_line) refl

match_line-write_line : (m : LrcMatch) → IsWritable m → match_line (write_line m) ≡ some m
unfolding write_line
match_line-write_line m (mins, (secs, (fraction, (line, text)))) =
    let third = m.fraction ++ (b']' ∷ m.text) in
    let second = m.secs ++ (b'.' ∷ third) in
    match_line-append m.mins second mins
    ∙ (after_mins-append m.mins m.secs third secs
        ∙ after_secs-append m.mins m.secs m.fraction m.text fraction text)

abbrev IsOneLine : Text → Type 0
IsOneLine t = All (λ (c : ℕ). (c == 10) ≡ false) t

split_lines-one : (t : Text) → IsOneLine t → split_lines t ≡ t ∷ []
unfolding split_lines
split_lines-one [] a = refl
split_lines-one (c ∷ t) (h, a) = rw (h, split_lines) (ap (onto_first c) (split_lines-one t a))

split_lines-append :
    (t rest : Text) → IsOneLine t → split_lines (t ++ (10 ∷ rest)) ≡ t ∷ split_lines rest
unfolding split_lines
split_lines-append [] rest a = refl
split_lines-append (c ∷ t) rest (h, a) =
    rw (h, split_lines) (ap (onto_first c) (split_lines-append t rest a))

split_lines-join :
    (t : Text) (ts : List Text)
    → All IsOneLine (t ∷ ts)
    → split_lines (join (t ∷ ts) (10 ∷ [])) ≡ t ∷ ts
unfolding join
split_lines-join t [] (a, as') = split_lines-one t a
split_lines-join t (u ∷ ts) (a, as') =
    split_lines-append t (join (u ∷ ts) (10 ∷ [])) a ∙ ap (◌∷◌ t) (split_lines-join u ts as')

IsOneLine-append : (s t : Text) → IsOneLine s → IsOneLine t → IsOneLine (s ++ t)
IsOneLine-append [] t a b = b
IsOneLine-append (c ∷ s) t (h, a) b = (h, IsOneLine-append s t a b)

IsOneLine-digits : (ds : Text) → All (λ c. is_digit c ≡ true) ds → IsOneLine ds
IsOneLine-digits [] a = tt
IsOneLine-digits (c ∷ ds) (h, a) = (ground arith, IsOneLine-digits ds a)

write_line-IsOneLine : (m : LrcMatch) → IsWritable m → IsOneLine (write_line m)
unfolding write_line
write_line-IsOneLine m (mins, (secs, (fraction, (line, text)))) = (
  refl,
  IsOneLine-append m.mins _ (IsOneLine-digits m.mins mins.1) (
    refl,
    IsOneLine-append m.secs _ (IsOneLine-digits m.secs secs.1)
        (refl, IsOneLine-append m.fraction _ (IsOneLine-digits m.fraction fraction.1) (refl, line)),
  ),
)

-- The lines that the parts make, with keys numbered on from `k`.
unfoldable pub numbered : (ℕ → ℕ → ℕ) → ℕ → List LrcMatch → List LrcLine
numbered fraction_ms k [] = []
numbered fraction_ms k (m ∷ ms) = line_of fraction_ms (suc k) m ∷ numbered fraction_ms (suc k) ms

lrc_lines-numbered :
    (fraction_ms : ℕ → ℕ → ℕ) (k : ℕ) (ms : List LrcMatch)
    → All IsWritable ms
    → lrc_lines fraction_ms k (map write_line ms) ≡ numbered fraction_ms k ms
unfolding lrc_lines numbered
lrc_lines-numbered fraction_ms k [] a = refl
lrc_lines-numbered fraction_ms k (m ∷ ms) (w, a) =
    rw (match_line-write_line m w, lrc_lines)
      (ap (◌∷◌ (line_of fraction_ms (suc k) m)) (lrc_lines-numbered fraction_ms (suc k) ms a))

AreOneLine : (ms : List LrcMatch) → All IsWritable ms → All IsOneLine (map write_line ms)
AreOneLine [] a = tt
AreOneLine (m ∷ ms) (w, a) = (write_line-IsOneLine m w, AreOneLine ms a)

-- A number as `int` holds it: too large a one is the largest.
abbrev number : Text → ℕ
number ds = min (value_from 0 ds) (2 ^ 63 - 1)

-- The milliseconds from the start of the song to a part.
abbrev pub moment : (ℕ → ℕ → ℕ) → LrcMatch → ℕ
moment fraction_ms m =
    (number m.mins * 60000
      + number m.secs * 1000
      + fraction_ms (number m.fraction) (length m.fraction))
    % 2 ^ 64

-- How long a part lasts: up to the next one, or to the end of the song if that is later.
abbrev pub lasts : (ℕ → ℕ → ℕ) → ℕ → LrcMatch → List LrcMatch → ℕ
lasts fraction_ms end m [] =
    let left = sub_i64 end (moment fraction_ms m) in if lt_i64 0 left then left else 0
lasts fraction_ms end m (next ∷ ms) = sub_i64 (moment fraction_ms next) (moment fraction_ms m)

-- The line numbered `k`.
abbrev pub line_at : ℕ → ℕ → ℕ → Text → Line
line_at k time duration text = record {
  time = time;
  duration = duration;
  text = text;
  is_line_ending = some 1;
  syllabus = [];
  element = record {
    key = b'L' ∷ itoa k;
    singer = [];
    song_part_index = none;
    song_part = [];
    is_background = false;
  };
  translation = none;
  transliteration = none;
}

-- The lines that stand for the parts after the `k` first ones, in a song that ends at `end`.
unfoldable pub lines_for : (ℕ → ℕ → ℕ) → ℕ → ℕ → List LrcMatch → List Line
lines_for fraction_ms end k [] = []
lines_for fraction_ms end k (m ∷ ms) =
    let rest = lines_for fraction_ms end (suc k) ms in
    if is_empty m.text
    then rest
    else line_at (suc k) (moment fraction_ms m) (lasts fraction_ms end m ms) m.text ∷ rest

lyrics_of-numbered :
    (fraction_ms : ℕ → ℕ → ℕ) (end k : ℕ) (ms : List LrcMatch)
    → lyrics_of (set_durations end (numbered fraction_ms k ms)) ≡ lines_for fraction_ms end k ms
unfolding lyrics_of set_durations numbered line_of time_of atoi lines_for
lyrics_of-numbered fraction_ms end k [] = refl
lyrics_of-numbered fraction_ms end k (m ∷ []) =
    elim (Bool-cases (lt_i64 0 (sub_i64 end (moment fraction_ms m)))) [
      | inl e ↦ rw e refl
      | inr e ↦ rw e refl
    ]
lyrics_of-numbered fraction_ms end k (m ∷ (next ∷ ms)) =
    let duration = sub_i64 (moment fraction_ms next) (moment fraction_ms m) in
    let line = line_at (suc k) (moment fraction_ms m) duration m.text in
    ap (λ ls. if is_empty m.text then ls else line ∷ ls)
      (lyrics_of-numbered fraction_ms end (suc k) (next ∷ ms))

-- LRC text that was written from parts, one or more, joined by line breaks, each of three groups of
-- digits and a text without a line break or a space in front, is read back: the response has a line
-- for each part with text, its time the milliseconds of the three groups of digits as `int`s, its
-- key an `L` and the part's number, its duration up to the next part, whether that has text or not,
-- and that of the last part up to the end of the song, or 0 if that is not later.
pub convert_lrclib-written :
    (fraction_ms : ℕ → ℕ → ℕ) (m : LrcMatch) (ms : List LrcMatch) (duration_ms : ℕ)
    → All IsWritable (m ∷ ms)
    → convert_lrclib fraction_ms (join (map write_line (m ∷ ms)) (10 ∷ [])) duration_ms
      ≡ lines_for fraction_ms duration_ms 0 (m ∷ ms)
unfolding convert_lrclib
convert_lrclib-written fraction_ms m ms duration_ms a =
    ap (λ (ts : List Text). lyrics_of (set_durations duration_ms (lrc_lines fraction_ms 0 ts)))
      (split_lines-join (write_line m) (map write_line ms) (AreOneLine (m ∷ ms) a))
    ∙ ap (λ ls. lyrics_of (set_durations duration_ms ls))
        (lrc_lines-numbered fraction_ms 0 (m ∷ ms) a)
    ∙ lyrics_of-numbered fraction_ms duration_ms 0 (m ∷ ms)
