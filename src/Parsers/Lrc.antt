-- ===== src/Parsers/Lrc.antt =====
-- internal/parsers/lrc.go. An `int` is its int64 bit pattern. The milliseconds of a fraction are
-- computed in float64 from its value and its number of digits; that function is a parameter, and
-- so is the song's length in milliseconds. Texts are lists of bytes.
pub mod Durations
pub mod RoundTrip
use lyrics_plus.Common.{
  ℕ, zero, suc, ◌+◌, ◌-◌, ◌*◌, ◌^◌, ◌%◌, Bool, true, false, not, ◌&&◌, ◌||◌, Option, none, some,
  List, [], ◌∷◌, ltb, leb, ◌==◌, if◌then◌else◌, length, min, add_i64, sub_i64, lt_i64, two64,
}
use lyrics_plus.Common.Text.{Text, codes}
use lyrics_plus.Common.Decimal.{itoa, value_from}
use lyrics_plus.Domain.{Line, LineElement}
use lyrics_plus.Domain.Query.{is_empty}

-- `strings.Split(s, "\n")`
abbrev pub onto_first : ℕ → List Text → List Text
onto_first c [] = (c ∷ []) ∷ []
onto_first c (t ∷ ts) = (c ∷ t) ∷ ts

unfoldable pub split_lines : Text → List Text
split_lines [] = [] ∷ []
split_lines (c ∷ s) = let rest = split_lines s in if c == 10 then [] ∷ rest else onto_first c rest

abbrev pub is_digit : ℕ → Bool
is_digit c = leb b'0' c && leb c b'9'

-- `\d+` as far as it goes, and what follows
unfoldable pub digits_then : Text → Text × Text
digits_then [] = ([], [])
digits_then (c ∷ s) =
    let (ds, rest) = digits_then s in if is_digit c then (c ∷ ds, rest) else ([], c ∷ s)

unfoldable pub stop_at : ℕ → Text × Text → Option (Text × Text)
stop_at stop (ds, []) = none
stop_at stop (ds, c ∷ rest) = if not (is_empty ds) && c == stop then some (ds, rest) else none

-- A group of digits, and the sign `stop` after it.
unfoldable pub group_to : ℕ → Text → Option (Text × Text)
group_to stop s = stop_at stop (digits_then s)

-- `\s*`
abbrev pub is_re_space : ℕ → Bool
is_re_space c = c == 9 || (c == 10 || (c == 12 || (c == 13 || c == 32)))

unfoldable pub skip_space : Text → Text
skip_space [] = []
skip_space (c ∷ s) = let rest = skip_space s in if is_re_space c then rest else c ∷ s

-- The groups of `lrcLineRe`.
pub record LrcMatch : Type 0 where
  pub mins : Text
  pub secs : Text
  pub fraction : Text
  pub text : Text

unfoldable pub after_secs : Text → Text → Text → Option LrcMatch
after_secs mins secs s = elim (group_to b']' s) [
  | none ↦ none
  | some (fraction, rest) ↦
      some record { mins = mins; secs = secs; fraction = fraction; text = skip_space rest }
]

unfoldable pub after_mins : Text → Text → Option LrcMatch
after_mins mins s = elim (group_to b'.' s) [
  | none ↦ none
  | some (secs, rest) ↦ after_secs mins secs rest
]

unfoldable pub match_line : Text → Option LrcMatch
match_line [] = none
match_line (c ∷ s) =
    if c == b'['
    then elim (group_to b':' s) [ none ↦ none | some (mins, rest) ↦ after_mins mins rest ]
    else none

-- `strconv.Atoi` of digits, its error ignored: too large a number is the largest one.
unfoldable pub atoi : Text → ℕ
atoi s = min (value_from 0 s) (2 ^ 63 - 1)

pub record LrcLine : Type 0 where
  pub time : ℕ
  pub duration : ℕ
  pub text : Text
  pub key : Text

-- `mins*60000 + secs*1000 + ms`
unfoldable pub time_of : (ℕ → ℕ → ℕ) → LrcMatch → ℕ
time_of fraction_ms m =
    (atoi m.mins * 60000 + atoi m.secs * 1000 + fraction_ms (atoi m.fraction) (length m.fraction))
    % two64

unfoldable pub line_of : (ℕ → ℕ → ℕ) → ℕ → LrcMatch → LrcLine
line_of fraction_ms offset m = record {
  time = time_of fraction_ms m;
  duration = 0;
  text = m.text;
  key = b'L' ∷ itoa offset;
}

-- The loop over the lines; `offset` is the number of lines that matched before.
unfoldable pub lrc_lines : (ℕ → ℕ → ℕ) → ℕ → List Text → List LrcLine
lrc_lines fraction_ms offset [] = []
lrc_lines fraction_ms offset (raw ∷ rest) =
    let skipped = lrc_lines fraction_ms offset rest in
    let following = lrc_lines fraction_ms (suc offset) rest in
    elim (match_line raw) [
      | none ↦ skipped
      | some m ↦ line_of fraction_ms (suc offset) m ∷ following
    ]

unfoldable pub set_durations : ℕ → List LrcLine → List LrcLine
set_durations duration_ms [] = []
set_durations duration_ms (l ∷ []) =
    let last_dur = sub_i64 duration_ms l.time in
    (if lt_i64 0 last_dur then record l { duration = last_dur } else l) ∷ []
set_durations duration_ms (l ∷ (l' ∷ ls)) =
    record l { duration = sub_i64 l'.time l.time } ∷ set_durations duration_ms (l' ∷ ls)

abbrev pub lyrics_line : LrcLine → Line
lyrics_line l = record {
  time = l.time;
  duration = l.duration;
  text = l.text;
  is_line_ending = some 1;
  syllabus = [];
  element = record {
    key = l.key;
    singer = [];
    song_part_index = none;
    song_part = [];
    is_background = false;
  };
  translation = none;
  transliteration = none;
}

unfoldable pub lyrics_of : List LrcLine → List Line
lyrics_of [] = []
lyrics_of (l ∷ ls) =
    let rest = lyrics_of ls in if is_empty l.text then rest else lyrics_line l ∷ rest

-- The lines of `ConvertLRCLIBtoJSON`'s response, whose other fields are constants.
unfoldable pub convert_lrclib : (ℕ → ℕ → ℕ) → Text → ℕ → List Line
convert_lrclib fraction_ms synced duration_ms =
    lyrics_of (set_durations duration_ms (lrc_lines fraction_ms 0 (split_lines synced)))
