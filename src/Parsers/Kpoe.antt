-- ===== src/Parsers/Kpoe.antt =====
-- internal/parsers/kpoe.go: flat lyrics, a list of segments with marks of line endings, become
-- lines of syllables, and the lines without a part of the song get one. An `int` is its int64 bit
-- pattern, an index below a length is a number below it; `nil` and an empty slice are `[]`.
pub mod Groups
pub mod Parts
pub mod V1
pub mod RoundTrip
use lyrics_plus.Common.{
  ℕ, ◌+◌, ◌-◌, Bool, true, false, not, ◌&&◌, ◌||◌, Option, none, some, List, [], ◌∷◌, ◌++◌, map,
  ltb, leb, ◌==◌, if◌then◌else◌, length, get_elem?, set, add_i64, sub_i64, lt_i64, two63,
}
use lyrics_plus.Common.Text.{Text, text_eq, trim_space}
use lyrics_plus.Domain.{
  Syllable, LineElement, Line, SongPart, LyricsMetadata, LyricsResponse, sync_type_line,
  sync_type_word,
}
use lyrics_plus.Domain.Query.{is_empty}

-- `strings.EqualFold` with an ASCII text: the capitals, and the two other runes that fold to a
-- letter of ASCII.
unfoldable pub fold_rune : ℕ → ℕ
fold_rune c =
    if leb b'A' c && leb c b'Z'
    then c + 32
    else if c == 0x17f
    then b's'
    else if c == 0x212a
    then b'k'
    else c

unfoldable pub equal_fold : Text → Text → Bool
unfolding fold_rune
equal_fold s t = text_eq (map fold_rune s) (map fold_rune t)

unfoldable pub is_flat_lyrics : List Line → Bool
is_flat_lyrics [] = false
is_flat_lyrics (l ∷ ls) =
    let rest = is_flat_lyrics ls in elim l.is_line_ending [ none ↦ rest | some mark ↦ true ]

-- The loop of `finalizeGroup`.
unfoldable pub earliest_from : ℕ → List Syllable → ℕ
earliest_from earliest [] = earliest
earliest_from earliest (s ∷ rest) =
    earliest_from (if lt_i64 s.time earliest then s.time else earliest) rest

unfoldable pub latest_from : ℕ → List Syllable → ℕ
latest_from latest_end [] = latest_end
latest_from latest_end (s ∷ rest) =
    let end = add_i64 s.time s.duration in
    latest_from (if lt_i64 latest_end end then end else latest_end) rest

unfoldable pub set_bounds : List Syllable → Line → Line
set_bounds [] current = current
set_bounds (s ∷ rest) current =
    let earliest = earliest_from s.time (s ∷ rest) in
    record current { time = earliest; duration = sub_i64 (latest_from 0 (s ∷ rest)) earliest }

unfoldable pub finalize_group : Line → Line
finalize_group current = record (set_bounds current.syllabus current) {
  text = trim_space current.text;
  is_line_ending = none;
}

unfoldable pub add_syllable : Line → Syllable → Line
add_syllable current syl = record current {
  text = current.text ++ syl.text;
  syllabus = current.syllabus ++ (syl ∷ []);
}

-- The loop over the segments, whose kind is that of the format.
module _ {S : Type 0} (opening : S → Line) (syllable : S → Syllable) (ends_line : S → Bool) where
  unfoldable pub grown : Option Line → S → Line
  grown none seg = add_syllable (opening seg) (syllable seg)
  grown (some current) seg = add_syllable current (syllable seg)

  unfoldable pub group_from : Option Line → List S → List Line
  group_from none [] = []
  group_from (some current) [] = finalize_group current ∷ []
  group_from current (seg ∷ rest) =
      let line = grown current seg in
      let closed = group_from none rest in
      let still = group_from (some line) rest in
      if ends_line seg then finalize_group line ∷ closed else still

unfoldable pub opening_of : Line → Line
opening_of seg = record {
  time = seg.time;
  duration = seg.duration;
  text = [];
  is_line_ending = none;
  syllabus = [];
  element = seg.element;
  translation = none;
  transliteration = none;
}

unfoldable pub syllable_of : Line → Syllable
syllable_of seg = record {
  time = seg.time;
  duration = seg.duration;
  text = seg.text;
  is_background = seg.element.is_background;
  synthetic = false;
}

unfoldable pub ends_line : Line → Bool
ends_line seg = elim seg.is_line_ending [ none ↦ false | some mark ↦ mark == 1 ]

unfoldable pub nest_flat_lyrics : List Line → List Line
nest_flat_lyrics lyrics = group_from opening_of syllable_of ends_line none lyrics

abbrev pub cleared : Line → Line
cleared l = record l { is_line_ending = none }

-- The lyrics and the type after the first step of `NormalizeV2`.
unfoldable pub unflatten : LyricsResponse → LyricsResponse
unflatten resp =
    if is_flat_lyrics resp.lyrics
    then (if equal_fold resp.type sync_type_line
        then record resp { lyrics = map cleared resp.lyrics; type = sync_type_line }
        else record resp { lyrics = nest_flat_lyrics resp.lyrics; type = sync_type_word })
    else resp

unfoldable pub all_indexed : List Line → Bool
all_indexed [] = true
all_indexed (l ∷ ls) =
    let rest = all_indexed ls in elim l.element.song_part_index [ none ↦ false | some idx ↦ rest ]

unfoldable pub same_part : Option Text → Text → Bool
same_part none part_name = false
same_part (some current) part_name = text_eq part_name current

abbrev pub named_part : Text → SongPart
named_part part_name = record { name = part_name; time = none; duration = none; div_index = none }

abbrev pub with_index : Line → ℕ → Line
with_index line idx = record line {
  element = record line.element { song_part = []; song_part_index = some idx };
}

-- The loop that gives each line its part: the parts, the name of the last one that it made.
unfoldable pub index_lines : List SongPart → Option Text → List Line → List SongPart × List Line
index_lines parts current [] = (parts, [])
index_lines parts current (line ∷ rest) = elim line.element.song_part_index [
  | some idx ↦ let (parts', rest') = index_lines parts none rest in (parts', line ∷ rest')
  | none ↦
      let name = line.element.song_part in
      let grown = if same_part current name then parts else parts ++ (named_part name ∷ []) in
      let (parts', rest') = index_lines grown (some name) rest in
      (parts', with_index line (length grown - 1) ∷ rest')
]

pub record PartBounds : Type 0 where
  pub min_time : ℕ
  pub max_end : ℕ

-- `map[int]partBounds`
unfoldable pub bounds_at : ℕ → List (ℕ × PartBounds) → Option PartBounds
bounds_at idx [] = none
bounds_at idx ((first, b) ∷ rest) = if first == idx then some b else bounds_at idx rest

unfoldable pub put_bounds : ℕ → PartBounds → List (ℕ × PartBounds) → List (ℕ × PartBounds)
put_bounds idx new [] = (idx, new) ∷ []
put_bounds idx new ((first, b) ∷ rest) =
    if first == idx then (idx, new) ∷ rest else (first, b) ∷ put_bounds idx new rest

unfoldable pub widen : Option PartBounds → Line → PartBounds
widen none line = record { min_time = line.time; max_end = add_i64 line.time line.duration }
widen (some b) line =
    let end_time = add_i64 line.time line.duration in
    record {
      min_time = if lt_i64 line.time b.min_time then line.time else b.min_time;
      max_end = if lt_i64 b.max_end end_time then end_time else b.max_end;
    }

abbrev pub is_new_part : ℕ → ℕ → ℕ → Bool
is_new_part existing count idx = ltb idx two63 && leb existing idx && ltb idx count

unfoldable pub bounds_of : ℕ → ℕ → List (ℕ × PartBounds) → List Line → List (ℕ × PartBounds)
bounds_of existing count bounds [] = bounds
bounds_of existing count bounds (line ∷ rest) = elim line.element.song_part_index [
  | none ↦ bounds_of existing count bounds rest
  | some idx ↦
      let seen =
        if is_new_part existing count idx
        then put_bounds idx (widen (bounds_at idx bounds) line) bounds
        else bounds in
      bounds_of existing count seen rest
]

unfoldable pub timed : PartBounds → SongPart → SongPart
timed b part = record part {
  time = some b.min_time;
  duration = some (sub_i64 b.max_end b.min_time);
}

-- `part := &songParts[idx]`, written at
unfoldable pub set_times : List (ℕ × PartBounds) → List SongPart → List SongPart
set_times [] parts = parts
set_times ((idx, b) ∷ rest) parts = elim (get_elem? parts idx) [
  | none ↦ set_times rest parts
  | some part ↦ set_times rest (set parts idx (timed b part))
]

unfoldable pub index_parts : LyricsResponse → LyricsResponse
index_parts resp =
    let existing = resp.metadata.song_parts in
    let (parts, lines) = index_lines existing none resp.lyrics in
    let bounds = bounds_of (length existing) (length parts) [] lines in
    record resp {
      metadata = record resp.metadata { song_parts = set_times bounds parts };
      lyrics = lines;
    }

unfoldable pub normalize_v2 : LyricsResponse → LyricsResponse
normalize_v2 resp =
    let nested = unflatten resp in
    if is_empty resp.lyrics
    then resp
    else if all_indexed nested.lyrics
    then nested
    else index_parts nested
