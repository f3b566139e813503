-- ===== src/Parsers/Kpoe/V1.antt =====
-- internal/parsers/kpoe.go: `V1ToV2` and `V2ToV1`, between the flat format of the first version
-- and the lines of the second. The responses are not nil.
use lyrics_plus.Common.{
  ℕ, Bool, true, false, not, ◌||◌, ◌&&◌, none, some, List, [], ◌∷◌, ◌++◌, map, ltb, ◌==◌,
  if◌then◌else◌, length, get_elem?, two63,
}
use lyrics_plus.Common.Text.{Text, codes, text_eq}
use lyrics_plus.Domain.{
  Syllable, LineElement, Line, SongPart, LyricsResponse, V1Segment, V1SegmentElement, V1Response,
  sync_type_line, sync_type_word, sync_type_syllable, cache_none,
}
use lyrics_plus.Domain.Query.{is_empty}
use lyrics_plus.Parsers.Kpoe.{equal_fold, group_from, normalize_v2}

abbrev pub line_element : V1SegmentElement → LineElement
line_element el = record {
  key = el.key;
  singer = el.singer;
  song_part_index = none;
  song_part = el.song_part;
  is_background = el.is_background;
}

unfoldable pub v1_line : V1Segment → Line
v1_line seg = record {
  time = seg.time;
  duration = seg.duration;
  text = seg.text;
  is_line_ending = none;
  syllabus = [];
  element = line_element seg.element;
  translation = none;
  transliteration = none;
}

unfoldable pub v1_opening : V1Segment → Line
v1_opening seg = record {
  time = seg.time;
  duration = 0;
  text = [];
  is_line_ending = none;
  syllabus = [];
  element = line_element seg.element;
  translation = none;
  transliteration = none;
}

unfoldable pub v1_syllable : V1Segment → Syllable
v1_syllable seg = record {
  time = seg.time;
  duration = seg.duration;
  text = seg.text;
  is_background = seg.element.is_background;
  synthetic = false;
}

unfoldable pub v1_ends_line : V1Segment → Bool
v1_ends_line seg = seg.is_line_ending == 1

unfoldable pub grouped_lyrics : V1Response → List Line
grouped_lyrics v1 =
    if equal_fold v1.type sync_type_line
    then map v1_line v1.lyrics
    else group_from v1_opening v1_syllable v1_ends_line none v1.lyrics

unfoldable pub v2_type : Text → Text
v2_type type =
    if equal_fold type sync_type_line
    then sync_type_line
    else if equal_fold type sync_type_word || equal_fold type sync_type_syllable
    then sync_type_word
    else type

unfoldable pub cached_or_none : Text → Text
cached_or_none cached = if is_empty cached then cache_none else cached

unfoldable pub v1_to_v2 : V1Response → LyricsResponse
v1_to_v2 v1 = normalize_v2 record {
  type = v2_type v1.type;
  kpoe_tools = codes "2.0-LPlusBcknd," ++ v1.kpoe_tools;
  metadata = v1.metadata;
  ignore_sponsorblock = v1.ignore_sponsorblock;
  lyrics = grouped_lyrics v1;
  cached = cached_or_none v1.cached;
  processing_time = none;
  raw_data = [];
}

abbrev pub name_at : List SongPart → ℕ → Text
name_at parts idx = elim (get_elem? parts idx) [ none ↦ [] | some part ↦ part.name ]

unfoldable pub resolve_song_part : List SongPart → LineElement → Text
resolve_song_part parts el =
    if not (is_empty el.song_part) then el.song_part else elim el.song_part_index [
      | none ↦ []
      | some idx ↦ if ltb idx two63 && ltb idx (length parts) then name_at parts idx else []
    ]

abbrev pub rest_of : List SongPart → LineElement → V1SegmentElement
rest_of parts el = record {
  key = el.key;
  song_part = resolve_song_part parts el;
  singer = el.singer;
  is_background = false;
}

unfoldable pub to_segment : List SongPart → Line → V1Segment
to_segment parts line = record {
  time = line.time;
  duration = line.duration;
  text = line.text;
  is_line_ending = 1;
  element = rest_of parts line.element;
}

unfoldable pub syllable_segment : V1SegmentElement → ℕ → Syllable → V1Segment
syllable_segment rest is_end syl = record {
  time = syl.time;
  duration = syl.duration;
  text = syl.text;
  is_line_ending = is_end;
  element = if syl.is_background then record rest { is_background = true } else rest;
}

-- The loop over the syllables of a line: the last one is marked.
unfoldable pub syllable_segments : V1SegmentElement → List Syllable → List V1Segment
syllable_segments rest [] = []
syllable_segments rest (syl ∷ []) = syllable_segment rest 1 syl ∷ []
syllable_segments rest (syl ∷ (next ∷ syls)) =
    syllable_segment rest 0 syl ∷ syllable_segments rest (next ∷ syls)

unfoldable pub line_segments : List SongPart → Line → List V1Segment
line_segments parts line =
    if is_empty line.syllabus
    then to_segment parts line ∷ []
    else syllable_segments (rest_of parts line.element) line.syllabus

unfoldable pub word_segments : List SongPart → List Line → List V1Segment
word_segments parts [] = []
word_segments parts (line ∷ lines) = line_segments parts line ++ word_segments parts lines

unfoldable pub flat_lyrics : LyricsResponse → List V1Segment
flat_lyrics v2 =
    let parts = v2.metadata.song_parts in
    if text_eq v2.type sync_type_line
    then map (to_segment parts) v2.lyrics
    else word_segments parts v2.lyrics

unfoldable pub v1_type : Text → Text
v1_type type =
    if equal_fold type sync_type_word || equal_fold type sync_type_syllable
    then sync_type_syllable
    else if equal_fold type sync_type_line
    then sync_type_line
    else type

unfoldable pub v2_to_v1 : LyricsResponse → V1Response
v2_to_v1 v2 = record {
  type = v1_type v2.type;
  kpoe_tools = codes "2.0-V2toV1," ++ v2.kpoe_tools;
  metadata = v2.metadata;
  ignore_sponsorblock = v2.ignore_sponsorblock;
  lyrics = flat_lyrics v2;
  cached = cached_or_none v2.cached;
  processing_time = none;
}
