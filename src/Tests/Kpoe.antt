-- ===== src/Tests/Kpoe.antt =====
-- internal/parsers/kpoe.go on concrete lyrics.
use lyrics_plus.Common.{
  ℕ, ◌+◌, ◌^◌, ◌<◌, ◌≤◌, ◌≡◌, refl, Bool, true, false, inl, inr, Option, none, some, List, [], ◌∷◌,
  map, All, length, arith,
}
use lyrics_plus.Common.Text.{Text, codes}
use lyrics_plus.Domain.{
  Syllable, Line, LineElement, LyricsResponse, SongPart, sync_type_word, sync_type_line, cache_none,
}
use lyrics_plus.Parsers.Kpoe.{
  finalize_group, nest_flat_lyrics, all_indexed, normalize_v2, syllable_of, named_part, set_times,
  bounds_of, index_lines, index_parts, unflatten, is_flat_lyrics, same_part, put_bounds, bounds_at,
  widen, timed, group_from, grown, opening_of, ends_line, add_syllable, set_bounds, earliest_from,
  latest_from,
}
use lyrics_plus.Parsers.Kpoe.Groups.{
  syllables, Covers, nest_flat_lyrics-syllables, finalize_group-Covers,
}
use lyrics_plus.Parsers.Kpoe.Parts.{part_names, normalize_v2-part_names}
use lyrics_plus.Parsers.Kpoe.V1.{v1_to_v2, v2_to_v1}
use lyrics_plus.Parsers.Kpoe.RoundTrip.{HasSyllables, content, plain_content, v1_to_v2-v2_to_v1}
use lyrics_plus.Tests.Keys.{no_metadata}

abbrev syl : ℕ → ℕ → Text → Syllable
syl time duration text = record {
  time = time;
  duration = duration;
  text = text;
  is_background = false;
  synthetic = true;
}

abbrev element : Option ℕ → Text → LineElement
element idx part = record {
  key = codes "L1";
  singer = codes "v1";
  song_part_index = idx;
  song_part = part;
  is_background = false;
}

abbrev line : Option ℕ → List Syllable → LineElement → Line
line mark ss el = record {
  time = 100;
  duration = 50;
  text = codes "la ";
  is_line_ending = mark;
  syllabus = ss;
  element = el;
  translation = none;
  transliteration = none;
}

abbrev two : List Syllable
two = syl 100 50 (codes "la ") ∷ syl 150 70 (codes "li") ∷ []

abbrev resp : Text → List Line → LyricsResponse
resp type lines = record {
  type = type;
  kpoe_tools = [];
  metadata = record no_metadata { song_parts = named_part (codes "Intro") ∷ [] };
  ignore_sponsorblock = none;
  lyrics = lines;
  cached = [];
  processing_time = none;
  raw_data = [];
}

abbrev flat : List Line
flat =
    line (some 0) [] (element none [])
    ∷ line (some 1) [] (element none [])
    ∷ line (some 0) [] (element none [])
    ∷ []

nested_time :
    map {B = Text × ℕ} (λ l. (l.text, length l.syllabus)) (nest_flat_lyrics flat)
    ≡ ((codes "la la", 2) ∷ (codes "la", 1) ∷ [])
unfolding nest_flat_lyrics group_from grown add_syllable opening_of syllable_of ends_line
    finalize_group set_bounds earliest_from latest_from lyrics_plus.Common.lt_i64
    lyrics_plus.Common.add_i64 lyrics_plus.Common.sub_i64 lyrics_plus.Common.Text.trim_space
    lyrics_plus.Common.Text.trim_left lyrics_plus.Common.Text.is_space
nested_time = refl

nest_flat_lyrics-syllables_example : syllables (nest_flat_lyrics flat) ≡ map syllable_of flat
nest_flat_lyrics-syllables_example = nest_flat_lyrics-syllables flat

finalize_group-Covers_example :
    let out = finalize_group (line none two (element none [])) in
    All (Covers out.time (out.time + out.duration)) two
finalize_group-Covers_example =
    finalize_group-Covers (line none two (element none [])) (omega arith, (omega arith, tt))

abbrev parted : List Line
parted =
    line none two (element (some 0) [])
    ∷ line none two (element none (codes "Verse"))
    ∷ line none two (element none (codes "Verse"))
    ∷ line none two (element none (codes "Chorus"))
    ∷ []

parted_flat : is_flat_lyrics parted ≡ false
unfolding is_flat_lyrics
parted_flat = refl

parted_full : All HasSyllables parted
unfolding lyrics_plus.Domain.Query.is_empty
parted_full = (refl, (refl, (refl, (refl, tt))))

-- The parts made for the last three lines, with their times.
parts_made :
    (normalize_v2 (resp sync_type_line parted)).metadata.song_parts
    ≡ named_part (codes "Intro")
      ∷ timed record { min_time = 100; max_end = 150 } (named_part (codes "Verse"))
      ∷ timed record { min_time = 100; max_end = 150 } (named_part (codes "Chorus"))
      ∷ []
unfolding normalize_v2 unflatten is_flat_lyrics all_indexed index_parts index_lines bounds_of
    set_times put_bounds bounds_at widen same_part timed lyrics_plus.Domain.Query.is_empty
    lyrics_plus.Common.lt_i64 lyrics_plus.Common.add_i64 lyrics_plus.Common.sub_i64
    lyrics_plus.Common.Text.text_eq
parts_made = refl

normalize_v2-part_names_example :
    let out = normalize_v2 (resp sync_type_line parted) in
    part_names out.metadata.song_parts out.lyrics
    ≡ part_names (named_part (codes "Intro") ∷ []) parted
normalize_v2-part_names_example =
    normalize_v2-part_names (resp sync_type_line parted) parted_flat
      (inr (0, refl, omega arith), (inl refl, (inl refl, (inl refl, tt)))) (omega arith)

v1_to_v2-v2_to_v1_example :
    let out = v1_to_v2 (v2_to_v1 (resp sync_type_word parted)) in
    (out.type ≡ sync_type_word) × (map content out.lyrics ≡ map plain_content parted)
v1_to_v2-v2_to_v1_example = v1_to_v2-v2_to_v1 (resp sync_type_word parted) refl parted_full
