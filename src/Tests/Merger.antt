-- ===== src/Tests/Merger.antt =====
-- internal/storage/merger.go on concrete rows.
use lyrics_plus.Common.{
  ℕ, ◌≡◌, ◌<◌, refl, true, false, Option, none, some, List, [], ◌∷◌, map, All, length, replicate,
  lt_i64, arith,
}
use lyrics_plus.Common.Text.{
  Text, codes, contains, has_prefix, text_eq, to_lower, trim_space, trim_left,
}
use lyrics_plus.Domain.Query.{is_empty}
use lyrics_plus.Storage.Codec.{
  Codecs, decompress_content, decompress_content_prefix, cut, is_gzip_header, is_raw_zlib_header,
}
use lyrics_plus.Storage.Quality.{
  JsonLyrics, detect_lyrics_quality, skip_blanks, markup_head, markup_lines, json_head, raw_quality,
  json_quality, detect_json_header_type, after_first, after_byte, until_quote, fold_bytes,
  type_rank, trim_bytes, drop_space, space_at, space_before, any_json_syllables, any_positive,
}
use lyrics_plus.Storage.Merger.{
  LyricsRow, ConflictCandidate, skip_same, MergeStats, Table, find_row, update_row, newer_or_same,
  decide, evaluate_single_candidate, worker_count, evaluate_quality_conflicts_parallel,
  apply_upgrade, apply_decision, apply_decisions, resolve_candidates,
}
use lyrics_plus.Storage.Merger.Workers.{has, evaluate_quality_conflicts_parallel-map}
use lyrics_plus.Storage.Merger.Keeps.{Keeps, Matches, AreDistinct, resolve_candidates-Keeps}

abbrev codecs : Codecs
codecs = record { zlib_write = λ s. s; zlib_read = λ s. none; gzip_read = λ s. none }

abbrev unmarshal : Text → Option JsonLyrics
unmarshal s = some record { type = []; lyrics = record { time = 0; has_syllables = false } ∷ [] }

word_timed :
    detect_lyrics_quality codecs unmarshal (codes "<tt itunes:timing=\"Word\"/>")
    ≡ (4, codes "Syllable")
unfolding detect_lyrics_quality decompress_content_prefix cut is_gzip_header is_raw_zlib_header
    skip_blanks markup_head contains has_prefix is_empty
word_timed = refl

header_says_line :
    detect_lyrics_quality codecs unmarshal (codes " {\"type\" : \"Line\"}") ≡ (3, codes "Line")
unfolding detect_lyrics_quality decompress_content_prefix cut is_gzip_header is_raw_zlib_header
    skip_blanks json_head detect_json_header_type after_first after_byte until_quote type_rank
    fold_bytes text_eq contains has_prefix is_empty
header_says_line = refl

no_times : detect_lyrics_quality codecs unmarshal (codes "{}") ≡ (2, codes "Plain")
unfolding detect_lyrics_quality decompress_content_prefix decompress_content cut is_gzip_header
    is_raw_zlib_header skip_blanks json_head raw_quality json_quality detect_json_header_type
    after_first after_byte until_quote type_rank fold_bytes text_eq contains has_prefix is_empty
    trim_bytes drop_space space_at space_before any_json_syllables any_positive to_lower trim_space
    trim_left lt_i64
no_times = refl

abbrev row : Text → ℕ → LyricsRow
row content created_at = record {
  content = content;
  isrc = [];
  platform_id = [];
  title = [];
  artist = [];
  duration_ms = 0;
  created_at = created_at;
}

abbrev candidate : ℕ → Text → Text → ConflictCandidate
candidate id old new = record {
  target_id = id;
  tgt_content = old;
  tgt_created_at = 5;
  src = row new 7;
  decision = skip_same;
}

abbrev candidates : List ConflictCandidate
candidates =
    candidate 1 (codes "<p begin=") (codes "<tt/>")
    ∷ candidate 2 (codes "<tt/>") (codes "<span begin=")
    ∷ []

abbrev table : Table
table = (1, row (codes "<p begin=") 5) ∷ (2, row (codes "<tt/>") 5) ∷ []

abbrev no_stats : MergeStats
no_stats = record { upgraded = 0; skipped_same = 0; skipped_lower = 0; errors = 0 }

both_run : (w : ℕ) → w < worker_count 2 (length candidates) → has (1 ∷ 0 ∷ []) w ≡ true
both_run w h = ground arith

resolved :
    resolve_candidates codecs unmarshal (λ id. false) 2 (1 ∷ 0 ∷ []) candidates (table, no_stats)
    ≡ (
      (1, row (codes "<p begin=") 5) ∷ (2, row (codes "<span begin=") 7) ∷ [],
      record no_stats { upgraded = 1; skipped_lower = 1 },
    )
unfolding resolve_candidates evaluate_quality_conflicts_parallel evaluate_single_candidate decide
    newer_or_same apply_decisions apply_decision apply_upgrade update_row detect_lyrics_quality
    decompress_content_prefix cut is_gzip_header is_raw_zlib_header skip_blanks markup_head
    markup_lines contains has_prefix is_empty text_eq
resolved = refl

abbrev many : List ConflictCandidate
many = replicate 64 (candidate 1 (codes "<p") (codes "<span begin="))

many_run : (w : ℕ) → w < worker_count 2 (length many) → has (1 ∷ 0 ∷ []) w ≡ true
many_run w h = ground arith

evaluate_quality_conflicts_parallel-map_example :
    evaluate_quality_conflicts_parallel codecs unmarshal 2 (1 ∷ 0 ∷ []) many
    ≡ map (evaluate_single_candidate codecs unmarshal) many
evaluate_quality_conflicts_parallel-map_example =
    evaluate_quality_conflicts_parallel-map codecs unmarshal 2 (1 ∷ 0 ∷ []) many many_run

matched : All (Matches table) candidates
unfolding find_row
matched = ((row (codes "<p begin=") 5, refl, refl), ((row (codes "<tt/>") 5, refl, refl), tt))

apart : AreDistinct candidates
apart = (((λ e. absurd (omega arith)), tt), (tt, tt))

resolve_candidates-Keeps_example :
    Keeps codecs unmarshal table
      (resolve_candidates codecs unmarshal
        (λ id. false)
        2
        (1 ∷ 0 ∷ [])
        candidates
        (table, no_stats)).0
resolve_candidates-Keeps_example =
    resolve_candidates-Keeps codecs unmarshal (λ id. false) 2 (1 ∷ 0 ∷ []) candidates table no_stats
      both_run apart matched
