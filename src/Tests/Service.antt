-- ===== src/Tests/Service.antt =====
-- internal/service/service.go over the memory cache, whose entries are in a list.
use lyrics_plus.Common.{
  ℕ, ◌^◌, ◌≤◌, ◌<◌, ◌≡◌, refl, true, false, none, some, List, [], ◌∷◌, positive_or, lt_i64, arith,
}
use lyrics_plus.Common.Text.{
  Text, codes, text_eq, join, trim_space, trim_left, is_space, to_lower, lower_rune, contains,
  has_prefix,
}
use lyrics_plus.Domain.{Line, LyricsResponse, sync_type_line}
use lyrics_plus.Domain.Query.{SearchQuery, is_empty, content_key, duration_bucket, normal}
use lyrics_plus.Parsers.Kpoe.{equal_fold, fold_rune}
use lyrics_plus.Storage.MemoryCache
use lyrics_plus.Storage.MemoryCache.{CacheConfig, entry_size, default_ttl, expired}
use lyrics_plus.Storage.MemoryCache.Runs.{Call, gets, byte_room}
use lyrics_plus.Tests.MemoryCache.{in_list, program}
use lyrics_plus.Providers.Vandalism.{byte_length, rune_length}
use lyrics_plus.Service.{
  source_priority, position_from, is_source, provider_name, match_source, FetchResult,
  should_cache_negative_result, only_misses, is_unsettled, answered, failed, Memory, memory_cache,
  lines_bytes, IsLive, found, not_found, negative_entry, negative_ttl, lyrics_in, renamed,
  completed, decorate_cache_hit, lyrics_entry, estimate_lyrics_bytes, winner_name,
  negative_cache_key,
}
use lyrics_plus.Service.Lookup.{
  is_negative_entry, Outside, fetch_lyrics, try_negative, try_memory, try_store, ask_unless,
  ask_providers, settle, settle_miss, settle_found, cache_negative, cache_response, store_entry,
  lookup, from_entry,
}
use lyrics_plus.Tests.Keys.{no_metadata}
use lyrics_plus.Service.Cached.{full_response, fetch_lyrics-cache_only, IsQuiet}
use lyrics_plus.Service.Remembered.{reached, fetch_lyrics-found, fetch_lyrics-miss}

abbrev same_rune : ℕ → ℕ
same_rune c = c

abbrev memory : Memory
memory = memory_cache in_list

abbrev limits : CacheConfig
limits = record { max_entries = 9; max_bytes = 0; max_body_bytes = 0 }

-- A lookup of a key that is not there, on a new cache.
abbrev calls : List Call
calls = gets (codes "k") 1 ∷ []

abbrev start : MemoryCache.MemoryCache in_list
start = reached in_list limits calls

room : byte_room limits < 2 ^ 62
unfolding positive_or lt_i64
room = omega arith

abbrev query : List Text → SearchQuery
query sources = record {
  title = codes "Song";
  artist = codes "Artist";
  album = [];
  duration = 0;
  isrc = [];
  platform_id = [];
  sources = sources;
  force_reload = false;
}

abbrev miss : FetchResult
miss = record {
  source = [];
  resp = none;
  sources_status = record { status = codes "BAD"; degraded = false } ∷ [];
}

abbrev outside : Outside
outside = record {
  negative_ttl = 0;
  from_store = λ q. none;
  dedup = λ q preferred. answered (some miss);
}

second_source : source_priority (codes "Apple Music") (codes "qq" ∷ codes "apple" ∷ []) ≡ some 1
unfolding source_priority position_from is_source provider_name to_lower lower_rune trim_space
    trim_left is_space text_eq contains has_prefix
second_source = refl

fetch_lyrics-cache_only_example :
    let out = fetch_lyrics same_rune memory outside true true (some start) (query []) [] 5 in
    IsQuiet out
    × (out
        ≡ fetch_lyrics same_rune memory
            (record outside { dedup = λ q preferred. failed })
            true
            false
            (some start)
            (query [])
            []
            5)
fetch_lyrics-cache_only_example =
    fetch_lyrics-cache_only same_rune memory outside true (λ q preferred. failed) (some start)
      (query []) [] 5

asked :
    (fetch_lyrics same_rune memory outside false false
      (some start)
      (query (codes "spotify" ∷ []))
      []
      5).asked
    ≡ true
unfolding fetch_lyrics try_negative try_memory try_store ask_unless ask_providers settle settle_miss
    lookup from_entry program text_eq lyrics_in
asked = refl

a_miss : (lyrics_in (some miss) ≡ none) × (should_cache_negative_result (some miss) ≡ true)
unfolding lyrics_in should_cache_negative_result only_misses is_unsettled text_eq
a_miss = (refl, refl)

same_content :
    content_key same_rune (query []) ≡ content_key same_rune (query (codes "spotify" ∷ []))
unfolding content_key duration_bucket
same_content = refl

lives : IsLive (negative_entry 0 5) 60
unfolding negative_ttl positive_or lt_i64
lives = ground arith

-- The miss was one of Spotify alone; the second query allows every source.
fetch_lyrics-miss_example :
    let first =
      fetch_lyrics same_rune memory outside false false
        (some start)
        (query (codes "spotify" ∷ []))
        []
        5 in
    let second = fetch_lyrics same_rune memory outside false false first.cache (query []) [] 60 in
    (second.reply ≡ not_found) × (second.asked ≡ false)
fetch_lyrics-miss_example =
    fetch_lyrics-miss same_rune in_list outside false false limits calls
      (query (codes "spotify" ∷ [])) [] 5 (some miss) false (query []) [] 60 room (tt, tt) asked
      refl a_miss.0 a_miss.1 same_content lives

abbrev one_line : Line
one_line = record {
  time = 0;
  duration = 500;
  text = codes "la";
  is_line_ending = none;
  syllabus = [];
  element = record {
    key = [];
    singer = [];
    song_part_index = none;
    song_part = [];
    is_background = false;
  };
  translation = none;
  transliteration = none;
}

abbrev lyrics : LyricsResponse
lyrics = record {
  type = sync_type_line;
  kpoe_tools = [];
  metadata = no_metadata;
  ignore_sponsorblock = none;
  lyrics = one_line ∷ [];
  cached = [];
  processing_time = none;
  raw_data = [];
}

abbrev hit : FetchResult
hit = record { source = codes "qq"; resp = some lyrics; sources_status = [] }

abbrev qq : Outside
qq = record outside { dedup = λ q preferred. answered (some hit) }

asked_qq : (fetch_lyrics same_rune memory qq false true (some start) (query []) [] 5).asked ≡ true
unfolding fetch_lyrics ask_providers settle settle_found lyrics_in is_empty
asked_qq = refl

has_hit :
    (lyrics_in (some hit) ≡ some lyrics) × (is_empty (full_response hit lyrics).raw_data ≡ true)
unfolding lyrics_in is_empty completed
has_hit = (refl, refl)

small : entry_size (lyrics_entry (full_response hit lyrics) 5) ≤ start.max_body
unfolding estimate_lyrics_bytes lines_bytes completed winner_name equal_fold fold_rune text_eq
    is_empty byte_length program rune_length
small = omega arith

lives_on : IsLive (lyrics_entry (full_response hit lyrics) 5) 60
unfolding positive_or lt_i64
lives_on = ground arith

no_miss :
    is_negative_entry
      (lookup memory
        (fetch_lyrics same_rune memory qq false true (some start) (query []) [] 5).cache
        (negative_cache_key same_rune (query []))
        60).1
    ≡ false
unfolding lookup fetch_lyrics ask_providers settle settle_found lyrics_in is_empty cache_response
    store_entry completed program text_eq estimate_lyrics_bytes byte_length lines_bytes rune_length
no_miss = refl

matches : match_source (renamed (full_response hit lyrics)).metadata.source [] ≡ true
unfolding match_source source_priority
matches = refl

fetch_lyrics-found_example :
    let first = fetch_lyrics same_rune memory qq false true (some start) (query []) [] 5 in
    let second = fetch_lyrics same_rune memory qq false false first.cache (query []) [] 60 in
    (second.reply ≡ found (decorate_cache_hit (renamed (full_response hit lyrics))))
    × (second.asked ≡ false)
fetch_lyrics-found_example =
    fetch_lyrics-found same_rune in_list qq false true limits calls (query []) [] 5 hit lyrics false
      (query []) [] 60 room (tt, tt) asked_qq refl has_hit.0 has_hit.1 small lives_on refl no_miss
      matches

-- A miss at 5, a forced reload that finds lyrics at 6: the lookup at 60 still reads the miss.
hidden_after_reload :
    let first = fetch_lyrics same_rune memory outside false false (some start) (query []) [] 5 in
    let reload = fetch_lyrics same_rune memory qq false true first.cache (query []) [] 6 in
    let later = fetch_lyrics same_rune memory qq false false reload.cache (query []) [] 60 in
    (reload.reply ≡ found (full_response hit lyrics)) × (later.reply ≡ not_found)
unfolding fetch_lyrics try_negative try_memory try_store ask_unless ask_providers settle settle_miss
    settle_found lookup from_entry program text_eq lyrics_in is_empty cache_response store_entry
    cache_negative should_cache_negative_result only_misses is_unsettled completed content_key
    duration_bucket negative_ttl positive_or lt_i64 winner_name equal_fold fold_rune has_prefix join
    normal trim_space estimate_lyrics_bytes byte_length lines_bytes rune_length
hidden_after_reload = (refl, refl)
