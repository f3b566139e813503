-- ===== src/Service.antt =====
-- internal/service/service.go: the lookup of lyrics through the memory cache, the store and the
-- providers. The calls of the cache are an interface, which Storage/MemoryCache fills; the clock, what
-- the store answers and what the deduplicated race of the providers answers are arguments. The
-- times that are only shown, the text of an error, metrics and the song that a match names are left out. An `int` is its
-- int64 bit pattern, texts are lists of code points.
pub mod Lookup
pub mod Sources
pub mod Cached
pub mod Remembered
use lyrics_plus.Common.{
  ℕ, suc, ◌+◌, ◌*◌, ◌^◌, ◌≤◌, ◌≡◌, ◌≢◌, Bool, true, false, not, ◌&&◌, ◌||◌, Option, none, some,
  List, [], ◌∷◌, ◌++◌, ltb, ◌==◌, if◌then◌else◌, length, positive_or,
}
use lyrics_plus.Common.Text.{Text, codes, text_eq, has_prefix, contains, to_lower, trim_space}
use lyrics_plus.Domain.{Line, LyricsResponse, LyricsMetadata, cache_none}
use lyrics_plus.Domain.Query.{SearchQuery, is_empty, content_key}
use lyrics_plus.Parsers.Kpoe.{equal_fold}
use lyrics_plus.Storage.Lru.{Lru}
use lyrics_plus.Storage.MemoryCache
use lyrics_plus.Storage.MemoryCache.{CacheEntry, nothing, parsed_lyrics, parsed_raw, default_ttl}
use lyrics_plus.Providers.Vandalism.{byte_length}

-- `ProviderNameForSource`
unfoldable pub provider_name : Text → Text
provider_name source =
    let s = to_lower (trim_space source) in
    if text_eq s (codes "spotify")
    then codes "spotify"
    else if text_eq s (codes "apple") || text_eq s (codes "apple music")
    then codes "apple"
    else if text_eq s (codes "qq music") || (text_eq s (codes "qq") || text_eq s (codes "qqmusic"))
    then codes "qq"
    else if text_eq s (codes "musixmatch")
    then codes "musixmatch"
    else if text_eq s (codes "musixmatch-word")
    then codes "musixmatch-word"
    else if text_eq s (codes "deezer")
    then codes "deezer"
    else if text_eq s (codes "qaple")
    then codes "qaple"
    else if text_eq s (codes "lyrics+") || text_eq s (codes "lyricsplus")
    then codes "lyricsplus"
    else if contains s (codes "qaple") || contains s (codes "with qq")
    then codes "qaple"
    else codes "lyricsplus"

-- The test in the loop of `sourcePriority`.
unfoldable pub is_source : Text → Text → Bool
is_source candidate allowed =
    let cand = provider_name candidate in
    let name = provider_name allowed in
    text_eq name cand
    || (text_eq name (codes "musixmatch") && text_eq cand (codes "musixmatch-word"))

unfoldable pub position_from : ℕ → Text → List Text → Option ℕ
position_from i candidate [] = none
position_from i candidate (a ∷ allowed) =
    let later = position_from (suc i) candidate allowed in
    if is_source candidate a then some i else later

-- `none` is -1.
unfoldable pub source_priority : Text → List Text → Option ℕ
source_priority candidate [] = some 0
source_priority candidate (a ∷ allowed) = position_from 0 candidate (a ∷ allowed)

unfoldable pub match_source : Text → List Text → Bool
match_source candidate allowed = elim (source_priority candidate allowed) [
  | none ↦ false
  | some i ↦ true
]

-- `SourceOutcome`, the status as the text it is.
pub record SourceOutcome : Type 0 where
  pub status : Text
  pub degraded : Bool

unfoldable pub is_unsettled : SourceOutcome → Bool
is_unsettled st =
    st.degraded
    || (text_eq st.status (codes "RTO")
        || (text_eq st.status (codes "CANCEL") || text_eq st.status (codes "WAIT")))

-- The loop over the statuses; `saw_miss` as far as it went.
unfoldable pub only_misses : Bool → List SourceOutcome → Bool
only_misses saw_miss [] = saw_miss
only_misses saw_miss (st ∷ rest) =
    let later = only_misses (saw_miss || text_eq st.status (codes "BAD")) rest in
    if is_unsettled st then false else later

-- `orchestrator.Result`, as far as it is read here.
pub record FetchResult : Type 0 where
  pub source : Text
  pub resp : Option LyricsResponse
  pub sources_status : List SourceOutcome

unfoldable pub should_cache_negative_result : Option FetchResult → Bool
should_cache_negative_result none = false
should_cache_negative_result (some res) = only_misses false res.sources_status

-- What `Dedup.Get` gives.
pub data Answer : Type 0 where
  failed : Answer
  answered : Option FetchResult → Answer

abbrev pub IsLive : CacheEntry → ℕ → Type 0
IsLive e now = now ≤ e.stored_at + positive_or e.ttl default_ttl

-- What the service calls of a cache.
pub record Memory : Type 1 where
  pub Cache : Type 0
  pub get : Cache → Text → ℕ → Cache × Option CacheEntry
  pub set : Cache → Text → CacheEntry → ℕ → Cache

-- `storage.MemoryCache`
abbrev pub memory_cache : Lru CacheEntry → Memory
memory_cache L = record {
  Cache = MemoryCache.MemoryCache L;
  get = MemoryCache.get_entry L;
  set = MemoryCache.set_entry L;
}

pub data Reply : Type 0 where
  found : LyricsResponse → Reply
  not_found not_in_cache provider_error : Reply

unfoldable pub negative_ttl : ℕ → ℕ
negative_ttl ttl = positive_or ttl (3 * (60 * 10 ^ 9))

abbrev pub negative_entry : ℕ → ℕ → CacheEntry
negative_entry ttl now = record {
  body = [];
  status = 404;
  size = 0;
  parsed = nothing;
  stored_at = now;
  ttl = negative_ttl ttl;
}

unfoldable pub lines_bytes : List Line → ℕ
lines_bytes [] = 0
lines_bytes (l ∷ ls) = 64 + byte_length l.text + length l.syllabus * 32 + lines_bytes ls

-- `estimateLyricsBytes` of a response that is there
unfoldable pub estimate_lyrics_bytes : LyricsResponse → ℕ
estimate_lyrics_bytes resp =
    let size = 256 + byte_length resp.raw_data + lines_bytes resp.lyrics in
    if ltb (64 * 2 ^ 10) size then 64 * 2 ^ 10 else size

abbrev pub lyrics_entry : LyricsResponse → ℕ → CacheEntry
lyrics_entry resp now = record {
  body = [];
  status = 0;
  size = estimate_lyrics_bytes resp;
  parsed = parsed_lyrics resp;
  stored_at = now;
  ttl = 0;
}

abbrev pub raw_entry : Text → Text → ℕ → CacheEntry
raw_entry source raw now = record {
  body = [];
  status = 0;
  size = byte_length raw;
  parsed = parsed_raw source raw;
  stored_at = now;
  ttl = 0;
}

abbrev pub with_source : Text → LyricsResponse → LyricsResponse
with_source source resp = record resp { metadata = record resp.metadata { source = source } }

-- The name that an entry of the cache is given.
unfoldable pub cached_name : Text → Text
cached_name held =
    if text_eq held (codes "Apple Music")
    then codes "Apple"
    else if equal_fold held (codes "lyricsplus")
    then codes "Lyrics+"
    else held

abbrev pub renamed : LyricsResponse → LyricsResponse
renamed resp = with_source (cached_name resp.metadata.source) resp

-- The `switch` on the source of a result.
unfoldable pub winner_name : Text → Text → Text
winner_name source held =
    if equal_fold source (codes "apple") || text_eq held (codes "Apple Music")
    then codes "Apple"
    else if equal_fold source (codes "lyricsplus") && not (has_prefix held (codes "Lyrics+"))
    then codes "Lyrics+"
    else if equal_fold source (codes "qq")
    then codes "QQ Music"
    else if equal_fold source (codes "deezer")
    then codes "Deezer"
    else if equal_fold source (codes "musixmatch") || equal_fold source (codes "musixmatch-word")
    then codes "Musixmatch"
    else if equal_fold source (codes "spotify") && is_empty held
    then codes "Spotify"
    else held

abbrev pub named_by : Text → LyricsResponse → LyricsResponse
named_by source resp = with_source (winner_name source resp.metadata.source) resp

unfoldable pub completed : LyricsResponse → LyricsResponse
completed resp = record resp {
  kpoe_tools = if is_empty resp.kpoe_tools then codes "lyricsplus" else resp.kpoe_tools;
  cached = if is_empty resp.cached then cache_none else resp.cached;
}

-- `decorateCacheHit`
unfoldable pub decorate_cache_hit : LyricsResponse → LyricsResponse
decorate_cache_hit resp =
    if is_empty resp.cached || text_eq resp.cached cache_none
    then record resp { cached = codes "Database" }
    else resp

-- `res == nil || res.Resp == nil || len(res.Resp.Lyrics) == 0`, or the response
unfoldable pub lyrics_in : Option FetchResult → Option LyricsResponse
lyrics_in none = none
lyrics_in (some res) = elim res.resp [
  | none ↦ none
  | some resp ↦ if is_empty resp.lyrics then none else some resp
]

module _ (lower : ℕ → ℕ) where
  abbrev pub lyrics_cache_key : SearchQuery → Text
  lyrics_cache_key q = codes "lyrics::" ++ content_key lower q

  abbrev pub raw_cache_key : SearchQuery → Text
  raw_cache_key q = codes "raw::" ++ content_key lower q

  abbrev pub negative_cache_key : SearchQuery → Text
  negative_cache_key q = codes "neg::" ++ content_key lower q
