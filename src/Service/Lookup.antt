-- ===== src/Service/Lookup.antt =====
-- internal/service/service.go: `FetchLyrics`, with what it does to the memory cache.
use lyrics_plus.Common.{
  ℕ, Bool, true, false, not, ◌&&◌, Option, none, some, List, ◌==◌, if◌then◌else◌,
}
use lyrics_plus.Common.Text.{Text}
use lyrics_plus.Domain.{LyricsResponse}
use lyrics_plus.Domain.Query.{SearchQuery, is_empty}
use lyrics_plus.Storage.MemoryCache.{CacheEntry, nothing, parsed_lyrics, parsed_raw}
use lyrics_plus.Service.{
  provider_name, match_source, FetchResult, should_cache_negative_result, Answer, failed, answered,
  Memory, Reply, found, not_found, not_in_cache, provider_error, negative_entry, lyrics_entry,
  raw_entry, renamed, named_by, completed, decorate_cache_hit, lyrics_in, lyrics_cache_key,
  raw_cache_key, negative_cache_key,
}

-- What a lookup leaves and gives: the cache, the reply, whether the providers were asked, and the
-- result that is handed to the store.
pub record Fetched (C : Type 0) : Type 0 where
  pub cache : Option C
  pub reply : Reply
  pub asked : Bool
  pub saved : Option FetchResult

pub record Outside : Type 0 where
  pub negative_ttl : ℕ
  pub from_store : SearchQuery → Option LyricsResponse
  pub dedup : SearchQuery → List Text → Answer

abbrev pub kept : {C : Type 0} → Option C → Reply → Fetched C
kept c reply = record { cache = c; reply = reply; asked = false; saved = none }

abbrev pub is_negative_entry : Option CacheEntry → Bool
is_negative_entry none = false
is_negative_entry (some e) = e.status == 404

-- `fromMemory`, from the entry on
unfoldable pub from_entry : SearchQuery → Option CacheEntry → Option LyricsResponse
from_entry q none = none
from_entry q (some e) = elim e.parsed [
  | nothing ↦ none
  | parsed_raw source raw ↦ none
  | parsed_lyrics resp ↦
      let named = renamed resp in
      if is_empty resp.lyrics
      then none
      else if match_source named.metadata.source q.sources
      then some named
      else none
]

module _ (M : Memory) where
  open M use {Cache, get, set}

  unfoldable pub lookup : Option Cache → Text → ℕ → Option Cache × Option CacheEntry
  lookup none key now = (none, none)
  lookup (some c) key now = let (c', e) = get c key now in (some c', e)

  unfoldable pub store_entry : Option Cache → Text → CacheEntry → ℕ → Option Cache
  store_entry none key e now = none
  store_entry (some c) key e now = some (set c key e now)

  unfoldable pub cache_response :
      (ℕ → ℕ) → Option Cache → SearchQuery → LyricsResponse → Text → ℕ → Option Cache
  cache_response lower c q resp winner now =
      let held = store_entry c (lyrics_cache_key lower q) (lyrics_entry resp now) now in
      if is_empty resp.raw_data
      then held
      else store_entry held (raw_cache_key lower q) (raw_entry winner resp.raw_data now) now

module _ (lower : ℕ → ℕ) (M : Memory) (o : Outside) where
  open M use {Cache}

  unfoldable pub cache_negative : Option Cache → SearchQuery → ℕ → Option Cache
  cache_negative c q now =
      store_entry M c (negative_cache_key lower q) (negative_entry o.negative_ttl now) now

  unfoldable pub settle_miss : Option Cache → SearchQuery → Option FetchResult → ℕ → Fetched Cache
  settle_miss c q res now = record {
    cache = if should_cache_negative_result res then cache_negative c q now else c;
    reply = not_found;
    asked = true;
    saved = none;
  }

  unfoldable pub settle_found :
      Option Cache → SearchQuery → Text → FetchResult → LyricsResponse → ℕ → Fetched Cache
  settle_found c q source res resp now =
      let full = completed (named_by source resp) in
      record {
        cache = cache_response M lower c q full source now;
        reply = found full;
        asked = true;
        saved = some (record res { resp = some full });
      }

  unfoldable pub settle : Option Cache → SearchQuery → Option FetchResult → ℕ → Fetched Cache
  settle c q none now = settle_miss c q none now
  settle c q (some res) now = elim (lyrics_in (some res)) [
    | none ↦ settle_miss c q (some res) now
    | some resp ↦ settle_found c q res.source res resp now
  ]

  -- From `s.Dedup.Get` on.
  unfoldable pub ask_providers : Option Cache → SearchQuery → List Text → ℕ → Fetched Cache
  ask_providers c q preferred now = elim (o.dedup q preferred) [
    | failed ↦ record { cache = c; reply = provider_error; asked = true; saved = none }
    | answered res ↦ settle c q res now
  ]

  unfoldable pub ask_unless : Bool → Option Cache → SearchQuery → List Text → ℕ → Fetched Cache
  ask_unless cache_only c q preferred now =
      if cache_only then kept c not_in_cache else ask_providers c q preferred now

  -- The lookup in the caches, where it is not skipped; the names are the order of the tests.
  unfoldable pub try_store : Bool → Option Cache → SearchQuery → List Text → ℕ → Fetched Cache
  try_store cache_only c q preferred now = elim (o.from_store q) [
    | none ↦ ask_unless cache_only c q preferred now
    | some resp ↦
        let hit = decorate_cache_hit resp in
        kept (cache_response M lower c q hit (provider_name hit.metadata.source) now) (found hit)
  ]

  unfoldable pub try_memory : Bool → Option Cache → SearchQuery → List Text → ℕ → Fetched Cache
  try_memory cache_only c q preferred now =
      let (c', entry) = lookup M c (lyrics_cache_key lower q) now in
      elim (from_entry q entry) [
        | none ↦ try_store cache_only c' q preferred now
        | some resp ↦ kept c' (found (decorate_cache_hit resp))
      ]

  unfoldable pub try_negative : Bool → Option Cache → SearchQuery → List Text → ℕ → Fetched Cache
  try_negative cache_only c q preferred now =
      let (c', entry) = lookup M c (negative_cache_key lower q) now in
      if is_negative_entry entry
      then kept c' (not_found)
      else try_memory cache_only c' q preferred now

  unfoldable pub fetch_lyrics :
      Bool → Bool → Option Cache → SearchQuery → List Text → ℕ → Fetched Cache
  fetch_lyrics cache_only force_reload c q preferred now =
      if not cache_only && force_reload
      then ask_providers c q preferred now
      else try_negative cache_only c q preferred now
