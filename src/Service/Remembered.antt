-- ===== src/Service/Remembered.antt =====
-- internal/service/service.go over the memory cache of internal/storage/memcache.go: what a lookup
-- that has asked the providers saves the next one.
use lyrics_plus.Common.{
  ℕ, ◌≤◌, ◌<◌, ◌^◌, ◌≡◌, refl, subst, ap, ◌∙◌, Bool, true, false, ◌==◌, inl, inr, Option, none,
  some, List, ◌++◌, Bool-cases, All, positive_or, arith,
}
use lyrics_plus.Common.Text.{Text, codes, text_eq}
use lyrics_plus.Domain.{LyricsResponse}
use lyrics_plus.Domain.Query.{SearchQuery, is_empty, content_key}
use lyrics_plus.Storage.Lru.{Lru}
use lyrics_plus.Storage.MemoryCache
use lyrics_plus.Storage.MemoryCache.{CacheEntry, CacheConfig, entry_size, expired, default_ttl}
use lyrics_plus.Storage.MemoryCache.Accounting
use lyrics_plus.Storage.MemoryCache.Accounting.{IsSound}
use lyrics_plus.Storage.MemoryCache.Changes.{stamped}
use lyrics_plus.Storage.MemoryCache.Lookups
use lyrics_plus.Storage.MemoryCache.Runs
use lyrics_plus.Storage.MemoryCache.Runs.{Call, IsSized, byte_room}
use lyrics_plus.Service.{
  match_source, FetchResult, should_cache_negative_result, answered, memory_cache, IsLive, found,
  not_found, negative_entry, lyrics_entry, renamed, decorate_cache_hit, lyrics_in, lyrics_cache_key,
  negative_cache_key, completed,
}
use lyrics_plus.Service.Lookup.{
  Outside, lookup, store_entry, is_negative_entry, cache_negative, fetch_lyrics,
}
use lyrics_plus.Service.Cached.{
  full_response, lyrics_in-given, negative_hit, ask_miss, ask_found, memory_hit, fetch_lyrics-Asks,
}

live_entry : (e : CacheEntry) (later : ℕ) → IsLive e later → expired e later ≡ false
unfolding expired
live_entry e later h = ground arith

keys_differ :
    (lower : ℕ → ℕ) (q q' : SearchQuery)
    → text_eq (negative_cache_key lower q) (lyrics_cache_key lower q') ≡ false
unfolding text_eq
keys_differ lower q q' = refl

module _ (L : Lru CacheEntry) where
  -- The cache after some calls.
  abbrev pub reached : CacheConfig → List Call → MemoryCache.MemoryCache L
  reached cfg calls = Runs.run L (MemoryCache.new_memory_cache L cfg) calls

module _ (lower : ℕ → ℕ) (L : Lru CacheEntry) where
  -- A sound cache that takes entries of up to `size`.
  abbrev Takes : ℕ → ℕ → MemoryCache.MemoryCache L → Type 0
  Takes room size c = IsSound L room c × (size ≤ c.max_body)

  Takes-get_entry :
      (room size : ℕ) (c : MemoryCache.MemoryCache L) (k : Text) (now : ℕ)
      → Takes room size c
      → Takes room size (MemoryCache.get_entry L c k now).0
  Takes-get_entry room size c k now (v, le) =
      (Accounting.get_entry-IsSound L room c v k now, rw (Lookups.get_entry-max_body L c k now) le)

  -- An entry with the time of the call is found again while it lives.
  get-stored :
      (room : ℕ) (c : MemoryCache.MemoryCache L) (k : Text) (e : CacheEntry) (now later : ℕ)
      → Takes room (entry_size e) c
      → e.stored_at ≡ now
      → IsLive e later
      → (MemoryCache.get_entry L (MemoryCache.set_entry L c k e now) k later).1 ≡ some e
  get-stored room c k e now later (v, le) at live =
      let same : stamped e now ≡ e =
        subst (λ t. stamped e t ≡ e) at
          (elim (Bool-cases (e.stored_at == 0)) [
            | inl unset ↦ rw unset refl
            | inr given ↦ rw given refl
          ]) in
      Lookups.get_entry-after_set L room c k e now later v le (rw same (live_entry e later live))
      ∙ ap some same

  -- With byte limits below 2^62, after any calls of the cache with entries whose sizes are int64 and
  -- not negative: when a lookup has asked the providers and got a definite miss, the next lookup, if
  -- it is not forced and its query has the same content, is answered by that miss without the
  -- providers as long as the remembered miss lives, whatever sources its query is restricted to.
  pub fetch_lyrics-miss :
      (o : Outside) (only force : Bool) (cfg : CacheConfig) (calls : List Call) (q : SearchQuery)
      (preferred : List Text) (now : ℕ) (res : Option FetchResult) (only' : Bool) (q' : SearchQuery)
      (preferred' : List Text) (later : ℕ)
      → let M = memory_cache L in
        let first =
          fetch_lyrics lower M o only force (some (reached L cfg calls)) q preferred now in
        byte_room cfg < 2 ^ 62
        → All IsSized calls
        → first.asked ≡ true
        → o.dedup q preferred ≡ answered res
        → lyrics_in res ≡ none
        → should_cache_negative_result res ≡ true
        → content_key lower q' ≡ content_key lower q
        → IsLive (negative_entry o.negative_ttl now) later
        → let second = fetch_lyrics lower M o only' false first.cache q' preferred' later in
          (second.reply ≡ not_found) × (second.asked ≡ false)
  unfolding cache_negative store_entry lookup entry_size
  fetch_lyrics-miss o only force cfg calls q preferred now res only' q' preferred' later h z asked e
        l miss same live =
      let M = memory_cache L in
      let entry = negative_entry o.negative_ttl now in
      let room = byte_room cfg in
      let (c', takes, ends) =
        fetch_lyrics-Asks lower M (Takes room (entry_size entry))
          (Takes-get_entry room (entry_size entry)) o only force (reached L cfg calls) q preferred
          now (Runs.reached-IsSound L cfg calls h z, unfold positive_or in omega arith) asked in
      let after =
        ap (λ x. x.cache) ends ∙ ask_miss lower M o (some c') q preferred now res e l miss in
      let there = get-stored room c' (negative_cache_key lower q) entry now later takes refl live in
      rw after (
        negative_hit lower M o only' (cache_negative lower M o (some c') q now) q' preferred' later
          (rw (same, there) refl))

  -- With byte limits below 2^62, after any calls of the cache with entries whose sizes are int64 and
  -- not negative: when a lookup has asked the providers and found lyrics that come without raw data,
  -- the next lookup, if it is not forced and its query has the same content, is answered from memory
  -- with them, without the providers, as long as the entry lives: if the entry is not over the body
  -- limit, no miss is remembered and the name of its source is one that the query allows.
  pub fetch_lyrics-found :
      (o : Outside) (only force : Bool) (cfg : CacheConfig) (calls : List Call) (q : SearchQuery)
      (preferred : List Text) (now : ℕ) (res : FetchResult) (resp : LyricsResponse) (only' : Bool)
      (q' : SearchQuery) (preferred' : List Text) (later : ℕ)
      → let M = memory_cache L in
        let first =
          fetch_lyrics lower M o only force (some (reached L cfg calls)) q preferred now in
        byte_room cfg < 2 ^ 62
        → All IsSized calls
        → first.asked ≡ true
        → o.dedup q preferred ≡ answered (some res)
        → lyrics_in (some res) ≡ some resp
        → is_empty (full_response res resp).raw_data ≡ true
        → entry_size (lyrics_entry (full_response res resp) now) ≤ (reached L cfg calls).max_body
        → IsLive (lyrics_entry (full_response res resp) now) later
        → content_key lower q' ≡ content_key lower q
        → is_negative_entry (lookup M first.cache (negative_cache_key lower q') later).1 ≡ false
        → match_source (renamed (full_response res resp)).metadata.source q'.sources ≡ true
        → let second = fetch_lyrics lower M o only' false first.cache q' preferred' later in
          (second.reply ≡ found (decorate_cache_hit (renamed (full_response res resp))))
          × (second.asked ≡ false)
  unfolding lookup completed
  fetch_lyrics-found o only force cfg calls q preferred now res resp only' q' preferred' later h z
        asked e l raw small live same clear fits =
      let M = memory_cache L in
      let full = full_response res resp in
      let entry = lyrics_entry full now in
      let room = byte_room cfg in
      let (c', takes, ends) =
        fetch_lyrics-Asks lower M (Takes room (entry_size entry))
          (Takes-get_entry room (entry_size entry)) o only force (reached L cfg calls) q preferred
          now (Runs.reached-IsSound L cfg calls h z, small) asked in
      let c'' = MemoryCache.set_entry L c' (lyrics_cache_key lower q) entry now in
      let after =
        ap (λ x. x.cache) ends ∙ ask_found lower M o c' q preferred now res resp e l raw in
      let there = get-stored room c' (lyrics_cache_key lower q) entry now later takes refl live in
      rw after (
        memory_hit lower M o only' c'' q' preferred' later full now
          (subst (λ x. is_negative_entry (lookup M x (negative_cache_key lower q') later).1 ≡ false)
            after clear)
          (Lookups.get_entry-after_get L c'' (negative_cache_key lower q')
              (lyrics_cache_key lower q') later (keys_differ lower q' q')
            ∙ (ap (λ k. (MemoryCache.get_entry L c'' (codes "lyrics::" ++ k) later).1) same
                ∙ there))
          (lyrics_in-given res resp l) fits)
