-- ===== src/Service/Cached.antt =====
-- internal/service/service.go: what the caches spare the providers.
use lyrics_plus.Common.{
  ℕ, ◌≡◌, refl, subst, Bool, true, false, not, ◌&&◌, inl, inr, Option, none, some, List, Bool-cases,
  Option-cases, arith,
}
use lyrics_plus.Common.Text.{Text}
use lyrics_plus.Domain.{LyricsResponse}
use lyrics_plus.Domain.Query.{SearchQuery, is_empty}
use lyrics_plus.Service.{
  match_source, FetchResult, should_cache_negative_result, Answer, answered, Memory, found,
  not_found, lyrics_entry, renamed, named_by, completed, decorate_cache_hit, lyrics_in,
  lyrics_cache_key, negative_cache_key,
}
use lyrics_plus.Service.Lookup.{
  Fetched, Outside, lookup, store_entry, is_negative_entry, cache_negative, cache_response,
  from_entry, settle_miss, settle_found, settle, ask_providers, ask_unless, try_store, try_memory,
  try_negative, fetch_lyrics,
}

abbrev pub IsQuiet : {C : Type 0} → Fetched C → Type 0
IsQuiet out = (out.asked ≡ false) × (out.saved ≡ none)

pub lyrics_in-given :
    (res : FetchResult) (resp : LyricsResponse)
    → lyrics_in (some res) ≡ some resp
    → is_empty resp.lyrics ≡ false
unfolding lyrics_in
lyrics_in-given res resp h = elim (Option-cases res.resp) [
  | inl e ↦ absurd (ground arith)
  | inr (r, e) ↦ elim (Bool-cases (is_empty r.lyrics)) [
    | inl empty ↦ absurd (ground arith)
    | inr full ↦
        let same : r ≡ resp = ground arith in subst (λ x. is_empty x.lyrics ≡ false) same full
  ]
]

-- The response as it is given out and kept.
abbrev pub full_response : FetchResult → LyricsResponse → LyricsResponse
full_response res resp = completed (named_by res.source resp)

module _ (lower : ℕ → ℕ) (M : Memory) where
  open M use {Cache, get, set}

  try_store-IsQuiet :
      (o : Outside) (c : Option Cache) (q : SearchQuery) (preferred : List Text) (now : ℕ)
      → IsQuiet (try_store lower M o true c q preferred now)
  unfolding ask_unless try_store
  try_store-IsQuiet o c q preferred now = elim (Option-cases (o.from_store q)) [
    | inl e ↦ rw (e, try_store) (refl, refl)
    | inr (resp, e) ↦ rw (e, try_store) (refl, refl)
  ]

  try_memory-IsQuiet :
      (o : Outside) (c : Option Cache) (q : SearchQuery) (preferred : List Text) (now : ℕ)
      → IsQuiet (try_memory lower M o true c q preferred now)
  unfolding try_memory
  try_memory-IsQuiet o c q preferred now =
      let (c', entry) = lookup M c (lyrics_cache_key lower q) now in
      elim (Option-cases (from_entry q entry)) [
        | inl e ↦ rw (e, try_memory) (try_store-IsQuiet o c' q preferred now)
        | inr (resp, e) ↦ rw (e, try_memory) (refl, refl)
      ]

  try_negative-IsQuiet :
      (o : Outside) (c : Option Cache) (q : SearchQuery) (preferred : List Text) (now : ℕ)
      → IsQuiet (try_negative lower M o true c q preferred now)
  unfolding try_negative
  try_negative-IsQuiet o c q preferred now =
      let (c', entry) = lookup M c (negative_cache_key lower q) now in
      elim (Bool-cases (is_negative_entry entry)) [
        | inl e ↦ rw (e, try_negative) (refl, refl)
        | inr e ↦ rw (e, try_negative) (try_memory-IsQuiet o c' q preferred now)
      ]

  -- A lookup that may only use the caches never asks the providers and hands nothing to the store,
  -- forced or not, and it is the same whatever the providers would answer.
  pub fetch_lyrics-cache_only :
      (o : Outside) (force : Bool) (other : SearchQuery → List Text → Answer) (c : Option Cache)
      (q : SearchQuery) (preferred : List Text) (now : ℕ)
      → let out = fetch_lyrics lower M o true force c q preferred now in
        IsQuiet out
        × (out ≡ fetch_lyrics lower M (record o { dedup = other }) true false c q preferred now)
  unfolding fetch_lyrics try_negative try_memory try_store ask_unless
  fetch_lyrics-cache_only o force other c q preferred now =
      (try_negative-IsQuiet o c q preferred now, refl)

  -- A remembered miss is the answer.
  pub negative_hit :
      (o : Outside) (only : Bool) (c : Option Cache) (q : SearchQuery) (preferred : List Text)
      (now : ℕ)
      → is_negative_entry (lookup M c (negative_cache_key lower q) now).1 ≡ true
      → let out = fetch_lyrics lower M o only false c q preferred now in
        (out.reply ≡ not_found) × (out.asked ≡ false)
  unfolding fetch_lyrics try_negative
  negative_hit o only c q preferred now h =
      let unforced : (not only && false) ≡ false = ground arith in rw (unforced, h) (refl, refl)

  pub ask_miss :
      (o : Outside) (c : Option Cache) (q : SearchQuery) (preferred : List Text) (now : ℕ)
      (res : Option FetchResult)
      → o.dedup q preferred ≡ answered res
      → lyrics_in res ≡ none
      → should_cache_negative_result res ≡ true
      → (ask_providers lower M o c q preferred now).cache ≡ cache_negative lower M o c q now
  unfolding ask_providers settle settle_miss
  ask_miss o c q preferred now none e l h = rw (e, ask_providers, h) refl
  ask_miss o c q preferred now (some res) e l h =
      rw (e, ask_providers, l, settle, h, settle_miss) refl

  pub ask_found :
      (o : Outside) (c : Cache) (q : SearchQuery) (preferred : List Text) (now : ℕ)
      (res : FetchResult) (resp : LyricsResponse)
      → o.dedup q preferred ≡ answered (some res)
      → lyrics_in (some res) ≡ some resp
      → is_empty (full_response res resp).raw_data ≡ true
      → (ask_providers lower M o (some c) q preferred now).cache
        ≡ some (set c (lyrics_cache_key lower q) (lyrics_entry (full_response res resp) now) now)
  unfolding ask_providers settle settle_found cache_response store_entry completed
  ask_found o c q preferred now res resp e l h =
      rw (e, ask_providers, l, settle, settle_found, cache_response, h) refl

  hit :
      (o : Outside) (only : Bool) (c : Cache) (q : SearchQuery) (preferred : List Text) (now : ℕ)
      (resp : LyricsResponse) (stamp : ℕ)
      → (get c (lyrics_cache_key lower q) now).1 ≡ some (lyrics_entry resp stamp)
      → is_empty resp.lyrics ≡ false
      → match_source (renamed resp).metadata.source q.sources ≡ true
      → let out = try_memory lower M o only (some c) q preferred now in
        (out.reply ≡ found (decorate_cache_hit (renamed resp))) × (out.asked ≡ false)
  unfolding try_memory lookup from_entry
  hit o only c q preferred now resp stamp there full fits =
      rw (there, try_memory, full, from_entry, fits) (refl, refl)

  pub memory_hit :
      (o : Outside) (only : Bool) (c : Cache) (q : SearchQuery) (preferred : List Text) (now : ℕ)
      (resp : LyricsResponse) (stamp : ℕ)
      → is_negative_entry (get c (negative_cache_key lower q) now).1 ≡ false
      → (get (get c (negative_cache_key lower q) now).0 (lyrics_cache_key lower q) now).1
        ≡ some (lyrics_entry resp stamp)
      → is_empty resp.lyrics ≡ false
      → match_source (renamed resp).metadata.source q.sources ≡ true
      → let out = fetch_lyrics lower M o only false (some c) q preferred now in
        (out.reply ≡ found (decorate_cache_hit (renamed resp))) × (out.asked ≡ false)
  unfolding fetch_lyrics try_negative lookup
  memory_hit o only c q preferred now resp stamp clear there full fits =
      let unforced : (not only && false) ≡ false = ground arith in
      rw (unforced, clear)
        (hit o only (get c (negative_cache_key lower q) now).0 q preferred now resp stamp there full
          fits)

module _ (lower : ℕ → ℕ) (M : Memory) (P : M.Cache → Type 0)
    (keeps : (c : M.Cache) (k : Text) (now : ℕ) → P c → P (M.get c k now).0) where
  open M use {Cache, get}

  -- A lookup that asks the providers ends in asking them, with a state of the cache that
  -- has what every lookup of it keeps.
  abbrev Asks : Outside → SearchQuery → List Text → ℕ → Fetched Cache → Type 0
  Asks o q preferred now out =
      out.asked ≡ true
      → (c : Cache) × P c × (out ≡ ask_providers lower M o (some c) q preferred now)

  try_store-Asks :
      (o : Outside) (only : Bool) (c : Cache) (q : SearchQuery) (preferred : List Text) (now : ℕ)
      → P c
      → Asks o q preferred now (try_store lower M o only (some c) q preferred now)
  unfolding ask_unless try_store
  try_store-Asks o true c q preferred now p = elim (Option-cases (o.from_store q)) [
    | inl e ↦ rw (e, try_store) (λ h. absurd (ground arith))
    | inr (resp, e) ↦ rw (e, try_store) (λ h. absurd (ground arith))
  ]
  try_store-Asks o false c q preferred now p = elim (Option-cases (o.from_store q)) [
    | inl e ↦ rw (e, try_store) (λ h. (c, p, refl))
    | inr (resp, e) ↦ rw (e, try_store) (λ h. absurd (ground arith))
  ]

  try_memory-Asks :
      (o : Outside) (only : Bool) (c : Cache) (q : SearchQuery) (preferred : List Text) (now : ℕ)
      → P c
      → Asks o q preferred now (try_memory lower M o only (some c) q preferred now)
  unfolding try_memory lookup
  try_memory-Asks o only c q preferred now p =
      let (c', entry) = get c (lyrics_cache_key lower q) now in
      elim (Option-cases (from_entry q entry)) [
        | inl e ↦
            rw (e, try_memory)
              (try_store-Asks o only c' q preferred now (keeps c (lyrics_cache_key lower q) now p))
        | inr (resp, e) ↦ rw (e, try_memory) (λ h. absurd (ground arith))
      ]

  try_negative-Asks :
      (o : Outside) (only : Bool) (c : Cache) (q : SearchQuery) (preferred : List Text) (now : ℕ)
      → P c
      → Asks o q preferred now (try_negative lower M o only (some c) q preferred now)
  unfolding try_negative lookup
  try_negative-Asks o only c q preferred now p =
      let (c', entry) = get c (negative_cache_key lower q) now in
      elim (Bool-cases (is_negative_entry entry)) [
        | inl e ↦ rw (e, try_negative) (λ h. absurd (ground arith))
        | inr e ↦
            rw (e, try_negative)
              (try_memory-Asks o only c' q preferred now
                (keeps c (negative_cache_key lower q) now p))
      ]

  pub fetch_lyrics-Asks :
      (o : Outside) (only force : Bool) (c : Cache) (q : SearchQuery) (preferred : List Text)
      (now : ℕ)
      → P c
      → Asks o q preferred now (fetch_lyrics lower M o only force (some c) q preferred now)
  unfolding fetch_lyrics
  fetch_lyrics-Asks o only force c q preferred now p = elim (Bool-cases (not only && force)) [
    | inl e ↦ rw e (λ h. (c, p, refl))
    | inr e ↦ rw e (try_negative-Asks o only c q preferred now p)
  ]
