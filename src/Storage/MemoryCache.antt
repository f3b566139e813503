-- ===== src/Storage/MemoryCache.antt =====
-- internal/storage/memcache.go: a response cache bounded in entries and in bytes, over the LRU
-- cache of golang-lru. Times are nanoseconds, 0 is the zero time; sizes are int64. The cache of a
-- nil receiver and the header of an entry, which the cache only carries, are left out.
pub mod Accounting
pub mod Calls
pub mod Changes
pub mod Lookups
pub mod Runs
use lyrics_plus.Common.{
  ℕ, zero, suc, ◌+◌, ◌-◌, ◌*◌, ◌/◌, ◌^◌, Bool, true, false, not, ◌&&◌, Option, none, some, List, [],
  ◌∷◌, ltb, leb, ◌==◌, if◌then◌else◌, length, lt_i64, positive_or, add_i64, sub_i64, clamp_i64,
}
use lyrics_plus.Common.Text.{Text}
use lyrics_plus.Domain.{LyricsResponse}
use lyrics_plus.Storage.Lru.{Lru}

-- The values that the service keeps in `Parsed`: none, lyrics, or a source and raw data.
pub data Parsed : Type 0 where
  nothing : Parsed
  parsed_lyrics : LyricsResponse → Parsed
  parsed_raw : Text → Text → Parsed

pub record CacheEntry : Type 0 where
  pub body : List ℕ
  pub parsed : Parsed
  pub status : ℕ
  pub size : ℕ
  pub stored_at : ℕ
  pub ttl : ℕ

-- `internal/config`'s `Cache`, the three limits
pub record CacheConfig : Type 0 where
  pub max_entries : ℕ
  pub max_bytes : ℕ
  pub max_body_bytes : ℕ

abbrev pub default_ttl : ℕ
default_ttl = 30 * 60 * 1_000_000_000

-- `if e.Size > 0 { return e.Size }; return len(e.Body)`
unfoldable pub entry_size : CacheEntry → ℕ
entry_size e = positive_or e.size (length e.body)

-- The test of `Get` and `Shed`: past its time to live, unless it was never stamped.
unfoldable pub expired : CacheEntry → ℕ → Bool
expired e now = not (e.stored_at == 0) && ltb (e.stored_at + positive_or e.ttl default_ttl) now

module _ (L : Lru CacheEntry) where
  open L use {Cache, new, get, peek, remove, remove_oldest, add, len, keys}

  pub record MemoryCache : Type 0 where
    pub entries : Cache
    pub bytes : ℕ
    pub max_keys : ℕ
    pub max_bytes : ℕ
    pub max_body : ℕ

  unfoldable pub new_memory_cache : CacheConfig → MemoryCache
  new_memory_cache cfg =
      let max_keys = positive_or cfg.max_entries 4096 in
      record {
        entries = new max_keys;
        bytes = 0;
        max_keys = max_keys;
        max_bytes = positive_or cfg.max_bytes (64 * 2 ^ 20);
        max_body = positive_or cfg.max_body_bytes (2 ^ 20 * 3 / 2);
      }

  -- `e, ok := c.entries.Get(key)`, then the test of the time to live
  unfoldable pub get_entry : MemoryCache → Text → ℕ → MemoryCache × Option CacheEntry
  get_entry c key now =
      let (lru, found) = get c.entries key in
      let c' = record c { entries = lru } in
      elim found [
        | none ↦ (c', none)
        | some e ↦
            if expired e now
            then (
              record c' {
                bytes = clamp_i64 (sub_i64 c.bytes (entry_size e));
                entries = remove lru key;
              },
              none,
            )
            else (c', some e)
      ]

  -- `if prev, ok := c.entries.Peek(key); ok { … }`
  unfoldable pub drop_previous : MemoryCache → Text → MemoryCache
  drop_previous c key = elim (peek c.entries key) [
    | none ↦ c
    | some prev ↦ record c {
      bytes = sub_i64 c.bytes (entry_size prev);
      entries = remove c.entries key;
    }
  ]

  -- `if _, v, ok := c.entries.RemoveOldest(); ok { c.bytes -= entrySize(v) }`
  unfoldable pub evict_one : MemoryCache → MemoryCache
  evict_one c =
      let (lru, victim) = remove_oldest c.entries in
      record c {
        entries = lru;
        bytes = elim victim [ none ↦ c.bytes | some v ↦ sub_i64 c.bytes (entry_size v) ];
      }

  -- `for c.bytes+bodyLen > c.maxBytes && c.entries.Len() > 0`, on fuel for the rounds
  unfoldable pub make_room : ℕ → ℕ → MemoryCache → MemoryCache
  make_room zero body_len c = c
  make_room (suc n) body_len c =
      let rest = make_room n body_len (evict_one c) in
      if lt_i64 c.max_bytes (add_i64 c.bytes body_len) && ltb 0 (len c.entries) then rest else c

  unfoldable pub make_slot : MemoryCache → MemoryCache
  make_slot c = if leb c.max_keys (len c.entries) && ltb 0 (len c.entries) then evict_one c else c

  unfoldable pub insert_entry : MemoryCache → Text → CacheEntry → ℕ → MemoryCache
  insert_entry c key e body_len =
      let c1 = drop_previous c key in
      let c2 = if lt_i64 0 c1.max_bytes then make_room (len c1.entries) body_len c1 else c1 in
      let c3 = make_slot c2 in
      record c3 { entries = add c3.entries key e; bytes = add_i64 (clamp_i64 c3.bytes) body_len }

  unfoldable pub set_entry : MemoryCache → Text → CacheEntry → ℕ → MemoryCache
  set_entry c key e now =
      let body_len = entry_size e in
      if lt_i64 0 c.max_body && lt_i64 c.max_body body_len
      then c
      else insert_entry c key (if e.stored_at == 0 then record e { stored_at = now } else e)
          body_len

  unfoldable pub count : MemoryCache → ℕ
  count c = len c.entries

  -- The first loop of `Shed`, over the keys as they were.
  unfoldable pub drop_expired : MemoryCache → List Text → ℕ → MemoryCache
  drop_expired c [] now = c
  drop_expired c (k ∷ ks) now =
      drop_expired
        (elim (peek c.entries k) [
          | none ↦ c
          | some v ↦
              if expired v now
              then record c { bytes = sub_i64 c.bytes (entry_size v); entries = remove c.entries k }
              else c
        ])
        ks now

  unfoldable pub evict_many : ℕ → MemoryCache → MemoryCache
  evict_many zero c = c
  evict_many (suc n) c = evict_many n (evict_one c)

  unfoldable pub shed : MemoryCache → ℕ → MemoryCache
  shed c now =
      let c1 = drop_expired c (keys c.entries) now in
      let half = len c1.entries / 2 in
      let c2 = evict_many (if half == 0 then len c1.entries else half) c1 in
      record c2 { bytes = clamp_i64 c2.bytes }
