-- ===== src/Storage/MemoryCache/Runs.antt =====
-- Every sequence of calls of the cache (internal/storage/memcache.go).
use lyrics_plus.Common.{
  ℕ, ◌≤◌, ◌<◌, ◌^◌, ◌*◌, ◌/◌, ◌≡◌, refl, ◌∙◌, none, some, List, [], ◌∷◌, if◌then◌else◌, All,
  Bool-cases, inl, inr, max, positive_or, positive_or-pos, arith,
}
use lyrics_plus.Common.Text.{Text}
use lyrics_plus.Storage.Lru.{Lru, Unique, total}
use lyrics_plus.Storage.MemoryCache
use lyrics_plus.Storage.MemoryCache.{CacheEntry, CacheConfig, entry_size, expired}
use lyrics_plus.Storage.MemoryCache.Accounting
use lyrics_plus.Storage.MemoryCache.Accounting.{IsSound}
use lyrics_plus.Storage.MemoryCache.Changes
use lyrics_plus.Storage.MemoryCache.Changes.{stamped}

pub data Call : Type 0 where
  gets : Text → ℕ → Call
  sets : Text → CacheEntry → ℕ → Call
  sheds : ℕ → Call

-- An entry's size is an int64 that is not negative.
abbrev pub IsSized : Call → Type 0
IsSized (gets k t) = Unit
IsSized (sets k e t) = entry_size e < 2 ^ 63
IsSized (sheds t) = Unit

-- The larger of the two byte limits of a configuration, the defaults applied.
abbrev pub byte_room : CacheConfig → ℕ
byte_room cfg =
    max (positive_or cfg.max_bytes (64 * 2 ^ 20)) (positive_or cfg.max_body_bytes (2 ^ 20 * 3 / 2))

module _ (L : Lru CacheEntry) where
  unfoldable pub step : MemoryCache.MemoryCache L → Call → MemoryCache.MemoryCache L
  step c (gets k t) = (MemoryCache.get_entry L c k t).0
  step c (sets k e t) = MemoryCache.set_entry L c k e t
  step c (sheds t) = MemoryCache.shed L c t

  unfoldable pub run : MemoryCache.MemoryCache L → List Call → MemoryCache.MemoryCache L
  run c [] = c
  run c (x ∷ xs) = run (step c x) xs

  step-IsSound :
      (r : ℕ) (c : MemoryCache.MemoryCache L) (x : Call)
      → IsSized x
      → IsSound L r c
      → IsSound L r (step c x)
  unfolding step
  step-IsSound r c (gets k t) z v = Accounting.get_entry-IsSound L r c v k t
  step-IsSound r c (sets k e t) z v = Changes.set_entry-IsSound L r c k e t v z
  step-IsSound r c (sheds t) z v = Changes.shed-IsSound L r c t v

  run-IsSound :
      (r : ℕ) (c : MemoryCache.MemoryCache L) (xs : List Call)
      → All IsSized xs
      → IsSound L r c
      → IsSound L r (run c xs)
  unfolding run
  run-IsSound r c [] z v = v
  run-IsSound r c (x ∷ xs) z v = run-IsSound r (step c x) xs z.1 (step-IsSound r c x z.0 v)

  new-IsSound :
      (cfg : CacheConfig)
      → byte_room cfg < 2 ^ 62
      → IsSound L (byte_room cfg) (MemoryCache.new_memory_cache L cfg)
  unfolding MemoryCache.new_memory_cache
  new-IsSound cfg h =
      let none_yet = L.items-new (positive_or cfg.max_entries 4096) in
      record {
        unique = rw none_yet tt;
        counted = rw none_yet (unfold total in refl);
        sized = L.size-new _;
        keys_fit = rw none_yet (omega arith);
        bytes_fit = rw none_yet (unfold total in omega arith);
        keys_pos = positive_or-pos cfg.max_entries 4096 (omega arith);
        bytes_pos = positive_or-pos cfg.max_bytes (64 * 2 ^ 20) (omega arith);
        bytes_limit = omega arith;
        body_pos = positive_or-pos cfg.max_body_bytes (2 ^ 20 * 3 / 2) (omega arith);
        body_limit = omega arith;
        small = h;
      }

  pub reached-IsSound :
      (cfg : CacheConfig) (xs : List Call)
      → byte_room cfg < 2 ^ 62
      → All IsSized xs
      → IsSound L (byte_room cfg) (run (MemoryCache.new_memory_cache L cfg) xs)
  reached-IsSound cfg xs h z =
      run-IsSound (byte_room cfg) (MemoryCache.new_memory_cache L cfg) xs z (new-IsSound cfg h)

  -- With byte limits below 2^62, after any sequence of calls on a new cache whose entries have
  -- int64 sizes that are not negative: the byte count is the sum of the sizes of the
  -- entries that are there, no key stands twice, there are at most `max_keys` entries, and their
  -- sizes sum up to at most the larger of the two byte limits.
  pub run_accounts :
      (cfg : CacheConfig) (xs : List Call)
      → byte_room cfg < 2 ^ 62
      → All IsSized xs
      → let c = run (MemoryCache.new_memory_cache L cfg) xs in
        (c.bytes ≡ total entry_size (L.items c.entries))
        × Unique (L.items c.entries)
        × (MemoryCache.count L c ≤ c.max_keys)
        × (c.bytes ≤ byte_room cfg)
  unfolding MemoryCache.count
  run_accounts cfg xs h z =
      let c = run (MemoryCache.new_memory_cache L cfg) xs in
      let v = reached-IsSound cfg xs h z in
      (v.counted, v.unique, omega (arith, L.len-items c.entries), omega arith)

  -- With the same limits and sizes: after any sequence of calls, an entry that is stored and not
  -- over the body limit is what the next lookup of its key returns until it expires, and is gone
  -- once it has expired.
  pub get_entry-set_entry :
      (cfg : CacheConfig) (xs : List Call) (k : Text) (e : CacheEntry) (now later : ℕ)
      → byte_room cfg < 2 ^ 62
      → All IsSized xs
      → entry_size e ≤ (run (MemoryCache.new_memory_cache L cfg) xs).max_body
      → (MemoryCache.get_entry L
          (MemoryCache.set_entry L (run (MemoryCache.new_memory_cache L cfg) xs) k e now)
          k
          later).1
        ≡ (if expired (stamped e now) later then none else some (stamped e now))
  unfolding MemoryCache.get_entry
  get_entry-set_entry cfg xs k e now later h z le =
      let c = run (MemoryCache.new_memory_cache L cfg) xs in
      let v = reached-IsSound cfg xs h z in
      let c' = MemoryCache.set_entry L c k e now in
      let found : (L.get c'.entries k).1 ≡ some (stamped e now) =
        L.get-value c'.entries k ∙ Changes.set_entry-lookup L (byte_room cfg) c k e now v le in
      rw (found, MemoryCache.get_entry)
        (elim (Bool-cases (expired (stamped e now) later)) [
          | inl old ↦ rw old
          | inr fresh ↦ rw fresh
        ])
