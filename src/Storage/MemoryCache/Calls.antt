-- ===== src/Storage/MemoryCache/Calls.antt =====
-- The loops that make room in the cache (internal/storage/memcache.go).
use lyrics_plus.Common.{
  ℕ, zero, suc, ◌+◌, ◌-◌, ◌≤◌, ◌<◌, ◌≡◌, refl, sym, ◌∙◌, false, none, [], ◌∷◌, ltb, leb, length,
  Bool-cases, inl, inr, lt_i64, lt_i64-ltb, add_i64, add_i64-lt, arith, ◌&&◌,
}
use lyrics_plus.Common.Text.{Text}
use lyrics_plus.Common.TextMaps.{Dict, lookup}
use lyrics_plus.Storage.Lru.{Lru, without_oldest, total, without_oldest_absent}
use lyrics_plus.Storage.MemoryCache
use lyrics_plus.Storage.MemoryCache.{CacheEntry, CacheConfig, entry_size, expired}
use lyrics_plus.Storage.MemoryCache.Accounting
use lyrics_plus.Storage.MemoryCache.Accounting.{IsSound}

module _ (L : Lru CacheEntry) where
  -- Sound, and without an entry for the key that is being stored.
  pub record IsReady (r : ℕ) (k : Text) (c : MemoryCache.MemoryCache L) : Type 0 where
    pub sound : IsSound L r c
    pub absent : lookup k (L.items c.entries) ≡ none

  evict_one_absent :
      (k : Text) (c : MemoryCache.MemoryCache L)
      → lookup k (L.items c.entries) ≡ none
      → lookup k (L.items (MemoryCache.evict_one L c).entries) ≡ none
  unfolding MemoryCache.evict_one
  evict_one_absent k c h = rw (L.remove_oldest-items c.entries) (without_oldest_absent k _ h)

  length-evict_one :
      (c : MemoryCache.MemoryCache L)
      → length (L.items (MemoryCache.evict_one L c).entries) ≡ length (L.items c.entries) - 1
  unfolding MemoryCache.evict_one
  length-evict_one c = rw (L.remove_oldest-items c.entries) (Accounting.length-without_oldest L _)

  total-without_oldest :
      (m : Dict CacheEntry) → total entry_size (without_oldest m) ≤ total entry_size m
  unfolding total without_oldest
  total-without_oldest [] = omega arith
  total-without_oldest ((k, v) ∷ m) = omega arith

  total-evict_one :
      (c : MemoryCache.MemoryCache L)
      → total entry_size (L.items (MemoryCache.evict_one L c).entries)
        ≤ total entry_size (L.items c.entries)
  unfolding MemoryCache.evict_one
  total-evict_one c = rw (L.remove_oldest-items c.entries) (total-without_oldest _)

  evict_one-IsReady :
      (r : ℕ) (k : Text) (c : MemoryCache.MemoryCache L)
      → IsReady r k c
      → IsReady r k (MemoryCache.evict_one L c)
  evict_one-IsReady r k c h = record {
    sound = Accounting.evict_one-IsSound L r c h.sound;
    absent = evict_one_absent k c h.absent;
  }

  pub make_room-IsReady :
      (r : ℕ) (k : Text) (n b : ℕ) (c : MemoryCache.MemoryCache L)
      → IsReady r k c
      → IsReady r k (MemoryCache.make_room L n b c)
  unfolding MemoryCache.make_room
  make_room-IsReady r k zero b c h = h
  make_room-IsReady r k (suc n) b c h =
      elim (Bool-cases (lt_i64 c.max_bytes (add_i64 c.bytes b) && ltb 0 (L.len c.entries))) [
        | inl e ↦
            rw e (make_room-IsReady r k n b (MemoryCache.evict_one L c) (evict_one-IsReady r k c h))
        | inr e ↦ rw e h
      ]

  empty_total : (m : Dict CacheEntry) → length m ≡ 0 → total entry_size m ≡ 0
  unfolding total
  empty_total [] h = refl
  empty_total (x ∷ m) h = absurd (omega arith)

  stopped :
      (r : ℕ) (c : MemoryCache.MemoryCache L)
      → IsSound L r c
      → (b : ℕ) → b ≤ r
      → (ltb c.max_bytes (c.bytes + b) && ltb 0 (L.len c.entries)) ≡ false
      → total entry_size (L.items c.entries) + b ≤ r
  stopped r c v b le e = elim (Bool-cases (ltb 0 (L.len c.entries))) [
    | inl some_left ↦
        let fits : ltb c.max_bytes (c.bytes + b) ≡ false = ground arith in
        let under : c.bytes + b ≤ c.max_bytes = ground arith in
        omega (arith, v.counted, v.bytes_limit)
    | inr empty ↦
        let gone : L.len c.entries ≡ 0 = ground arith in
        omega (arith, empty_total (L.items c.entries) (sym (L.len-items c.entries) ∙ gone))
  ]

  -- With a round for each entry the loop ends by its test: the new body fits, or nothing is left.
  pub make_room_fits :
      (r : ℕ) (k : Text) (n b : ℕ) (c : MemoryCache.MemoryCache L)
      → IsReady r k c
      → b ≤ r
      → length (L.items c.entries) ≤ n
      → total entry_size (L.items (MemoryCache.make_room L n b c).entries) + b ≤ r
  unfolding MemoryCache.make_room
  make_room_fits r k zero b c h le z = omega (arith, empty_total (L.items c.entries) (omega arith))
  make_room_fits r k (suc n) b c h le z =
      let v = h.sound in
      let plus : add_i64 c.bytes b ≡ c.bytes + b = add_i64-lt c.bytes b (omega arith) in
      let test : lt_i64 c.max_bytes (add_i64 c.bytes b) ≡ ltb c.max_bytes (c.bytes + b) =
        rw plus (lt_i64-ltb _ _ (omega arith) (omega arith)) in
      elim (Bool-cases (ltb c.max_bytes (c.bytes + b) && ltb 0 (L.len c.entries))) [
        | inl e ↦
            rw (test, e)
              (make_room_fits r k n b (MemoryCache.evict_one L c) (evict_one-IsReady r k c h) le
                (omega (arith, length-evict_one c)))
        | inr e ↦ rw (test, e) (stopped r c v b le e)
      ]

  pub make_slot-IsReady :
      (r : ℕ) (k : Text) (c : MemoryCache.MemoryCache L)
      → IsReady r k c
      → IsReady r k (MemoryCache.make_slot L c)
  unfolding MemoryCache.make_slot
  make_slot-IsReady r k c h =
      elim (Bool-cases (leb c.max_keys (L.len c.entries) && ltb 0 (L.len c.entries))) [
        | inl e ↦ rw e (evict_one-IsReady r k c h)
        | inr e ↦ rw e h
      ]

  pub make_slot_free :
      (r : ℕ) (c : MemoryCache.MemoryCache L)
      → IsSound L r c
      → length (L.items (MemoryCache.make_slot L c).entries) < c.max_keys
  unfolding MemoryCache.make_slot
  make_slot_free r c v =
      elim (Bool-cases (leb c.max_keys (L.len c.entries) && ltb 0 (L.len c.entries))) [
        | inl e ↦
            rw e (ground (arith, length-evict_one c, L.len-items c.entries, v.keys_fit, v.keys_pos))
        | inr e ↦ rw e (ground (arith, L.len-items c.entries, v.keys_fit, v.keys_pos))
      ]

  pub make_slot_fits :
      (c : MemoryCache.MemoryCache L)
      → total entry_size (L.items (MemoryCache.make_slot L c).entries)
        ≤ total entry_size (L.items c.entries)
  unfolding MemoryCache.make_slot
  make_slot_fits c =
      elim (Bool-cases (leb c.max_keys (L.len c.entries) && ltb 0 (L.len c.entries))) [
        | inl e ↦ rw e (total-evict_one c)
        | inr e ↦ rw e (omega arith)
      ]

  pub make_slot-max_keys :
      (c : MemoryCache.MemoryCache L) → (MemoryCache.make_slot L c).max_keys ≡ c.max_keys
  unfolding MemoryCache.make_slot MemoryCache.evict_one
  make_slot-max_keys c = ground arith
