-- ===== src/Storage/MemoryCache/Accounting.antt =====
-- The byte count of the cache (internal/storage/memcache.go) is that of its entries.
use lyrics_plus.Common.{
  ℕ, ◌+◌, ◌-◌, ◌≤◌, ◌<◌, ◌^◌, ◌≡◌, refl, sym, ◌∙◌, none, some, [], ◌∷◌, length, Bool-cases,
  Option-cases, inl, inr, sub_i64, sub_i64-le, clamp_i64, clamp_i64-id, arith,
}
use lyrics_plus.Common.Text.{Text}
use lyrics_plus.Common.TextMaps.{Dict, lookup}
use lyrics_plus.Storage.Lru.{
  Lru, Unique, without_oldest, oldest, total, total-delete, Unique-delete, length-delete,
  touch-total, touch-Unique, length-touch, without_oldest-Unique, lookup-touch,
}
use lyrics_plus.Storage.MemoryCache
use lyrics_plus.Storage.MemoryCache.{CacheEntry, entry_size, expired}

module _ (L : Lru CacheEntry) where
  -- The entries and the byte count agree, within the limits of the cache. `room` bounds the bytes.
  pub record IsSound (room : ℕ) (c : MemoryCache.MemoryCache L) : Type 0 where
    pub unique : Unique (L.items c.entries)
    pub counted : c.bytes ≡ total entry_size (L.items c.entries)
    pub sized : L.size c.entries ≡ c.max_keys
    pub keys_fit : length (L.items c.entries) ≤ c.max_keys
    pub bytes_fit : total entry_size (L.items c.entries) ≤ room
    pub keys_pos : 0 < c.max_keys
    pub bytes_pos : 0 < c.max_bytes
    pub bytes_limit : c.max_bytes ≤ room
    pub body_pos : 0 < c.max_body
    pub body_limit : c.max_body ≤ room
    pub small : room < 2 ^ 62

  oldest-total :
      (m : Dict CacheEntry) (v : CacheEntry)
      → oldest m ≡ some v
      → entry_size v + total entry_size (without_oldest m) ≡ total entry_size m
  unfolding oldest without_oldest total
  oldest-total [] v h = absurd (ground arith)
  oldest-total ((k, w) ∷ m) v h = ground arith

  oldest-none : (m : Dict CacheEntry) → oldest m ≡ none → without_oldest m ≡ m
  unfolding oldest without_oldest
  oldest-none [] h = refl
  oldest-none ((k, w) ∷ m) h = absurd (ground arith)

  pub length-without_oldest : (m : Dict CacheEntry) → length (without_oldest m) ≡ length m - 1
  unfolding without_oldest
  length-without_oldest [] = omega arith
  length-without_oldest (e ∷ m) = omega arith

  -- New entries and a new byte count that agree.
  rebook :
      (r : ℕ) (c : MemoryCache.MemoryCache L) (lru : L.Cache) (b : ℕ)
      → IsSound r c
      → Unique (L.items lru)
      → L.size lru ≡ L.size c.entries
      → b ≡ total entry_size (L.items lru)
      → length (L.items lru) ≤ length (L.items c.entries)
      → total entry_size (L.items lru) ≤ total entry_size (L.items c.entries)
      → IsSound r (record c { entries = lru; bytes = b })
  rebook r c lru b v u z e l t = record {
    unique = u;
    counted = e;
    sized = z ∙ v.sized;
    keys_fit = omega arith;
    bytes_fit = omega arith;
    keys_pos = v.keys_pos;
    bytes_pos = v.bytes_pos;
    bytes_limit = v.bytes_limit;
    body_pos = v.body_pos;
    body_limit = v.body_limit;
    small = v.small;
  }

  module _ (r : ℕ) (c : MemoryCache.MemoryCache L) (v : IsSound r c) where
    pub evict_one-IsSound : IsSound r (MemoryCache.evict_one L c)
    unfolding MemoryCache.evict_one
    evict_one-IsSound = elim (Option-cases (oldest (L.items c.entries))) [
      | inl e ↦
          let same = L.remove_oldest-items c.entries ∙ oldest-none _ e in
          rw (L.remove_oldest-value c.entries, e)
            (rebook r c _ c.bytes v (rw same v.unique) (L.remove_oldest-size c.entries)
              (rw same v.counted) (rw same (omega arith)) (rw same (omega arith)))
      | inr (x, e) ↦
          let items' = L.remove_oldest-items c.entries in
          let t = oldest-total (L.items c.entries) x e in
          rw (L.remove_oldest-value c.entries, e)
            (rebook r c _ _ v (rw items' (without_oldest-Unique _ v.unique))
              (L.remove_oldest-size c.entries)
              (rw items'
                (sub_i64-le c.bytes (entry_size x) (omega arith) (omega arith) ∙ omega arith))
              (rw items' (omega (arith, length-without_oldest (L.items c.entries))))
              (rw items' (omega arith)))
    ]

    -- A removal of an entry that is there, with its size taken off.
    pub remove-IsSound :
        (k : Text) (x : CacheEntry)
        → lookup k (L.items c.entries) ≡ some x
        → IsSound r
            (record c { entries = L.remove c.entries k; bytes = sub_i64 c.bytes (entry_size x) })
    remove-IsSound k x h =
        let items' = L.remove-items c.entries k in
        let t = total-delete entry_size k x (L.items c.entries) v.unique h in
        rebook r c _ _ v (rw items' (Unique-delete k _ v.unique)) (L.remove-size c.entries k)
          (rw items' (sub_i64-le c.bytes (entry_size x) (omega arith) (omega arith) ∙ omega arith))
          (rw items' (length-delete k _)) (rw items' (omega arith))

    clamp_removed :
        (k : Text) (x : CacheEntry)
        → lookup k (L.items c.entries) ≡ some x
        → clamp_i64 (sub_i64 c.bytes (entry_size x)) ≡ sub_i64 c.bytes (entry_size x)
    clamp_removed k x h =
        let t = total-delete entry_size k x (L.items c.entries) v.unique h in
        clamp_i64-id _
          (omega (arith, sub_i64-le c.bytes (entry_size x) (omega arith) (omega arith)))

    touch-IsSound : (k : Text) → IsSound r (record c { entries = (L.get c.entries k).0 })
    touch-IsSound k =
        let items' = L.get-items c.entries k in
        let t = touch-total entry_size k (L.items c.entries) v.unique in
        rebook r c _ c.bytes v (rw items' (touch-Unique k _ v.unique)) (L.get-size c.entries k)
          (rw (items', t) v.counted) (rw items' (length-touch k _)) (rw (items', t) (omega arith))

  module _ (r : ℕ) (c : MemoryCache.MemoryCache L) (v : IsSound r c) where
    -- Looking an entry up keeps the books, also when the entry has expired and is removed.
    pub get_entry-IsSound : (k : Text) (now : ℕ) → IsSound r (MemoryCache.get_entry L c k now).0
    unfolding MemoryCache.get_entry
    get_entry-IsSound k now =
        let lru = (L.get c.entries k).0 in
        let c' : MemoryCache.MemoryCache L = record c { entries = lru } in
        let v' : IsSound r c' = touch-IsSound r c v k in
        elim (Option-cases (L.get c.entries k).1) [
          | inl e ↦ rw (e, MemoryCache.get_entry) v'
          | inr (x, e) ↦
              rw (e, MemoryCache.get_entry)
                (elim (Bool-cases (expired x now)) [
                  | inr fresh ↦ rw fresh v'
                  | inl old ↦
                      let h : lookup k (L.items lru) ≡ some x =
                        rw (L.get-items c.entries k)
                          (lookup-touch k _ ∙ sym (L.get-value c.entries k) ∙ e) in
                      rw (old, clamp_removed r c' v' k x h) (remove-IsSound r c' v' k x h)
                ])
        ]

    pub drop_previous-IsSound : (k : Text) → IsSound r (MemoryCache.drop_previous L c k)
    unfolding MemoryCache.drop_previous
    drop_previous-IsSound k = elim (Option-cases (L.peek c.entries k)) [
      | inl e ↦ rw (e, MemoryCache.drop_previous) v
      | inr (x, e) ↦
          rw (e, MemoryCache.drop_previous)
            (remove-IsSound r c v k x (sym (L.peek-value c.entries k) ∙ e))
    ]
