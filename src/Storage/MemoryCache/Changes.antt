-- ===== src/Storage/MemoryCache/Changes.antt =====
-- `Set` and `Shed` keep the accounts of the cache (internal/storage/memcache.go).
use lyrics_plus.Common.{
  ℕ, zero, suc, ◌+◌, ◌≤◌, ◌<◌, ◌^◌, ◌≡◌, refl, sym, ◌∙◌, true, false, none, some, List, [], ◌∷◌,
  ltb, ◌==◌, if◌then◌else◌, length, Bool-cases, Option-cases, inl, inr, lt_i64, lt_i64-ltb, add_i64,
  add_i64-lt, sub_i64, clamp_i64, clamp_i64-id, arith, ◌&&◌,
}
use lyrics_plus.Common.Text.{Text}
use lyrics_plus.Common.TextMaps.{lookup}
use lyrics_plus.Storage.Lru.{
  Lru, total, total-append, lookup-delete_self, length-append_one, Unique-append, lookup-append_new,
}
use lyrics_plus.Storage.MemoryCache
use lyrics_plus.Storage.MemoryCache.{CacheEntry, CacheConfig, entry_size, expired}
use lyrics_plus.Storage.MemoryCache.Accounting
use lyrics_plus.Storage.MemoryCache.Accounting.{IsSound}
use lyrics_plus.Storage.MemoryCache.Calls

-- The entry as `Set` stores it.
abbrev pub stamped : CacheEntry → ℕ → CacheEntry
stamped e now = if e.stored_at == 0 then record e { stored_at = now } else e

module _ (L : Lru CacheEntry) where
  drop_previous_absent :
      (c : MemoryCache.MemoryCache L) (k : Text)
      → lookup k (L.items (MemoryCache.drop_previous L c k).entries) ≡ none
  unfolding MemoryCache.drop_previous
  drop_previous_absent c k = elim (Option-cases (L.peek c.entries k)) [
    | inl e ↦ rw (e, MemoryCache.drop_previous) (sym (L.peek-value c.entries k) ∙ e)
    | inr (x, e) ↦
        rw (e, MemoryCache.drop_previous) (rw (L.remove-items c.entries k) (lookup-delete_self k _))
  ]

  -- The last step of `Set`, for a cache with room.
  store :
      (r : ℕ) (k : Text) (c : MemoryCache.MemoryCache L) (e : CacheEntry)
      → Calls.IsReady L r k c
      → total entry_size (L.items c.entries) + entry_size e ≤ r
      → length (L.items c.entries) < c.max_keys
      → IsSound L r (record c {
        entries = L.add c.entries k e;
        bytes = add_i64 (clamp_i64 c.bytes) (entry_size e);
      })
        × (lookup k (L.items (L.add c.entries k e)) ≡ some e)
  store r k c e h fits free =
      let v = h.sound in
      let items' = L.add-items c.entries k e h.absent (rw v.sized free) in
      let sum = total-append entry_size (L.items c.entries) ((k, e) ∷ []) in
      let one : total entry_size ((k, e) ∷ []) ≡ entry_size e + 0 = unfold total in refl in
      let kept = clamp_i64-id c.bytes (omega arith) in
      (
        record {
          unique = rw items' (Unique-append k e _ v.unique h.absent);
          counted =
              rw (items', kept) (add_i64-lt c.bytes (entry_size e) (omega arith) ∙ omega arith);
          sized = L.add-size c.entries k e ∙ v.sized;
          keys_fit = rw items' (omega (arith, length-append_one (L.items c.entries) (k, e)));
          bytes_fit = rw items' (omega arith);
          keys_pos = v.keys_pos;
          bytes_pos = v.bytes_pos;
          bytes_limit = v.bytes_limit;
          body_pos = v.body_pos;
          body_limit = v.body_limit;
          small = v.small;
        },
        rw items' (lookup-append_new k e _ h.absent),
      )

  -- The state just before the entry is added.
  abbrev with_room : MemoryCache.MemoryCache L → Text → ℕ → MemoryCache.MemoryCache L
  with_room c k b =
      let c1 = MemoryCache.drop_previous L c k in
      MemoryCache.make_slot L (MemoryCache.make_room L (L.len c1.entries) b c1)

  insert_entry-with_room :
      (r : ℕ) (c : MemoryCache.MemoryCache L) (k : Text) (e : CacheEntry) (b : ℕ)
      → IsSound L r c
      → MemoryCache.insert_entry L c k e b ≡ record (with_room c k b) {
        entries = L.add (with_room c k b).entries k e;
        bytes = add_i64 (clamp_i64 (with_room c k b).bytes) b;
      }
  unfolding MemoryCache.insert_entry
  insert_entry-with_room r c k e b v =
      let v1 = Accounting.drop_previous-IsSound L r c v k in
      let pos : lt_i64 0 (MemoryCache.drop_previous L c k).max_bytes ≡ true =
        lt_i64-ltb 0 _ (omega arith) (omega arith) ∙ ground (arith, v1.bytes_pos) in
      rw pos

  insert_entry-IsSound :
      (r : ℕ) (c : MemoryCache.MemoryCache L) (k : Text) (e : CacheEntry)
      → IsSound L r c
      → entry_size e ≤ r
      → IsSound L r (MemoryCache.insert_entry L c k e (entry_size e))
        × (lookup k (L.items (MemoryCache.insert_entry L c k e (entry_size e)).entries) ≡ some e)
  insert_entry-IsSound r c k e v le =
      let b = entry_size e in
      let c1 = MemoryCache.drop_previous L c k in
      let h1 : Calls.IsReady L r k c1 = record {
        sound = Accounting.drop_previous-IsSound L r c v k;
        absent = drop_previous_absent c k;
      } in
      let c2 = MemoryCache.make_room L (L.len c1.entries) b c1 in
      let h2 = Calls.make_room-IsReady L r k (L.len c1.entries) b c1 h1 in
      let f2 =
        Calls.make_room_fits L r k (L.len c1.entries) b c1 h1 le
          (omega (arith, L.len-items c1.entries)) in
      let h3 = Calls.make_slot-IsReady L r k c2 h2 in
      rw (insert_entry-with_room r c k e b v) (
        store r k (MemoryCache.make_slot L c2) e h3 (omega (arith, Calls.make_slot_fits L c2))
          (rw (Calls.make_slot-max_keys L c2) (Calls.make_slot_free L r c2 h2.sound)))

  entry_size-stamped : (e : CacheEntry) (now : ℕ) → entry_size (stamped e now) ≡ entry_size e
  unfolding entry_size
  entry_size-stamped e now = ground arith

  insert_stamped :
      (r : ℕ) (c : MemoryCache.MemoryCache L) (k : Text) (e : CacheEntry) (now : ℕ)
      → IsSound L r c
      → entry_size e ≤ r
      → IsSound L r (MemoryCache.insert_entry L c k (stamped e now) (entry_size e))
        × (lookup k
              (L.items (MemoryCache.insert_entry L c k (stamped e now) (entry_size e)).entries)
            ≡ some (stamped e now))
  insert_stamped r c k e now v le =
      let s = entry_size-stamped e now in
      rw s at (insert_entry-IsSound r c k (stamped e now) v (rw s le))

  -- Whether `Set` takes an entry.
  test_body :
      (r : ℕ) (c : MemoryCache.MemoryCache L) (b : ℕ)
      → IsSound L r c
      → b < 2 ^ 63
      → (lt_i64 0 c.max_body && lt_i64 c.max_body b) ≡ ltb c.max_body b
  test_body r c b v h =
      let p : lt_i64 0 c.max_body ≡ true =
        lt_i64-ltb 0 c.max_body (omega arith) (omega arith) ∙ ground (arith, v.body_pos) in
      rw (p, lt_i64-ltb c.max_body b (omega arith) h)

  pub set_entry-IsSound :
      (r : ℕ) (c : MemoryCache.MemoryCache L) (k : Text) (e : CacheEntry) (now : ℕ)
      → IsSound L r c
      → entry_size e < 2 ^ 63
      → IsSound L r (MemoryCache.set_entry L c k e now)
  unfolding MemoryCache.set_entry
  set_entry-IsSound r c k e now v h = elim (Bool-cases (ltb c.max_body (entry_size e))) [
    | inl big ↦ rw (test_body r c (entry_size e) v h, big) v
    | inr fits ↦
        rw (test_body r c (entry_size e) v h, fits)
          (insert_stamped r c k e now v (ground (arith, v.body_limit))).0
  ]

  pub set_entry-lookup :
      (r : ℕ) (c : MemoryCache.MemoryCache L) (k : Text) (e : CacheEntry) (now : ℕ)
      → IsSound L r c
      → entry_size e ≤ c.max_body
      → lookup k (L.items (MemoryCache.set_entry L c k e now).entries) ≡ some (stamped e now)
  unfolding MemoryCache.set_entry
  set_entry-lookup r c k e now v h =
      let fits : ltb c.max_body (entry_size e) ≡ false = ground arith in
      rw (test_body r c (entry_size e) v (omega (arith, v.body_limit, v.small)), fits)
        (insert_stamped r c k e now v (omega (arith, v.body_limit))).1

  drop_expired-IsSound :
      (r : ℕ) (c : MemoryCache.MemoryCache L) (ks : List Text) (now : ℕ)
      → IsSound L r c
      → IsSound L r (MemoryCache.drop_expired L c ks now)
  unfolding MemoryCache.drop_expired
  drop_expired-IsSound r c [] now v = v
  drop_expired-IsSound r c (k ∷ ks) now v = elim (Option-cases (L.peek c.entries k)) [
    | inl e ↦ rw e (drop_expired-IsSound r c ks now v)
    | inr (x, e) ↦ rw e (elim (Bool-cases (expired x now)) [
      | inl old ↦ rw old (
          drop_expired-IsSound r
            (record c { entries = L.remove c.entries k; bytes = sub_i64 c.bytes (entry_size x) }) ks
            now (Accounting.remove-IsSound L r c v k x (sym (L.peek-value c.entries k) ∙ e)))
      | inr fresh ↦ rw fresh (drop_expired-IsSound r c ks now v)
    ])
  ]

  evict_many-IsSound :
      (r n : ℕ) (c : MemoryCache.MemoryCache L)
      → IsSound L r c
      → IsSound L r (MemoryCache.evict_many L n c)
  unfolding MemoryCache.evict_many
  evict_many-IsSound r zero c v = v
  evict_many-IsSound r (suc n) c v =
      evict_many-IsSound r n (MemoryCache.evict_one L c) (Accounting.evict_one-IsSound L r c v)

  clamp-IsSound :
      (r : ℕ) (c : MemoryCache.MemoryCache L)
      → IsSound L r c
      → IsSound L r (record c { bytes = clamp_i64 c.bytes })
  clamp-IsSound r c v = rw (clamp_i64-id c.bytes (omega arith)) v

  pub shed-IsSound :
      (r : ℕ) (c : MemoryCache.MemoryCache L) (now : ℕ)
      → IsSound L r c
      → IsSound L r (MemoryCache.shed L c now)
  unfolding MemoryCache.shed
  shed-IsSound r c now v =
      clamp-IsSound r _
        (evict_many-IsSound r _ _ (drop_expired-IsSound r c (L.keys c.entries) now v))
