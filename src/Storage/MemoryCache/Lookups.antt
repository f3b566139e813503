-- ===== src/Storage/MemoryCache/Lookups.antt =====
-- What a lookup of the cache (internal/storage/memcache.go) finds, and what it leaves to the others.
use lyrics_plus.Common.{
  ℕ, ◌≤◌, ◌≡◌, refl, ◌∙◌, false, Option, none, some, if◌then◌else◌, Bool-cases, Option-cases, inl,
  inr,
}
use lyrics_plus.Common.Text.{Text, text_eq}
use lyrics_plus.Common.TextMaps.{lookup, lookup-delete}
use lyrics_plus.Storage.Lru.{Lru, lookup-touch_other}
use lyrics_plus.Storage.MemoryCache
use lyrics_plus.Storage.MemoryCache.{CacheEntry, entry_size, expired}
use lyrics_plus.Storage.MemoryCache.Accounting.{IsSound}
use lyrics_plus.Storage.MemoryCache.Changes
use lyrics_plus.Storage.MemoryCache.Changes.{stamped}

abbrev pub unexpired : ℕ → Option CacheEntry → Option CacheEntry
unexpired now none = none
unexpired now (some e) = if expired e now then none else some e

module _ (L : Lru CacheEntry) where
  pub get_entry-found :
      (c : MemoryCache.MemoryCache L) (k : Text) (now : ℕ)
      → (MemoryCache.get_entry L c k now).1 ≡ unexpired now (lookup k (L.items c.entries))
  unfolding MemoryCache.get_entry
  get_entry-found c k now =
      rw (L.get-value c.entries k, MemoryCache.get_entry)
        (elim (Option-cases (lookup k (L.items c.entries))) [
          | inl e ↦ rw e refl
          | inr (x, e) ↦ rw e (elim (Bool-cases (expired x now)) [
            | inl old ↦ rw old refl
            | inr fresh ↦ rw fresh refl
          ])
        ])

  pub get_entry-max_body :
      (c : MemoryCache.MemoryCache L) (k : Text) (now : ℕ)
      → (MemoryCache.get_entry L c k now).0.max_body ≡ c.max_body
  unfolding MemoryCache.get_entry
  get_entry-max_body c k now = elim (Option-cases (L.get c.entries k).1) [
    | inl e ↦ rw (e, MemoryCache.get_entry) refl
    | inr (x, e) ↦
        rw (e, MemoryCache.get_entry)
          (elim (Bool-cases (expired x now)) [ inl old ↦ rw old refl | inr fresh ↦ rw fresh refl ])
  ]

  -- A lookup of one key leaves the entry of another one where it is.
  pub get_entry-other :
      (c : MemoryCache.MemoryCache L) (j k : Text) (now : ℕ)
      → text_eq j k ≡ false
      → lookup k (L.items (MemoryCache.get_entry L c j now).0.entries)
        ≡ lookup k (L.items c.entries)
  unfolding MemoryCache.get_entry
  get_entry-other c j k now differ =
      let lru = (L.get c.entries j).0 in
      let touched : lookup k (L.items lru) ≡ lookup k (L.items c.entries) =
        rw (L.get-items c.entries j) (lookup-touch_other j k (L.items c.entries) differ) in
      elim (Option-cases (L.get c.entries j).1) [
        | inl e ↦ rw (e, MemoryCache.get_entry) touched
        | inr (x, e) ↦
            rw (e, MemoryCache.get_entry)
              (elim (Bool-cases (expired x now)) [
                | inl old ↦
                    rw (old, L.remove-items lru j)
                      (rw (lookup-delete j k (L.items lru), differ) touched)
                | inr fresh ↦ rw fresh touched
              ])
      ]

  -- The entry of a key that was just set, also when another key was looked up in between.
  pub get_entry-after_set :
      (r : ℕ) (c : MemoryCache.MemoryCache L) (k : Text) (e : CacheEntry) (now later : ℕ)
      → IsSound L r c
      → entry_size e ≤ c.max_body
      → expired (stamped e now) later ≡ false
      → (MemoryCache.get_entry L (MemoryCache.set_entry L c k e now) k later).1
        ≡ some (stamped e now)
  get_entry-after_set r c k e now later v le fresh =
      get_entry-found (MemoryCache.set_entry L c k e now) k later
      ∙ rw (Changes.set_entry-lookup L r c k e now v le, fresh) refl

  pub get_entry-after_get :
      (c : MemoryCache.MemoryCache L) (j k : Text) (now : ℕ)
      → text_eq j k ≡ false
      → (MemoryCache.get_entry L (MemoryCache.get_entry L c j now).0 k now).1
        ≡ (MemoryCache.get_entry L c k now).1
  get_entry-after_get c j k now differ =
      rw
        (
          get_entry-found (MemoryCache.get_entry L c j now).0 k now,
          get_entry-other c j k now differ,
          get_entry-found c k now,
        )
        refl
