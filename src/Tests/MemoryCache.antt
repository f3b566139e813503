-- ===== src/Tests/MemoryCache.antt =====
-- A cache that keeps its entries in a list, and the witnesses for internal/storage/memcache.go.
use lyrics_plus.Common.{
  ℕ, ◌<◌, ◌≤◌, ◌≡◌, refl, true, none, some, List, [], ◌∷◌, ◌++◌, map, if◌then◌else◌, ltb, length,
  arith, ◌^◌, All, positive_or, lt_i64, add_i64, sub_i64, clamp_i64, Option-cases, inl, inr,
}
use lyrics_plus.Common.Text.{Text, text_eq, codes}
use lyrics_plus.Common.TextMaps.{Dict, lookup, delete}
use lyrics_plus.Storage.Lru.{Lru, touch, without_oldest, oldest, Unique, total}
use lyrics_plus.Storage.MemoryCache
use lyrics_plus.Storage.MemoryCache.{CacheEntry, nothing, CacheConfig, entry_size, expired}
use lyrics_plus.Storage.MemoryCache.Changes.{stamped}
use lyrics_plus.Storage.MemoryCache.Runs.{
  Call, step, IsSized, gets, sets, sheds, run, run_accounts, get_entry-set_entry, byte_room,
}

pub record Listed : Type 0 where
  pub listed : Dict CacheEntry
  pub bound : ℕ

-- `Add` of a new key, the oldest entry dropped at the bound.
abbrev pub add_new : Listed → Text → CacheEntry → Listed
add_new c k v =
    if ltb (length c.listed) c.bound
    then record c { listed = c.listed ++ ((k, v) ∷ []) }
    else record c { listed = without_oldest c.listed ++ ((k, v) ∷ []) }

pub add_new-listed :
    (c : Listed) (k : Text) (v : CacheEntry)
    → length c.listed < c.bound
    → (add_new c k v).listed ≡ c.listed ++ ((k, v) ∷ [])
add_new-listed c k v h = let e : ltb (length c.listed) c.bound ≡ true = ground arith in rw e

pub add_new-bound : (c : Listed) (k : Text) (v : CacheEntry) → (add_new c k v).bound ≡ c.bound
add_new-bound c k v = ground arith

abbrev pub in_list : Lru CacheEntry
in_list = record {
  Cache = Listed;
  new = λ n. record { listed = []; bound = n };
  get = λ c k. (record c { listed = touch k c.listed }, lookup k c.listed);
  peek = λ c k. lookup k c.listed;
  remove = λ c k. record c { listed = delete k c.listed };
  remove_oldest = λ c. (record c { listed = without_oldest c.listed }, oldest c.listed);
  add = λ c k v. elim (lookup k c.listed) [
    | none ↦ add_new c k v
    | some w ↦ record c { listed = delete k c.listed ++ ((k, v) ∷ []) }
  ];
  len = λ c. length c.listed;
  keys = λ c. map (λ e. e.0) c.listed;
  items = λ c. c.listed;
  size = λ c. c.bound;
  items-new = λ n. refl;
  size-new = λ n. refl;
  get-value = λ c k. refl;
  get-items = λ c k. refl;
  get-size = λ c k. refl;
  peek-value = λ c k. refl;
  remove-items = λ c k. refl;
  remove-size = λ c k. refl;
  remove_oldest-items = λ c. refl;
  remove_oldest-value = λ c. refl;
  remove_oldest-size = λ c. refl;
  add-items = λ c k v absent free. rw absent (add_new-listed c k v free);
  add-size = λ c k v. elim (Option-cases (lookup k c.listed)) [
    | inl e ↦ rw e (add_new-bound c k v)
    | inr (w, e) ↦ rw e
  ];
  len-items = λ c. refl;
  keys-items = λ c. refl;
}

abbrev limits : CacheConfig
limits = record { max_entries = 2; max_bytes = 10; max_body_bytes = 6 }

abbrev sized : ℕ → ℕ → CacheEntry
sized n at = record { body = []; parsed = nothing; status = 200; size = n; stored_at = at; ttl = 5 }

unfoldable pub program : Unit {0}
unfolding run step MemoryCache.new_memory_cache MemoryCache.get_entry MemoryCache.set_entry
    MemoryCache.shed MemoryCache.insert_entry MemoryCache.drop_previous MemoryCache.evict_one
    MemoryCache.make_room MemoryCache.make_slot MemoryCache.drop_expired MemoryCache.evict_many
    entry_size expired positive_or lt_i64 add_i64 sub_i64 clamp_i64 touch without_oldest oldest
    lookup delete text_eq
program = tt

-- Two entries, a third that takes the place of the first, a lookup, a shed and one more.
abbrev calls : List Call
calls =
    sets (codes "a") (sized 4 1) 1
    ∷ sets (codes "b") (sized 5 1) 1
    ∷ sets (codes "c") (sized 3 2) 2
    ∷ gets (codes "b") 3
    ∷ sheds 7
    ∷ sets (codes "e") (sized 2 8) 8
    ∷ []

run-calls : (run in_list (MemoryCache.new_memory_cache in_list limits) calls).bytes ≡ 2
unfolding program
run-calls = refl

room_limit : byte_room limits < 2 ^ 62
unfolding positive_or lt_i64
room_limit = omega arith

calls-IsSized : All IsSized calls
unfolding entry_size positive_or lt_i64
calls-IsSized = (omega arith, (omega arith, (omega arith, (tt, (tt, (omega arith, tt))))))

run_accounts_example :
    let c = run in_list (MemoryCache.new_memory_cache in_list limits) calls in
    (c.bytes ≡ total entry_size c.entries.listed)
    × Unique c.entries.listed
    × (MemoryCache.count in_list c ≤ c.max_keys)
    × (c.bytes ≤ byte_room limits)
run_accounts_example = run_accounts in_list limits calls room_limit calls-IsSized

fits :
    entry_size (sized 6 9)
    ≤ (run in_list (MemoryCache.new_memory_cache in_list limits) calls).max_body
unfolding program
fits = omega arith

get_entry-set_entry_example :
    (MemoryCache.get_entry in_list
      (MemoryCache.set_entry in_list
        (run in_list (MemoryCache.new_memory_cache in_list limits) calls)
        (codes "d")
        (sized 6 9)
        9)
      (codes "d")
      10).1
    ≡ (if expired (stamped (sized 6 9) 9) 10 then none else some (stamped (sized 6 9) 9))
get_entry-set_entry_example =
    get_entry-set_entry in_list limits calls (codes "d") (sized 6 9) 9 10 room_limit calls-IsSized
      fits
