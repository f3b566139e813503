-- ===== src/Api/Limit/Entries.antt =====
-- What a request does to the entry of one client (internal/api/middleware/middleware.go): a relation
-- that the pruning and the answering of an entry keep is kept by the whole limiter.
use lyrics_plus.Common.{
  ℕ, ◌-◌, ◌*◌, ◌%◌, ◌≡◌, refl, sym, subst, ap, Bool, true, false, not, ◌&&◌, Option, some, inl, inr,
  ltb, ◌==◌, if◌then◌else◌, Bool-cases, arith,
}
use lyrics_plus.Common.Text.{Text, text_eq, text_eq_iff}
use lyrics_plus.Api.Client.{Request, is_health_path, client_ip}
use lyrics_plus.Api.Limit.{
  IpEntry, Shard, RateLimiter, Reading, num_shards, fnv32, prune_entry, prune, allow_entry,
  allow_shard, allow, Reply, served, too_many_requests, reply_of, rate_limit,
}

-- The entry of a key.
abbrev pub entry_of : RateLimiter → Text → Option IpEntry
entry_of l key = (l.shards (fnv32 key % num_shards)).per_ip key

abbrev pub once : Bool → ℕ
once b = if b then 1 else 0

abbrev pub is_served : Reply → Bool
is_served served = true
is_served (too_many_requests remaining) = false

-- A request of the client that is served; those to the health paths do not count.
abbrev pub counts : (Text → Option Text) → Text → Request → Reply → Bool
counts split ip r reply =
    not (is_health_path r) && (text_eq ip (client_ip split r) && is_served reply)

is_served-reply_of : (a : Text × Bool) → is_served (reply_of a) ≡ a.1
unfolding reply_of
is_served-reply_of (remaining, true) = refl
is_served-reply_of (remaining, false) = refl

-- The limits of a limiter do not change.
pub rate_limit-window :
    (split : Text → Option Text) (l : RateLimiter) (r : Request) (now : Reading)
    → ((rate_limit split l r now).0.window ≡ l.window)
      × ((rate_limit split l r now).0.most ≡ l.most)
unfolding rate_limit allow
rate_limit-window split l r now = elim (Bool-cases (is_health_path r)) [
  | inl h ↦ rw (h, rate_limit) (refl, refl)
  | inr h ↦ rw (h, rate_limit) (refl, refl)
]

-- `R o o' n`: from the entry `o` to `o'`, with `n` calls let through.
module _ (R : Option IpEntry → Option IpEntry → ℕ → Type 0) (l : RateLimiter) (now : Reading)
    (same : (o : Option IpEntry) → R o o 0)
    (join : (o o1 o2 : Option IpEntry) (n : ℕ) → R o o1 0 → R o1 o2 n → R o o2 n)
    (pruned : (o : Option IpEntry) → R o (prune_entry (now.wall - l.window * 2) o) 0)
    (answered : (o : Option IpEntry)
      → let (e, (text, ok)) = allow_entry l.window l.most now.wall o in
        R o (some e) (once ok)) where
  prune_keeps : (s : Shard) (k : Text) → R (s.per_ip k) ((prune l.window now s).per_ip k) 0
  unfolding prune
  prune_keeps s k = elim (Bool-cases (ltb (l.window * 2) (now.mono - s.last_prune))) [
    | inl due ↦ rw (due, prune) (pruned (s.per_ip k))
    | inr early ↦ rw (early, prune) (same (s.per_ip k))
  ]

  allow_shard_keeps :
      (s : Shard) (key k : Text)
      → let (s', (text, ok)) = allow_shard l.window l.most s key now in
        R (s.per_ip k) (s'.per_ip k) (once (text_eq k key && ok))
  unfolding allow_shard
  allow_shard_keeps s key k =
      let s1 = prune l.window now s in
      let (entry, (text, ok)) = allow_entry l.window l.most now.wall (s1.per_ip key) in
      elim (Bool-cases (text_eq k key)) [
        | inl equal ↦
            let at : s1.per_ip key ≡ s1.per_ip k =
              ap s1.per_ip (sym ((text_eq_iff k key).0 equal)) in
            let used : R (s1.per_ip k) (some entry) (once ok) =
              subst (λ o. R o (some entry) (once ok)) at (answered (s1.per_ip key)) in
            rw (equal, allow_shard)
              (join (s.per_ip k) (s1.per_ip k) (some entry) (once ok) (prune_keeps s k) used)
        | inr other ↦ rw (other, allow_shard) (prune_keeps s k)
      ]

  shard_keeps :
      (s s' : Shard) (k : Text) (equal ok hit : Bool)
      → (hit ≡ true → R (s.per_ip k) (s'.per_ip k) (once (equal && ok)))
      → (hit ≡ false → equal ≡ false)
      → R (s.per_ip k) ((if hit then s' else s).per_ip k) (once (equal && ok))
  shard_keeps s s' k equal ok true kept other = kept refl
  shard_keeps s s' k equal ok false kept other = rw (other refl) (same (s.per_ip k))

  allow_keeps :
      (key k : Text)
      → let (l', (text, ok)) = allow l key now in
        R (entry_of l k) (entry_of l' k) (once (text_eq k key && ok))
  unfolding allow
  allow_keeps key k =
      let i = fnv32 k % num_shards in
      let idx = fnv32 key % num_shards in
      let (shard, (text, ok)) = allow_shard l.window l.most (l.shards idx) key now in
      shard_keeps (l.shards i) shard k (text_eq k key) ok (i == idx)
        (λ hit.
          let at : idx ≡ i = ground arith in
          subst (λ j. R ((l.shards j).per_ip k) (shard.per_ip k) (once (text_eq k key && ok))) at
            (allow_shard_keeps (l.shards idx) key k))
        (λ apart. elim (Bool-cases (text_eq k key)) [
          | inl equal ↦
              let at : i ≡ idx = ap (λ x. fnv32 x % num_shards) ((text_eq_iff k key).0 equal) in
              absurd (ground arith)
          | inr other ↦ other
        ])

  either_keeps :
      (l' : RateLimiter) (a : Text × Bool) (ip : Text) (equal health : Bool)
      → R (entry_of l ip) (entry_of l' ip) (once (equal && a.1))
      → let (l'', reply) : RateLimiter × Reply = if health then (l, served) else (l', reply_of a) in
        R (entry_of l ip) (entry_of l'' ip) (once (not health && (equal && is_served reply)))
  either_keeps l' a ip equal true kept = same (entry_of l ip)
  either_keeps l' a ip equal false kept = rw (is_served-reply_of a) kept

  pub rate_limit_keeps :
      (split : Text → Option Text) (r : Request) (ip : Text)
      → let (l', reply) = rate_limit split l r now in
        R (entry_of l ip) (entry_of l' ip) (once (counts split ip r reply))
  unfolding rate_limit
  rate_limit_keeps split r ip =
      let (l', a) = allow l (client_ip split r) now in
      either_keeps l' a ip (text_eq ip (client_ip split r)) (is_health_path r)
        (allow_keeps (client_ip split r) ip)
