-- ===== src/Api/Limit.antt =====
-- internal/api/middleware/middleware.go: the rate limiter per client. A shard's map is a function,
-- so is the array of shards. Readings of the clock are nanoseconds; a call has one of the monotonic
-- clock and one of the wall clock. The copy of a shard's map into a smaller one keeps what it holds,
-- and is left out. `Seconds()` is a whole division; the source goes through a float64, which makes
-- no difference below 2 ^ 23 seconds.
pub mod Entries
pub mod Retry
pub mod Window
use Prim.Native.Nat.{bit_xor}
use lyrics_plus.Common.{
  ℕ, ◌+◌, ◌-◌, ◌*◌, ◌/◌, ◌%◌, ◌^◌, Bool, true, false, Option, none, some, List, [], ◌∷◌, ltb, leb,
  ◌==◌, if◌then◌else◌, max,
}
use lyrics_plus.Common.Text.{Text, codes, text_eq}
use lyrics_plus.Common.Decimal.{itoa}
use lyrics_plus.Api.Client.{Request, is_health_path, client_ip}

abbrev pub num_shards : ℕ
num_shards = 64

pub record IpEntry : Type 0 where
  pub window_start : ℕ
  pub seen : ℕ
  pub last : ℕ

pub record Shard : Type 0 where
  pub per_ip : Text → Option IpEntry
  pub last_prune : ℕ

pub record RateLimiter : Type 0 where
  pub window : ℕ
  pub most : ℕ
  pub shards : ℕ → Shard

-- A time of a call: the monotonic reading and the wall clock's.
pub record Reading : Type 0 where
  pub mono : ℕ
  pub wall : ℕ

-- `hash ^= uint32(key[i]); hash *= 16777619`
unfoldable pub fnv_from : ℕ → Text → ℕ
fnv_from hash [] = hash
fnv_from hash (c ∷ key) = fnv_from (bit_xor hash c * 16777619 % 2 ^ 32) key

unfoldable pub fnv32 : Text → ℕ
unfolding fnv_from
fnv32 key = fnv_from 2166136261 key

unfoldable pub new_sharded_rate_limiter : ℕ → ℕ → Reading → RateLimiter
new_sharded_rate_limiter most window now = record {
  window = if leb window 0 then 10 * 10 ^ 9 else window;
  most = most;
  shards = λ i. record { per_ip = λ key. none; last_prune = now.mono };
}

-- One entry under `e.last < pruneAfter`.
unfoldable pub prune_entry : ℕ → Option IpEntry → Option IpEntry
prune_entry prune_after none = none
prune_entry prune_after (some e) = if ltb e.last prune_after then none else some e

unfoldable pub prune : ℕ → Reading → Shard → Shard
prune window now s =
    if ltb (window * 2) (now.mono - s.last_prune)
    then record {
      per_ip = λ key. prune_entry (now.wall - window * 2) (s.per_ip key);
      last_prune = now.mono;
    }
    else s

-- The seconds that a refused call is told to wait.
unfoldable pub retry_secs : ℕ → IpEntry → ℕ → ℕ
retry_secs window e now = max ((window + e.window_start - now) / 10 ^ 9) 1

-- What becomes of a key's entry, the text of the answer and whether the call is let through.
unfoldable pub allow_entry : ℕ → ℕ → ℕ → Option IpEntry → IpEntry × (Text × Bool)
unfolding retry_secs
allow_entry window most now none =
    (record { window_start = now; seen = 1; last = now }, (codes "0", true))
allow_entry window most now (some e) =
    if leb window (now - e.window_start)
    then (record { window_start = now; seen = 1; last = now }, (codes "0", true))
    else if leb most e.seen
    then (record e { last = now }, (itoa (retry_secs window e now), false))
    else (record e { last = now; seen = e.seen + 1 }, (codes "0", true))

unfoldable pub allow_shard : ℕ → ℕ → Shard → Text → Reading → Shard × (Text × Bool)
allow_shard window most s key now =
    let pruned = prune window now s in
    let (entry, answer) = allow_entry window most now.wall (pruned.per_ip key) in
    (record pruned { per_ip = λ k. if text_eq k key then some entry else pruned.per_ip k }, answer)

unfoldable pub allow : RateLimiter → Text → Reading → RateLimiter × (Text × Bool)
allow l key now =
    let idx = fnv32 key % num_shards in
    let (shard, answer) = allow_shard l.window l.most (l.shards idx) key now in
    (record l { shards = λ i. if i == idx then shard else l.shards i }, answer)

-- What the middleware does with a request.
pub data Reply : Type 0 where
  served : Reply
  too_many_requests : Text → Reply

unfoldable pub reply_of : Text × Bool → Reply
reply_of (remaining, ok) = if ok then served else too_many_requests remaining

unfoldable pub rate_limit :
    (Text → Option Text) → RateLimiter → Request → Reading → RateLimiter × Reply
rate_limit split_host_port l r now =
    let (l', answer) = allow l (client_ip split_host_port r) now in
    if is_health_path r then (l, served) else (l', reply_of answer)
