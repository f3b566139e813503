-- ===== src/Tests/Api.antt =====
-- The middleware of internal/api/middleware at concrete requests.
use lyrics_plus.Common.{ℕ, ◌*◌, ◌^◌, ◌≡◌, refl, false, true, Option, none, some, [], ◌∷◌, arith}
use lyrics_plus.Common.Text.{Text, codes, text_eq}
use lyrics_plus.Common.Decimal.{value_from, itoa, digits_of}
use lyrics_plus.Domain.Query.{is_empty}
use lyrics_plus.Api.Client.{Request, is_health_path, client_ip, remote_host}
use lyrics_plus.Api.Limit.{
  IpEntry, Reading, new_sharded_rate_limiter, allow_entry, retry_secs, prune_entry, fnv32, fnv_from,
  prune, allow_shard, allow, reply_of, rate_limit,
}
use lyrics_plus.Api.Limit.Window.{served_count}
use lyrics_plus.Api.Limit.Retry.{refused_passes_later}
use lyrics_plus.Api.Gate.{comes, served_ends, concurrency_limiter, run_gate}
use lyrics_plus.Api.Gate.Bounds.{IsBounded, run_gate-IsBounded}

abbrev split : Text → Option Text
split a = none

abbrev visitor : Request
visitor = record { path = codes "/v2/lyrics"; header = λ name. []; remote_addr = codes "192.0.2.7" }

abbrev at : ℕ → Request × Reading
at n = (visitor, record { mono = n; wall = n })

abbrev window : ℕ
window = 10 * 10 ^ 9

abbrev start : Reading
start = record { mono = 0; wall = 0 }

-- Of three requests in a window the third is refused.
third_refused :
    served_count split
      (codes "192.0.2.7")
      (new_sharded_rate_limiter 2 window start)
      (at 1 ∷ at 2 ∷ at 3 ∷ [])
    ≡ 2
unfolding served_count new_sharded_rate_limiter rate_limit reply_of allow allow_shard allow_entry
    prune prune_entry fnv32 fnv_from client_ip remote_host is_health_path text_eq is_empty
    retry_secs
third_refused = refl

abbrev full : IpEntry
full = record { window_start = 100; seen = 2; last = 200 }

refused_passes_later_example :
    (allow_entry window 2
      (12 * 10 ^ 9)
      (prune_entry 0 (some (allow_entry window 2 300 (some full)).0))).1.1
    ≡ true
unfolding allow_entry retry_secs itoa digits_of value_from
refused_passes_later_example =
    refused_passes_later window 2 300 (12 * 10 ^ 9) 0 full (omega arith) (omega arith) refl
      (omega arith)

-- Of one and a half seconds left the client is told one, and after one second it is refused again.
retry_too_early :
    let first = allow_entry window 2 8500000100 (some full) in
    (first.1 ≡ (codes "1", false)) × ((allow_entry window 2 9500000100 (some first.0)).1.1 ≡ false)
unfolding allow_entry retry_secs itoa digits_of
retry_too_early = (refl, refl)

run_gate-IsBounded_example :
    IsBounded 1
      (run_gate (concurrency_limiter 1) (comes visitor ∷ comes visitor ∷ served_ends ∷ []))
run_gate-IsBounded_example = run_gate-IsBounded 1 (comes visitor ∷ comes visitor ∷ served_ends ∷ [])
