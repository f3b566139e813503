-- ===== src/Api/Limit/Window.antt =====
-- What the rate limiter lets through in a stretch of time (internal/api/middleware/middleware.go).
use lyrics_plus.Common.{
  ℕ, ◌+◌, ◌-◌, ◌≤◌, ◌<◌, Bool, Option, none, some, List, [], ◌∷◌, leb, if◌then◌else◌, All,
}
use lyrics_plus.Common.Text.{Text}
use lyrics_plus.Api.Client.{Request}
use lyrics_plus.Api.Limit.Entries.{once, counts}
use lyrics_plus.Api.Limit.{IpEntry, RateLimiter, Reading, rate_limit}

-- How often a key can still be let through before `t + window`.
abbrev room : ℕ → ℕ → Option IpEntry → ℕ
room t most none = most
room t most (some e) = if leb t e.window_start then most - e.seen else most + (most - e.seen)

-- A window that began at `t` or later was used at `t` or later.
abbrev IsFresh : ℕ → Option IpEntry → Type 0
IsFresh t none = Unit
IsFresh t (some e) = t ≤ e.window_start → t ≤ e.last

-- An answer uses up the room that it takes.
abbrev UsesRoom : ℕ → ℕ → Option IpEntry → IpEntry × (Text × Bool) → Type 0
UsesRoom t most o r = (room t most (some r.0) + once r.1.1 ≤ room t most o) × IsFresh t (some r.0)

-- From one entry to the next, with `n` calls let through.
abbrev Kept : ℕ → ℕ → Option IpEntry → Option IpEntry → ℕ → Type 0
Kept t most o o' n = IsFresh t o → (room t most o' + n ≤ room t most o) × IsFresh t o'

-- A window that began before `t`.
abbrev IsOld : ℕ → Option IpEntry → Type 0
IsOld t none = Unit
IsOld t (some e) = e.window_start < t

-- Requests with the times at which they come, one after the other.
unfoldable pub run_requests :
    (Text → Option Text) → RateLimiter → List (Request × Reading) → RateLimiter
run_requests split l [] = l
run_requests split l ((r, now) ∷ rs) = run_requests split (rate_limit split l r now).0 rs

-- How many requests of a client are served; those to the health paths do not count.
unfoldable pub served_count :
    (Text → Option Text) → Text → RateLimiter → List (Request × Reading) → ℕ
served_count split ip l [] = 0
served_count split ip l ((r, now) ∷ rs) =
    let (l', reply) = rate_limit split l r now in
    once (counts split ip r reply) + served_count split ip l' rs

-- All the wall clock's readings are from `from` on and before `to`.
abbrev pub AreWithin : ℕ → ℕ → List (Request × Reading) → Type 0
AreWithin from to rs = All (λ (e : Request × Reading). (from ≤ e.1.wall) × (e.1.wall < to)) rs
