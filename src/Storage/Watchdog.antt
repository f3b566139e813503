-- ===== src/Storage/Watchdog.antt =====
-- internal/storage/watchdog.go. A time is the nanoseconds since the zero `time.Time`; the memory in
-- use, which the program reads from the operating system, is an argument, below 2 ^ 63 bytes.
-- The two readings of the clock in a check are one. Shedding the caches and the calls of the
-- garbage collector are the answer `true`.
pub mod Spacing
use lyrics_plus.Common.{
  ℕ, ◌-◌, ◌*◌, ◌^◌, Bool, true, false, List, [], ◌∷◌, ltb, leb, if◌then◌else◌, min,
}

pub record Watchdog : Type 0 where
  pub limit_bytes : ℕ
  pub cooldown : ℕ
  pub last_shed : ℕ

unfoldable pub new_watchdog : ℕ → Watchdog
new_watchdog limit_bytes = record {
  limit_bytes = limit_bytes;
  cooldown = 60 * 10 ^ 9;
  last_shed = 0;
}

unfoldable pub set_cooldown : Watchdog → ℕ → Watchdog
set_cooldown w d = record w { cooldown = d }

-- `time.Since`, which stops at the largest duration
abbrev pub since : ℕ → ℕ → ℕ
since t now = min (now - t) (2 ^ 63 - 1)

unfoldable pub check : Watchdog → ℕ → ℕ → Watchdog × Bool
check w used now =
    if leb w.limit_bytes 0
    then (w, false)
    else if leb used w.limit_bytes
    then (w, false)
    else if ltb (since w.last_shed now) w.cooldown
    then (w, false)
    else (record w { last_shed = now }, true)

-- The times at which a run of ticks sheds; a tick has the memory in use and the time.
unfoldable pub shed_times : Watchdog → List (ℕ × ℕ) → List ℕ
shed_times w [] = []
shed_times w ((used, now) ∷ ticks) =
    let (w', shed) = check w used now in
    let rest = shed_times w' ticks in if shed then now ∷ rest else rest
