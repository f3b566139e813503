-- ===== src/Storage/Watchdog/Spacing.antt =====
-- How often the caches are shed (internal/storage/watchdog.go).
use lyrics_plus.Common.{ℕ, ◌+◌, ◌≤◌, ◌<◌, inl, inr, List, [], ◌∷◌, ltb, leb, Bool-cases, arith}
use lyrics_plus.Storage.Watchdog.{Watchdog, since, check, shed_times}

-- Each time is at least `gap` after the one before it, the first one after `last`.
abbrev pub AreSpaced : ℕ → ℕ → List ℕ → Type 0
AreSpaced gap last [] = Unit
AreSpaced gap last (t ∷ ts) = (last + gap ≤ t) × AreSpaced gap t ts

-- Ticks at any times, with any memory in use: two sheds in a row are at least the cooldown apart,
-- the first from the last one before the ticks, for a cooldown that is not 0.
pub shed_times-AreSpaced :
    (w : Watchdog) (ticks : List (ℕ × ℕ))
    → 0 < w.cooldown
    → AreSpaced w.cooldown w.last_shed (shed_times w ticks)
unfolding shed_times check
shed_times-AreSpaced w [] h = tt
shed_times-AreSpaced w ((used, now) ∷ ticks) h = elim (Bool-cases (leb w.limit_bytes 0)) [
  | inl off ↦ rw (off, shed_times, check) (shed_times-AreSpaced w ticks h)
  | inr on ↦ elim (Bool-cases (leb used w.limit_bytes)) [
    | inl small ↦ rw (on, small, shed_times, check) (shed_times-AreSpaced w ticks h)
    | inr large ↦ elim (Bool-cases (ltb (since w.last_shed now) w.cooldown)) [
      | inl early ↦ rw (on, large, early, shed_times, check) (shed_times-AreSpaced w ticks h)
      | inr due ↦
          let apart : w.last_shed + w.cooldown ≤ now = ground arith in
          rw (on, large, due, shed_times, check)
            (apart, shed_times-AreSpaced (record w { last_shed = now }) ticks h)
    ]
  ]
]
