-- ===== src/Tests/Watchdog.antt =====
-- The watchdog at four ticks (internal/storage/watchdog.go).
use lyrics_plus.Common.{ℕ, ◌≡◌, refl, List, [], ◌∷◌, arith}
use lyrics_plus.Storage.Watchdog.{Watchdog, new_watchdog, set_cooldown, check, shed_times}
use lyrics_plus.Storage.Watchdog.Spacing.{AreSpaced, shed_times-AreSpaced}

abbrev dog : Watchdog
dog = set_cooldown (new_watchdog 100) 10

abbrev ticks : List (ℕ × ℕ)
ticks = (200, 20) ∷ ((300, 25) ∷ ((50, 40) ∷ ((101, 41) ∷ [])))

two_sheds : shed_times dog ticks ≡ 20 ∷ (41 ∷ [])
unfolding shed_times check new_watchdog set_cooldown
two_sheds = refl

shed_times-AreSpaced_example : AreSpaced dog.cooldown dog.last_shed (shed_times dog ticks)
unfolding set_cooldown
shed_times-AreSpaced_example = shed_times-AreSpaced dog ticks (omega arith)
