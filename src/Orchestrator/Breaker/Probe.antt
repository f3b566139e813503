-- ===== src/Orchestrator/Breaker/Probe.antt =====
-- When the breaker (internal/orchestrator/breaker.go) admits a call, and how it trips.
use lyrics_plus.Common.{
  add_duration, ℕ, ◌+◌, ◌<◌, ◌≡◌, refl, Bool, true, false, List, [], ◌∷◌, inl, inr, Bool-cases, leb,
  All, length, replicate, ◌∙◌, arith,
}
use lyrics_plus.Orchestrator.Breaker.{
  BreakerConfig, BreakerState, allow_state, report_state, cooldown,
}

-- Failures reported one after the other, at the times given.
pub report_failures : BreakerConfig → BreakerState → List ℕ → BreakerState
report_failures cfg s [] = s
report_failures cfg s (t ∷ ts) = report_failures cfg (report_state cfg s false t) ts

-- The calls of `Allow` one after the other, at the times given, with what each answers.
pub allow_all : BreakerConfig → BreakerState → List ℕ → List Bool
allow_all cfg s [] = []
allow_all cfg s (t ∷ ts) =
    let (s', admitted) = allow_state cfg s t in admitted ∷ allow_all cfg s' ts

-- A state that is open and has no probe stays open under failures, and only counts them.
open_stays :
    (cfg : BreakerConfig) (s : BreakerState) (ts : List ℕ)
    → s.is_open ≡ true
    → (report_failures cfg s ts).is_open ≡ true
unfolding report_failures report_state
open_stays cfg s [] h = h
open_stays cfg s (t ∷ ts) h = open_stays cfg (report_state cfg s false t) ts (ground arith)

trip_from :
    (cfg : BreakerConfig) (s : BreakerState) (ts : List ℕ)
    → s.is_open ≡ false
    → s.failures < cfg.threshold
    → (report_failures cfg s ts).is_open ≡ leb cfg.threshold (s.failures + length ts)
unfolding report_failures report_state
trip_from cfg s [] h k = ground arith
trip_from cfg s (t ∷ ts) h k = elim (Bool-cases (leb cfg.threshold (s.failures + 1))) [
  | inl e ↦ rw (open_stays cfg (report_state cfg s false t) ts (ground arith)) (ground arith)
  | inr e ↦
      rw (trip_from cfg (report_state cfg s false t) ts (ground arith) (ground arith))
        (ground arith)
]

-- With a positive threshold: after a success, failures reported in a row open the breaker exactly
-- when there are at least `threshold` of them, whatever the times.
pub trip-threshold :
    (cfg : BreakerConfig) (s : BreakerState) (now : ℕ) (ts : List ℕ)
    → 0 < cfg.threshold
    → (report_failures cfg (report_state cfg s true now) ts).is_open ≡ leb cfg.threshold (length ts)
unfolding report_state
trip-threshold cfg s now ts h =
    trip_from cfg (report_state cfg s true now) ts (ground arith) (ground arith) ∙ ground arith

refuse-All :
    (cfg : BreakerConfig) (s : BreakerState) (ts : List ℕ)
    → s.is_open ≡ true
    → s.probing ≡ true
    → All (λ t. t < s.probe_at + cfg.probe_timeout) ts
    → allow_all cfg s ts ≡ replicate (length ts) false
unfolding allow_all allow_state
refuse-All cfg s [] o p h = refl
refuse-All cfg s (t ∷ ts) o p h = ground (arith, refuse-All cfg s ts o p h.1)

-- Half-open: once an open breaker admits a call, it refuses every further call that comes before
-- the probe timeout has passed, however many there are, as long as nothing is reported in between:
-- no success, no failure and no neutral end of the admitted call.
pub allow_all-single_probe :
    (cfg : BreakerConfig) (s : BreakerState) (t : ℕ) (ts : List ℕ)
    → s.is_open ≡ true
    → (allow_state cfg s t).1 ≡ true
    → All (λ u. u < t + cfg.probe_timeout) ts
    → allow_all cfg (allow_state cfg s t).0 ts ≡ replicate (length ts) false
unfolding allow_state
allow_all-single_probe cfg s t ts o a h =
    let s' : BreakerState = record s { probing = true; probe_at = t } in
    let e : (allow_state cfg s t).0 ≡ s' = ground arith in rw e (refuse-All cfg s' ts o refl h)

-- The outcome of an admitted probe: success closes the breaker, so that the next call is
-- admitted; failure starts the cooldown of one more trip, during which every call is refused.
pub probe_outcomes :
    (cfg : BreakerConfig) (s : BreakerState) (t u v : ℕ)
    → s.is_open ≡ true
    → (allow_state cfg s t).1 ≡ true
    → v < add_duration u (cooldown cfg (s.trips + 1))
    → ((allow_state cfg (report_state cfg (allow_state cfg s t).0 true u) v).1 ≡ true)
      × ((allow_state cfg (report_state cfg (allow_state cfg s t).0 false u) v).1 ≡ false)
unfolding allow_state report_state
probe_outcomes cfg s t u v o a h = ground arith
