-- ===== src/Orchestrator/Breaker/Cooldown.antt =====
-- The back-off of `cooldown` (internal/orchestrator/breaker.go).
use native.Mathlib.Nat.{pow-suc}
use lyrics_plus.Common.{
  two64, lt_i64-ltb, ℕ, zero, suc, ◌-◌, ◌*◌, ◌%◌, ◌^◌, ◌≤◌, ◌<◌, ◌≡◌, ltb, min, arith, Bool-cases,
  inl, inr,
}
use lyrics_plus.Orchestrator.Breaker.{BreakerConfig, double_until, cooldown}

one-le-pow : (n : ℕ) → 1 ≤ 2 ^ n
one-le-pow zero = omega arith
one-le-pow (suc n) = rw pow-suc (omega (arith, one-le-pow n))

scale : (n d most : ℕ) → most ≤ d → most ≤ 2 ^ n * d
scale n d most h = grind (arith, one-le-pow n)

shift : (n d : ℕ) → 2 ^ n * (d * 2) ≡ 2 ^ suc n * d
shift n d = rw pow-suc (grind arith)

double_until-pow :
    (n most d : ℕ)
    → most < 2 ^ 62
    → d ≤ 2 * most
    → min (double_until n most d) most ≡ min (2 ^ n * d) most
unfolding double_until
double_until-pow zero most d h k = omega arith
double_until-pow (suc n) most d h k = elim (Bool-cases (ltb d most)) [
  | inl less ↦
      let e : (d * 2) % two64 ≡ d * 2 = ground arith in
      rw (lt_i64-ltb d most (omega arith) (omega arith), less, e)
        (omega (arith, double_until-pow n most (d * 2) h (ground arith), shift n d))
  | inr over ↦
      rw (lt_i64-ltb d most (omega arith) (omega arith), over)
        (ground (arith, scale (suc n) d most))
]

double_until-le : (n most d : ℕ) → most < 2 ^ 62 → d ≤ 2 * most → double_until n most d ≤ 2 * most
unfolding double_until
double_until-le zero most d h k = k
double_until-le (suc n) most d h k = elim (Bool-cases (ltb d most)) [
  | inl less ↦
      let e : (d * 2) % two64 ≡ d * 2 = ground arith in
      rw (lt_i64-ltb d most (omega arith) (omega arith), less, e)
        (double_until-le n most (d * 2) h (ground arith))
  | inr over ↦ rw (lt_i64-ltb d most (omega arith) (omega arith), over) k
]

-- With a base that is not above the maximum and a maximum below 2^62 nanoseconds the doubling
-- never wraps: the cooldown of the k-th trip is the base doubled k - 1 times, cut at the maximum.
pub cooldown-pow :
    (cfg : BreakerConfig) (trips : ℕ)
    → cfg.base_cooldown ≤ cfg.max_cooldown
    → cfg.max_cooldown < 2 ^ 62
    → cooldown cfg trips ≡ min (2 ^ (trips - 1) * cfg.base_cooldown) cfg.max_cooldown
unfolding cooldown
cooldown-pow cfg trips h k =
    let d = double_until (trips - 1) cfg.max_cooldown cfg.base_cooldown in
    let bound : d ≤ 2 * cfg.max_cooldown =
      double_until-le (trips - 1) cfg.max_cooldown cfg.base_cooldown k (omega arith) in
    rw (lt_i64-ltb cfg.max_cooldown d (omega arith) (omega arith)) (
      ground
        (arith, double_until-pow (trips - 1) cfg.max_cooldown cfg.base_cooldown k (omega arith)))
