-- ===== src/Orchestrator/Breaker.antt =====
-- internal/orchestrator/breaker.go: a circuit breaker for each provider. Instants are numbers of
-- nanoseconds of one clock, and each operation takes the reading of `b.now()`. A duration is the
-- bit pattern of an int64.
pub mod Calls
pub mod Cooldown
pub mod Probe
pub mod Isolation
use lyrics_plus.Common.{
  two63, two64, lt_i64, add_duration, positive_or, ℕ, zero, suc, ◌+◌, ◌-◌, ◌*◌, ◌%◌, ◌^◌, Bool,
  true, false, not, ◌&&◌, Option, none, some, [], String, ltb, leb, if◌then◌else◌, Dict, lookup,
  insert,
}

pub record BreakerConfig : Type 0 where
  pub threshold : ℕ
  pub base_cooldown : ℕ
  pub max_cooldown : ℕ
  pub probe_timeout : ℕ

abbrev second : ℕ
second = 1_000_000_000

unfoldable pub default_breaker_config : BreakerConfig
default_breaker_config = record {
  threshold = 6;
  base_cooldown = 25 * second;
  max_cooldown = 5 * 60 * second;
  probe_timeout = 12 * second;
}

pub record BreakerState : Type 0 where
  pub failures : ℕ
  pub trips : ℕ
  pub is_open : Bool
  pub open_until : ℕ
  pub probing : Bool
  pub probe_at : ℕ

abbrev pub zero_state : BreakerState
zero_state = record {
  failures = 0;
  trips = 0;
  is_open = false;
  open_until = 0;
  probing = false;
  probe_at = 0;
}

pub record Breaker : Type 0 where
  pub cfg : BreakerConfig
  pub st : Dict BreakerState

unfoldable pub new_breaker : BreakerConfig → Breaker
unfolding positive_or default_breaker_config lt_i64
new_breaker cfg =
    let d = default_breaker_config in
    let base = positive_or cfg.base_cooldown d.base_cooldown in
    let most = positive_or cfg.max_cooldown d.max_cooldown in
    record {
      cfg = record {
        threshold = positive_or cfg.threshold d.threshold;
        base_cooldown = base;
        max_cooldown = if lt_i64 most base then base else most;
        probe_timeout = positive_or cfg.probe_timeout d.probe_timeout;
      };
      st = [];
    }

-- The entry of a name, a fresh one if there is none. (The code stores the fresh one at once;
-- every caller here stores what it returns.)
unfoldable pub state : Breaker → String → BreakerState
state b name = elim (lookup name b.st) [ none ↦ zero_state | some s ↦ s ]

unfoldable pub put_state : Breaker → String → BreakerState → Breaker
put_state b name s = record b { st = insert name s b.st }

-- The loop of `cooldown`: `n` is `trips - 1`, the rounds that `i < trips` allows.
unfoldable pub double_until : ℕ → ℕ → ℕ → ℕ
double_until zero most d = d
double_until (suc n) most d =
    let rest = double_until n most ((d * 2) % two64) in if lt_i64 d most then rest else d

unfoldable pub cooldown : BreakerConfig → ℕ → ℕ
unfolding double_until lt_i64
cooldown cfg trips =
    let d = double_until (trips - 1) cfg.max_cooldown cfg.base_cooldown in
    if lt_i64 cfg.max_cooldown d then cfg.max_cooldown else d

-- `now.Sub(s.probeAt) < ProbeTimeout`, after `s.probing &&`
unfoldable pub probe_pending : BreakerConfig → BreakerState → ℕ → Bool
probe_pending cfg s now = s.probing && ltb now (s.probe_at + cfg.probe_timeout)

unfoldable pub allow_state : BreakerConfig → BreakerState → ℕ → BreakerState × Bool
unfolding probe_pending
allow_state cfg s now =
    if not s.is_open
    then (s, true)
    else if ltb now s.open_until
    then (s, false)
    else if probe_pending cfg s now
    then (s, false)
    else (record s { probing = true; probe_at = now }, true)

unfoldable pub report_state : BreakerConfig → BreakerState → Bool → ℕ → BreakerState
unfolding add_duration
report_state cfg s true now = record s { failures = 0; trips = 0; is_open = false; probing = false }
report_state cfg s false now =
    let t = record s { failures = s.failures + 1 } in
    if s.is_open
    then (if s.probing
        then record t {
          trips = s.trips + 1;
          open_until = add_duration now (cooldown cfg (s.trips + 1));
          probing = false;
        }
        else t)
    else if leb cfg.threshold t.failures
    then record t {
      is_open = true;
      trips = 1;
      open_until = add_duration now (cooldown cfg 1);
      probing = false;
    }
    else t

-- A nil breaker allows every call and records nothing.
unfoldable pub allow : Option Breaker → String → ℕ → Option Breaker × Bool
unfolding allow_state
allow none name now = (none, true)
allow (some b) name now =
    let (s, admitted) = allow_state b.cfg (state b name) now in
    (some (put_state b name s), admitted)

unfoldable pub report : Option Breaker → String → Bool → ℕ → Option Breaker
unfolding report_state
report none name outcome now = none
report (some b) name outcome now =
    some (put_state b name (report_state b.cfg (state b name) outcome now))

unfoldable pub neutral : Option Breaker → String → Option Breaker
neutral none name = none
neutral (some b) name = elim (lookup name b.st) [
  | none ↦ some b
  | some s ↦ some (put_state b name (record s { probing = false }))
]

pub record BreakerStatus : Type 0 where
  pub is_open : Bool
  pub consecutive_fa : ℕ
  pub retry_in : ℕ

unfoldable pub status : Option Breaker → String → ℕ → BreakerStatus
status none name now = record { is_open = false; consecutive_fa = 0; retry_in = 0 }
status (some b) name now = elim (lookup name b.st) [
  | none ↦ record { is_open = false; consecutive_fa = 0; retry_in = 0 }
  | some s ↦ record {
    is_open = s.is_open;
    consecutive_fa = s.failures;
    retry_in = if s.is_open then s.open_until - now else 0;
  }
]
