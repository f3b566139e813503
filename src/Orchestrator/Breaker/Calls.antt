-- ===== src/Orchestrator/Breaker/Calls.antt =====
-- Sequences of breaker calls (internal/orchestrator/breaker.go): what every sequence keeps, that
-- providers do not affect each other, and when the breaker trips.
use lyrics_plus.Common.{
  positive_or-pos, ℕ, ◌≤◌, ◌<◌, ◌≡◌, refl, subst, Bool, true, false, Option, none, some, List, [],
  ◌∷◌, inl, inr, Option-cases, Bool-cases, String, str_eq, if◌then◌else◌, lookup, lookup-insert,
  arith,
}
use lyrics_plus.Orchestrator.Breaker.{
  BreakerConfig, BreakerState, Breaker, zero_state, new_breaker, state, put_state, allow_state,
  report_state, allow, report, neutral,
}

pub data Call : Type 0 where
  allow_call : String → ℕ → Call
  report_call : String → Bool → ℕ → Call
  neutral_call : String → Call

unfoldable pub name_of : Call → String
name_of (allow_call k t) = k
name_of (report_call k ok t) = k
name_of (neutral_call k) = k

unfoldable pub step : Option Breaker → Call → Option Breaker
step b (allow_call k t) = (allow b k t).0
step b (report_call k ok t) = report b k ok t
step b (neutral_call k) = neutral b k

unfoldable pub run : Option Breaker → List Call → Option Breaker
unfolding step
run b [] = b
run b (c ∷ cs) = run (step b c) cs

pub record StateIsValid (threshold : ℕ) (s : BreakerState) : Type 0 where
  pub closed_below : s.is_open ≡ false → s.failures < threshold
  pub closed_trips : s.is_open ≡ false → s.trips ≡ 0
  pub closed_rest : s.is_open ≡ false → s.probing ≡ false
  pub open_tripped : s.is_open ≡ true → 1 ≤ s.trips
  pub open_above : s.is_open ≡ true → 1 ≤ s.failures

pub record IsValid (b : Breaker) : Type 0 where
  pub positive : 0 < b.cfg.threshold
  pub states : (name : String) → StateIsValid b.cfg.threshold (state b name)

pub state-put_state :
    (b : Breaker) (k j : String) (s : BreakerState)
    → state (put_state b k s) j ≡ (if str_eq k j then s else state b j)
unfolding state put_state
state-put_state b k j s = rw (state, lookup-insert k j s b.st) (ground arith)

neutral_state-StateIsValid :
    {n : ℕ} (s : BreakerState) → StateIsValid n s → StateIsValid n (record s { probing = false })
neutral_state-StateIsValid s v = ground arith

module _ (cfg : BreakerConfig) (s : BreakerState) (now : ℕ) (v : StateIsValid cfg.threshold s) where
  allow_state-StateIsValid : StateIsValid cfg.threshold (allow_state cfg s now).0
  unfolding allow_state
  allow_state-StateIsValid = ground arith

  report_state-StateIsValid :
      (ok : Bool) → 0 < cfg.threshold → StateIsValid cfg.threshold (report_state cfg s ok now)
  unfolding report_state
  report_state-StateIsValid true h = ground arith
  report_state-StateIsValid false h = ground arith

-- Every call keeps the invariant, the entries of the other names included.
put_state-IsValid :
    (b : Breaker) (k : String) (s : BreakerState)
    → IsValid b
    → StateIsValid b.cfg.threshold s
    → IsValid (put_state b k s)
unfolding put_state
put_state-IsValid b k s v w = record {
  positive = v.positive;
  states = λ j.
      rw (state-put_state b k j s)
        (elim (Bool-cases (str_eq k j)) [ inl e ↦ rw e w | inr e ↦ rw e (v.states j) ]);
}

pub lookup-state :
    (b : Breaker) (k : String) (s : BreakerState) → lookup k b.st ≡ some s → state b k ≡ s
unfolding state
lookup-state b k s h = rw (h, state)

abbrev pub AllValid : Option Breaker → Type 0
AllValid none = Unit
AllValid (some b) = IsValid b

step-AllValid : (b : Option Breaker) (c : Call) → AllValid b → AllValid (step b c)
unfolding step allow report neutral
step-AllValid none (allow_call k t) v = tt
step-AllValid none (report_call k ok t) v = tt
step-AllValid none (neutral_call k) v = tt
step-AllValid (some b) (allow_call k t) v =
    put_state-IsValid b k _ v (allow_state-StateIsValid b.cfg (state b k) t (v.states k))
step-AllValid (some b) (report_call k ok t) v =
    put_state-IsValid b k _ v
      (report_state-StateIsValid b.cfg (state b k) t (v.states k) ok v.positive)
step-AllValid (some b) (neutral_call k) v = elim (Option-cases (lookup k b.st)) [
  | inl e ↦ rw (e, neutral) v
  | inr (s, e) ↦
      rw (e, neutral)
        (put_state-IsValid b k _ v (
          neutral_state-StateIsValid s
            (subst (StateIsValid b.cfg.threshold) (lookup-state b k s e) (v.states k))))
]

threshold_pos : (cfg : BreakerConfig) → 0 < (new_breaker cfg).cfg.threshold
unfolding new_breaker
threshold_pos cfg = positive_or-pos cfg.threshold 6 (omega arith)

pub state-new_breaker : (cfg : BreakerConfig) (k : String) → state (new_breaker cfg) k ≡ zero_state
unfolding new_breaker state lookup
state-new_breaker cfg k = refl

zero_state-StateIsValid : (n : ℕ) → 0 < n → StateIsValid n zero_state
zero_state-StateIsValid n h = ground arith

pub new_breaker-IsValid : (cfg : BreakerConfig) → IsValid (new_breaker cfg)
new_breaker-IsValid cfg = record {
  positive = threshold_pos cfg;
  states = λ j. rw (state-new_breaker cfg j) (zero_state-StateIsValid _ (threshold_pos cfg));
}

pub run-AllValid : (b : Option Breaker) (cs : List Call) → AllValid b → AllValid (run b cs)
unfolding run
run-AllValid b [] v = v
run-AllValid b (c ∷ cs) v = run-AllValid (step b c) cs (step-AllValid b c v)

-- In every state that calls lead to from a new breaker, for every provider: a closed breaker has
-- fewer failures than the threshold, no trips and no pending probe, and an open one has tripped
-- at least once.
pub run-IsValid :
    (cfg : BreakerConfig) (cs : List Call) (b : Breaker)
    → run (some (new_breaker cfg)) cs ≡ some b
    → IsValid b
run-IsValid cfg cs b e =
    subst AllValid e (run-AllValid (some (new_breaker cfg)) cs (new_breaker-IsValid cfg))
