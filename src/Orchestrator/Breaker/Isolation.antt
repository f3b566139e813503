-- ===== src/Orchestrator/Breaker/Isolation.antt =====
-- The breaker of one provider (internal/orchestrator/breaker.go) as a state machine of its own.
use lyrics_plus.Common.{
  ◌≡◌, refl, sym, subst, ◌∙◌, ap, true, false, Option, none, some, List, [], ◌∷◌, inl, inr,
  Bool-cases, Option-cases, String, str_eq, eq_iff, if◌then◌else◌, lookup,
}
use lyrics_plus.Orchestrator.Breaker.{
  BreakerConfig, BreakerState, Breaker, zero_state, state, put_state, allow_state, report_state,
  allow, report, neutral,
}
use lyrics_plus.Orchestrator.Breaker.Calls.{
  Call, allow_call, report_call, neutral_call, name_of, step, run, state-put_state, lookup-state,
}

-- What a call does to the state of its own provider.
pub step_state : BreakerConfig → BreakerState → Call → BreakerState
step_state cfg s (allow_call k t) = (allow_state cfg s t).0
step_state cfg s (report_call k ok t) = report_state cfg s ok t
step_state cfg s (neutral_call k) = record s { probing = false }

-- The calls about one provider alone, in order.
pub run_state : BreakerConfig → String → BreakerState → List Call → BreakerState
run_state cfg k s [] = s
run_state cfg k s (c ∷ cs) =
    run_state cfg k (if str_eq (name_of c) k then step_state cfg s c else s) cs

same_key : (b : Breaker) (j k : String) → str_eq j k ≡ true → state b j ≡ state b k
same_key b j k e = ap (state b) ((eq_iff j k).0 e)

state-put_own :
    (b : Breaker) (j k : String) (f : BreakerState → BreakerState)
    → state (put_state b j (f (state b j))) k ≡ (if str_eq j k then f (state b k) else state b k)
state-put_own b j k f =
    rw (state-put_state b j k (f (state b j)))
      (elim (Bool-cases (str_eq j k)) [ inl e ↦ rw (e, same_key b j k e) | inr e ↦ rw e ])

rest : BreakerState → BreakerState
rest s = record s { probing = false }

absent-state : (b : Breaker) (j : String) → lookup j b.st ≡ none → state b j ≡ zero_state
unfolding state
absent-state b j h = rw (h, state)

absent-rest :
    (b : Breaker) (j k : String)
    → lookup j b.st ≡ none
    → state b k ≡ (if str_eq j k then rest (state b k) else state b k)
unfolding rest
absent-rest b j k h = elim (Bool-cases (str_eq j k)) [
  | inl e ↦
      let z : state b k ≡ zero_state = sym (same_key b j k e) ∙ absent-state b j h in rw (e, z)
  | inr e ↦ rw e
]

step-project :
    (b : Breaker) (c : Call) (k : String)
    → (b' : Breaker) × (step (some b) c ≡ some b')
      × (b'.cfg ≡ b.cfg)
      × (state b' k ≡ (if str_eq (name_of c) k then step_state b.cfg (state b k) c else state b k))
unfolding step step_state name_of allow report neutral rest
step-project b (allow_call j t) k = (
  put_state b j (allow_state b.cfg (state b j) t).0,
  refl,
  (unfold put_state in refl),
  state-put_own b j k (λ s. (allow_state b.cfg s t).0),
)
step-project b (report_call j ok t) k = (
  put_state b j (report_state b.cfg (state b j) ok t),
  refl,
  (unfold put_state in refl),
  state-put_own b j k (λ s. report_state b.cfg s ok t),
)
step-project b (neutral_call j) k = elim (Option-cases (lookup j b.st)) [
  | inl e ↦ rw (e, neutral) (b, refl, refl, absent-rest b j k e)
  | inr (s, e) ↦
      let z : state b j ≡ s = lookup-state b j s e in
      rw (e, neutral)
        (
          put_state b j (rest s),
          refl,
          (unfold put_state in refl),
          subst
              (λ (x : BreakerState).
                state (put_state b j (rest x)) k
                ≡ (if str_eq j k then rest (state b k) else state b k))
              z (state-put_own b j k rest),
        )
]

-- Providers do not affect each other: whatever calls are interleaved, the state of one provider
-- is what its own calls alone, in their order, make of it.
pub run-run_state :
    (b : Breaker) (cs : List Call) (k : String)
    → (b' : Breaker) × (run (some b) cs ≡ some b') × (state b' k ≡ run_state b.cfg k (state b k) cs)
unfolding run run_state
run-run_state b [] k = (b, refl, refl)
run-run_state b (c ∷ cs) k =
    let (b', e, c_eq, s_eq) = step-project b c k in
    let (b'', r, t) = run-run_state b' cs k in
    (b'', ap (λ (o : Option Breaker). run o cs) e ∙ r, rw (c_eq, s_eq) at t)
