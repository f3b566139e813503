-- ===== src/Tests/Breaker.antt =====
-- The breaker of internal/orchestrator/breaker.go at small inputs.
use lyrics_plus.Common.{
  ◌<◌, ◌≡◌, refl, true, false, some, List, [], ◌∷◌, lookup, insert, lt_i64, add_duration, arith,
}
use lyrics_plus.Orchestrator.Breaker.{
  BreakerConfig, BreakerState, Breaker, zero_state, new_breaker, state, put_state, cooldown,
  allow_state, allow, report,
}
use lyrics_plus.Orchestrator.Breaker.Calls.{
  Call, allow_call, report_call, run, IsValid, run-IsValid,
}
use lyrics_plus.Orchestrator.Breaker.Probe.{allow_all, allow_all-single_probe}
use lyrics_plus.Orchestrator.Breaker.Isolation.{run_state, run-run_state}

abbrev cfg : BreakerConfig
cfg = record { threshold = 3; base_cooldown = 10; max_cooldown = 35; probe_timeout = 5 }

abbrev calls : List Call
calls =
    report_call "qq" false 1
    ∷ report_call "apple" true 2
    ∷ report_call "qq" false 3
    ∷ report_call "qq" false 4
    ∷ allow_call "qq" 14
    ∷ []

abbrev probing_state : BreakerState
probing_state = record {
  failures = 3;
  trips = 1;
  is_open = true;
  open_until = 14;
  probing = true;
  probe_at = 14;
}

abbrev open_state : BreakerState
open_state = record probing_state { probing = false; probe_at = 0 }

abbrev after_calls : Breaker
after_calls = record { cfg = cfg; st = ("qq", probing_state) ∷ ("apple", zero_state) ∷ [] }

calls-run : run (some (new_breaker cfg)) calls ≡ some after_calls
unfolding run new_breaker allow report state put_state lookup insert lt_i64 cooldown
calls-run = refl

third_cooldown : cooldown cfg 3 ≡ 35
unfolding cooldown
third_cooldown = refl

run-IsValid_example : IsValid after_calls
run-IsValid_example = run-IsValid cfg calls after_calls calls-run

open_admits : (allow_state cfg open_state 20).1 ≡ true
unfolding allow_state
open_admits = refl

allow_all-single_probe_example :
    allow_all cfg (allow_state cfg open_state 20).0 (21 ∷ 24 ∷ []) ≡ false ∷ false ∷ []
allow_all-single_probe_example =
    allow_all-single_probe cfg open_state 20 (21 ∷ 24 ∷ []) refl open_admits (omega arith)

twenty_later : 30 < add_duration 22 (cooldown cfg 2)
unfolding add_duration cooldown
twenty_later = omega arith

run-run_state_example :
    (b : Breaker) × (run (some (new_breaker cfg)) calls ≡ some b)
    × (state b "qq" ≡ run_state (new_breaker cfg).cfg "qq" (state (new_breaker cfg) "qq") calls)
run-run_state_example = run-run_state (new_breaker cfg) calls "qq"
