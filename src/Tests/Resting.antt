-- ===== src/Tests/Resting.antt =====
-- The store's circuit breaker with a threshold of two errors (internal/storage/store.go).
use lyrics_plus.Common.{
  ◌<◌, ◌^◌, ◌≡◌, refl, true, false, some, List, [], ◌∷◌, arith, lt_i64, positive_or, add_duration,
}
use lyrics_plus.Common.Text.{codes, contains, has_prefix, to_lower, lower_rune}
use lyrics_plus.Orchestrator.Health.{FetchError}
use lyrics_plus.Storage.Resting
use lyrics_plus.Storage.Resting.{Resting}
use lyrics_plus.Storage.Resting.Calls.{Call, fails, asks, step, run}

abbrev locked : FetchError
locked = record {
  is_canceled = false;
  is_deadline_exceeded = false;
  is_net = false;
  message = codes "database is Locked";
}

-- Two errors open it, a question after the cooldown closes it, and one more error is counted.
abbrev calls : List Call
calls =
    fails false (some locked) 1
    ∷ fails false (some locked) 2
    ∷ asks 200
    ∷ fails false (some locked) 201
    ∷ []

program : Unit {0}
unfolding run step Resting.new_resting Resting.is_resting Resting.trip_cooldown
    Resting.reset_circuit_breaker Resting.record_query_err Resting.record_db_busy
    Resting.record_db_success Resting.is_db_busy_error contains has_prefix to_lower lower_rune
    positive_or lt_i64 add_duration
program = tt

one_error : (run (Resting.new_resting 2 100) calls).consecutive_errors ≡ 1
unfolding program
one_error = refl

closed_again : (run (Resting.new_resting 2 100) calls).cb_open ≡ false
unfolding program
closed_again = refl

busy : Resting.is_db_busy_error (some locked) ≡ true
unfolding program
busy = refl

abbrev fresh : Resting
fresh = record {
  cb_open = false;
  cb_open_until = 0;
  consecutive_errors = 0;
  cb_threshold = 2;
  cb_cooldown = 100;
}

short : positive_or 0 100 < 2 ^ 63
unfolding positive_or lt_i64
short = omega arith
