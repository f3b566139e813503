-- ===== src/Storage/Resting/Calls.antt =====
-- The circuit breaker of internal/storage/store.go over every sequence of its calls.
use lyrics_plus.Common.{
  ℕ, ◌+◌, ◌-◌, ◌<◌, ◌^◌, ◌≡◌, refl, Bool, true, false, Option, none, some, List, [], ◌∷◌, leb,
  length, add_duration, positive_or, positive_or-pos, Bool-cases, inl, inr, arith, ◌∙◌,
}
use lyrics_plus.Orchestrator.Health.{FetchError}
use lyrics_plus.Storage.Resting
use lyrics_plus.Storage.Resting.{Resting}

pub data Call : Type 0 where
  asks : ℕ → Call
  trips : ℕ → ℕ → Call
  resets : Call
  fails : Bool → Option FetchError → ℕ → Call
  succeeds : Call

unfoldable pub step : Resting → Call → Resting
step s (asks now) = (Resting.is_resting s now).0
step s (trips d now) = Resting.trip_cooldown s d now
step s resets = Resting.reset_circuit_breaker s
step s (fails is_done err now) = Resting.record_query_err s is_done err now
step s succeeds = Resting.record_db_success s

unfoldable pub run : Resting → List Call → Resting
run s [] = s
run s (c ∷ cs) = run (step s c) cs

-- A closed breaker has room for another error.
pub record IsBelow (s : Resting) : Type 0 where
  positive : 0 < s.cb_threshold
  below : s.cb_open ≡ false → s.consecutive_errors < s.cb_threshold

step-IsBelow : (s : Resting) (c : Call) → IsBelow s → IsBelow (step s c)
unfolding step Resting.is_resting Resting.trip_cooldown Resting.reset_circuit_breaker
    Resting.record_query_err Resting.record_db_success
step-IsBelow s (asks now) v = record {
  positive = ground (arith, v.positive);
  below = λ e. ground (arith, v.positive, v.below);
}
step-IsBelow s (trips d now) v = record {
  positive = v.positive;
  below = λ e. absurd (ground arith);
}
step-IsBelow s resets v = record { positive = v.positive; below = λ e. v.positive }
step-IsBelow s (fails is_done none now) v = v
step-IsBelow s (fails is_done (some err) now) v = record {
  positive = ground (arith, v.positive);
  below = λ e. ground (arith, v.positive, v.below);
}
step-IsBelow s succeeds v = record {
  positive = ground (arith, v.positive);
  below = λ e. ground (arith, v.positive, v.below);
}

run-IsBelow : (s : Resting) (cs : List Call) → IsBelow s → IsBelow (run s cs)
unfolding run
run-IsBelow s [] v = v
run-IsBelow s (c ∷ cs) v = run-IsBelow (step s c) cs (step-IsBelow s c v)

-- After any sequence of calls on a new store whose breaker is closed, the counted errors are
-- fewer than the threshold: no sequence leaves a full count behind a closed breaker.
pub run_below_threshold :
    (threshold cooldown : ℕ) (cs : List Call)
    → (run (Resting.new_resting threshold cooldown) cs).cb_open ≡ false
    → (run (Resting.new_resting threshold cooldown) cs).consecutive_errors
      < (run (Resting.new_resting threshold cooldown) cs).cb_threshold
unfolding Resting.new_resting
run_below_threshold threshold cooldown cs e =
    let pos = positive_or-pos threshold 8 (omega arith) in
    let start : IsBelow (Resting.new_resting threshold cooldown) = record {
      positive = pos;
      below = λ z. pos;
    } in
    (run-IsBelow _ cs start).below e

-- Errors that the database is busy, one after another, with nothing between them.
unfoldable pub fail_all : Resting → FetchError → List ℕ → Resting
fail_all s err [] = s
fail_all s err (now ∷ times) = fail_all (Resting.record_query_err s false (some err) now) err times

fail_one :
    (s : Resting) (err : FetchError) (now : ℕ)
    → Resting.is_db_busy_error (some err) ≡ true
    → s.cb_open ≡ leb s.cb_threshold s.consecutive_errors
    → let s' = Resting.record_query_err s false (some err) now in
      (s'.cb_threshold ≡ s.cb_threshold)
      × (s'.consecutive_errors ≡ s.consecutive_errors + 1)
      × (s'.cb_open ≡ leb s.cb_threshold (s.consecutive_errors + 1))
unfolding Resting.record_query_err Resting.record_db_busy
fail_one s err now busy e = elim (Bool-cases (leb s.cb_threshold (s.consecutive_errors + 1))) [
  | inl full ↦ rw (busy, full) (refl, refl, refl)
  | inr room ↦ rw (busy, room) (refl, refl, ground arith)
]

fail_all_opens :
    (s : Resting) (err : FetchError) (times : List ℕ)
    → Resting.is_db_busy_error (some err) ≡ true
    → s.cb_open ≡ leb s.cb_threshold s.consecutive_errors
    → (fail_all s err times).cb_open ≡ leb s.cb_threshold (s.consecutive_errors + length times)
unfolding fail_all
fail_all_opens s err [] busy e = ground arith
fail_all_opens s err (now ∷ times) busy e =
    let s' = Resting.record_query_err s false (some err) now in
    let (same, one_more, Opened) = fail_one s err now busy e in
    let ih = fail_all_opens s' err times busy (rw (same, one_more) Opened) in
    ih ∙ rw (same, one_more) (ground arith)

-- With a positive threshold: from a closed breaker without errors, busy errors in a row open it
-- exactly when there are at least `cb_threshold` of them, whatever the times.
pub fail_all-threshold :
    (s : Resting) (err : FetchError) (times : List ℕ)
    → Resting.is_db_busy_error (some err) ≡ true
    → 0 < s.cb_threshold
    → s.cb_open ≡ false
    → s.consecutive_errors ≡ 0
    → (fail_all s err times).cb_open ≡ leb s.cb_threshold (length times)
fail_all-threshold s err times busy pos closed zero_errors =
    ground (arith, fail_all_opens s err times busy (ground arith))

-- With a cooldown below 2^63: a tripped breaker rests up to the end of its cooldown and names the
-- time that is left; asked later it is closed again and has forgotten its errors.
pub trip_cooldown_rests :
    (s : Resting) (d now later : ℕ)
    → positive_or d s.cb_cooldown < 2 ^ 63
    → let tripped = Resting.trip_cooldown s d now in
      let end = now + positive_or d s.cb_cooldown in
      ((Resting.is_resting tripped later).1 ≡ leb later end)
      × (Resting.cooldown_remaining tripped later ≡ end - later)
      × ((Resting.is_resting tripped (end + 1)).0 ≡ Resting.reset_circuit_breaker tripped)
unfolding Resting.trip_cooldown Resting.is_resting Resting.cooldown_remaining
    Resting.reset_circuit_breaker
trip_cooldown_rests s d now later h =
    let flat : add_duration now (positive_or d s.cb_cooldown) ≡ now + positive_or d s.cb_cooldown =
      unfold add_duration in ground arith in
    rw flat (ground arith, refl, ground arith)
