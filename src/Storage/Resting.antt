-- ===== src/Storage/Resting.antt =====
-- internal/storage/store.go: the store's circuit breaker over its database. A section under
-- `cbMu` is one step; the clock's reading is an argument.
pub mod Calls
use lyrics_plus.Common.{
  ℕ, ◌+◌, ◌-◌, Bool, true, false, not, ◌&&◌, ◌||◌, Option, none, some, List, [], ◌∷◌, leb, ltb,
  ◌==◌, if◌then◌else◌, lt_i64, add_duration, positive_or,
}
use lyrics_plus.Common.Text.{Text, codes, contains, to_lower}
use lyrics_plus.Orchestrator.Health.{FetchError}

-- The fields of `Store` that the circuit breaker keeps.
pub record Resting : Type 0 where
  pub cb_open : Bool
  pub cb_open_until : ℕ
  pub consecutive_errors : ℕ
  pub cb_threshold : ℕ
  pub cb_cooldown : ℕ

-- Those fields in `NewStore`, from the two settings.
unfoldable pub new_resting : ℕ → ℕ → Resting
new_resting threshold cooldown = record {
  cb_open = false;
  cb_open_until = 0;
  consecutive_errors = 0;
  cb_threshold = positive_or threshold 8;
  cb_cooldown = positive_or cooldown 15_000_000_000;
}

unfoldable pub is_db_busy_error : Option FetchError → Bool
is_db_busy_error none = false
is_db_busy_error (some e) =
    if e.is_canceled
    then false
    else if e.is_deadline_exceeded
    then true
    else (let msg = to_lower e.message in
        contains msg (codes "busy")
        || contains msg (codes "locked")
        || contains msg (codes "timeout")
        || contains msg (codes "cannot start a transaction within a transaction")
        || contains msg (codes "bad connection"))

-- `IsResting` without another call between its two locks
unfoldable pub is_resting : Resting → ℕ → Resting × Bool
is_resting s now =
    if not s.cb_open
    then (s, false)
    else if ltb s.cb_open_until now
    then (record s { cb_open = false; consecutive_errors = 0 }, false)
    else (s, true)

unfoldable pub cooldown_remaining : Resting → ℕ → ℕ
cooldown_remaining s now = if not s.cb_open then 0 else s.cb_open_until - now

unfoldable pub trip_cooldown : Resting → ℕ → ℕ → Resting
trip_cooldown s d now = record s {
  cb_open = true;
  cb_open_until = add_duration now (positive_or d s.cb_cooldown);
}

unfoldable pub reset_circuit_breaker : Resting → Resting
reset_circuit_breaker s = record s { cb_open = false; consecutive_errors = 0 }

unfoldable pub record_db_busy : Resting → Option FetchError → ℕ → Resting
record_db_busy s err now =
    if not (is_db_busy_error err)
    then s
    else (let errors = s.consecutive_errors + 1 in
        if leb s.cb_threshold errors
        then record s {
          consecutive_errors = errors;
          cb_open = true;
          cb_open_until = add_duration now s.cb_cooldown;
        }
        else record s { consecutive_errors = errors })

-- `recordQueryErr`; `is_done` is `ctx != nil && ctx.Err() != nil`
unfoldable pub record_query_err : Resting → Bool → Option FetchError → ℕ → Resting
unfolding record_db_busy
record_query_err s is_done none now = s
record_query_err s is_done (some e) now = if is_done then s else record_db_busy s (some e) now

unfoldable pub record_db_success : Resting → Resting
record_db_success s = if s.consecutive_errors == 0 then s else record s { consecutive_errors = 0 }
