-- ===== src/Tests/Dedup.antt =====
-- The key tracker of internal/orchestrator/singleflight.go at a small schedule.
use lyrics_plus.Common.{
  ◌-◌, ◌≡◌, refl, none, some, List, [], ◌∷◌, ◌==◌, if◌then◌else◌, lookup, insert, delete,
}
use lyrics_plus.Orchestrator.Dedup.{new_key_tracker, enter, leave, register_cancel}
use lyrics_plus.Orchestrator.Dedup.Schedule.{
  Event, enters, leaves, registers, step, run, initial, entry, IsSound, run_counts_callers,
  leave_last,
}

abbrev two_callers : List Event
two_callers = enters "k" ∷ registers "k" 7 ∷ enters "k" ∷ enters "j" ∷ leaves "k" ∷ []

registered : lookup "k" (run initial two_callers).tracker.cancels ≡ some 7
unfolding run step enter leave register_cancel new_key_tracker lookup insert delete
registered = refl

last_leaves : (leave (run initial two_callers).tracker "k").called ≡ 7 ∷ []
unfolding run step enter leave register_cancel new_key_tracker lookup insert delete
last_leaves = refl

run_counts_callers_example : IsSound (run initial two_callers)
run_counts_callers_example = run_counts_callers two_callers

leave_last_example :
    let t = (run initial two_callers).tracker in
    let n = (run initial two_callers).callers "k" in
    ((leave t "k").called ≡ (if n == 1 then 7 ∷ t.called else t.called))
    × (lookup "k" (leave t "k").waiters ≡ entry (n - 1))
    × (lookup "k" (leave t "k").cancels ≡ (if n == 1 then none else some 7))
leave_last_example = leave_last two_callers "k" 7 registered
