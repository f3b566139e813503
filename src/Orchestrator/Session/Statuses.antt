-- ===== src/Orchestrator/Session/Statuses.antt =====
-- The status map of a race session, and what its outcomes tell the breaker
-- (internal/orchestrator/race.go).
use lyrics_plus.Common.{
  ℕ, ◌≡◌, ◌≢◌, ◌∙◌, ap, refl, true, false, not, Option, some, List, [], ◌∷◌, String, str_eq, eq_iff,
  Dict, lookup, insert, lookup-insert, Bool-cases, Option-cases, inl, inr, arith,
}
use lyrics_plus.Orchestrator.Breaker.{
  Breaker, BreakerState, state, put_state, allow, allow_state, report_state, report,
}
use lyrics_plus.Orchestrator.Breaker.Calls.{state-put_state}
use lyrics_plus.Orchestrator.Race.{Status, cancel}
use lyrics_plus.Orchestrator.Session.{
  SourceOutcome, is_ok, record_status, mark_degraded, Fetch, classify, counts_as_failure,
  tell_breaker,
}

-- What a session writes into the map.
pub data Write : Type 0 where
  records : String → Status → ℕ → Write
  degrades : String → Write

unfoldable pub write : Dict SourceOutcome → Write → Dict SourceOutcome
write m (records k st ms) = record_status m k st ms
write m (degrades k) = mark_degraded m k

unfoldable pub write_all : Dict SourceOutcome → List Write → Dict SourceOutcome
unfolding write
write_all m [] = m
write_all m (w ∷ ws) = write_all (write m w) ws

-- An insertion under a key that does not hold an OK leaves an OK where it is.
insert_beside :
    (m : Dict SourceOutcome) (j k : String) (st new : SourceOutcome)
    → lookup k m ≡ some st
    → (str_eq j k ≡ false)
    → lookup k (insert j new m) ≡ some st
insert_beside m j k st new h e = rw (lookup-insert j k new m, e) h

found : (m : Dict SourceOutcome) (j k : String) → str_eq j k ≡ true → lookup j m ≡ lookup k m
found m j k e = ap (λ (x : String). lookup x m) ((eq_iff j k).0 e)

write-keeps_ok :
    (m : Dict SourceOutcome) (w : Write) (k : String) (st : SourceOutcome)
    → lookup k m ≡ some st
    → is_ok st.status ≡ true
    → lookup k (write m w) ≡ some st
unfolding write record_status mark_degraded
write-keeps_ok m (records j s ms) k st h e = elim (Bool-cases (str_eq j k)) [
  | inl same ↦ rw (found m j k same ∙ h, record_status) (rw e h)
  | inr other ↦ ground (
    arith,
    insert_beside m j k st (record { status = s; elapsed_ms = ms; degraded = false }) h other,
  )
]
write-keeps_ok m (degrades j) k st h e = elim (Bool-cases (str_eq j k)) [
  | inl same ↦ rw (found m j k same ∙ h, mark_degraded) (rw e h)
  | inr other ↦ elim (Option-cases (lookup j m)) [
    | inl no' ↦ rw (no', mark_degraded) h
    | inr (x, yes') ↦
        rw (yes', mark_degraded)
          (ground (arith, insert_beside m j k st (record x { degraded = true }) h other))
  ]
]

-- A source that has answered OK stays OK with its time, whatever the session writes afterwards
-- about it or about others: no late skip, timeout or degradation hides it.
pub write_all-keeps_ok :
    (m : Dict SourceOutcome) (ws : List Write) (k : String) (st : SourceOutcome)
    → lookup k m ≡ some st
    → is_ok st.status ≡ true
    → lookup k (write_all m ws) ≡ some st
unfolding write_all
write_all-keeps_ok m [] k st h e = h
write_all-keeps_ok m (w ∷ ws) k st h e =
    write_all-keeps_ok (write m w) ws k st (write-keeps_ok m w k st h e) e

tell_breaker-report :
    (b : Option Breaker) (k : String) (f : Fetch)
    → classify f ≢ cancel
    → tell_breaker b k f ≡ report b k (not (counts_as_failure f)) f.now
unfolding tell_breaker
tell_breaker-report b k f h = ground arith

closed_allows :
    (b : Breaker) (k : String) (t now : ℕ) → (allow (report (some b) k true t) k now).1 ≡ true
unfolding allow report report_state allow_state
closed_allows b k t now =
    let s : BreakerState = report_state b.cfg (state b k) true t in
    let e : state (put_state b k s) k ≡ s = rw (state-put_state b k k s, (eq_iff k k).1 refl) in
    rw e

-- A fetch that was not canceled and counts as no failure of its provider (an OK, or an answer
-- without lyrics that shows no sign of bad health) closes its breaker, so that the next call is
-- allowed at any time.
pub tell_breaker_closes :
    (b : Breaker) (k : String) (f : Fetch) (now : ℕ)
    → classify f ≢ cancel
    → counts_as_failure f ≡ false
    → (allow (tell_breaker (some b) k f) k now).1 ≡ true
tell_breaker_closes b k f now h e =
    rw (tell_breaker-report (some b) k f h, e) (closed_allows b k f.now now)
