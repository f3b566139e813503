-- ===== src/Tests/Session.antt =====
-- A race of internal/orchestrator/race.go with two phases, over the counting semaphore.
use lyrics_plus.Common.{
  ℕ, ◌≤◌, ◌<◌, ◌≡◌, ◌≢◌, refl, ◌⊎◌, true, false, Option, none, some, List, [], ◌∷◌, String, lookup,
  insert, length, take, lt_i64, positive_or, add_duration, arith,
}
use lyrics_plus.Common.Text.{contains, to_lower, text_eq}
use lyrics_plus.Domain.Query.{is_empty}
use lyrics_plus.Orchestrator.Breaker.{
  BreakerConfig, new_breaker, allow, report, allow_state, report_state, neutral, cooldown, state,
  put_state,
}
use lyrics_plus.Orchestrator.Limiter
use lyrics_plus.Orchestrator.Limiter.{LimiterConfig}
use lyrics_plus.Orchestrator.Limiter.Permits
use lyrics_plus.Orchestrator.Limiter.Accounts.{new_limiter-Counts}
use lyrics_plus.Orchestrator.Race.{
  Result, ok, cancel, bad, empty_result, pick_winner, scan, choose, earliest, first_with_lyrics,
  name_order, last_index,
}
use lyrics_plus.Orchestrator.Grade.{
  grade, is_word_type, content_trusted, has_syllable_sync, any_syllabus,
}
use lyrics_plus.Orchestrator.Health.{is_health_failure}
use lyrics_plus.Orchestrator.Session
use lyrics_plus.Orchestrator.Session.{
  Fetch, SourceOutcome, is_ok, classify, counts_as_failure, tell_breaker, fetch_result,
}
use lyrics_plus.Orchestrator.Session.Admission
use lyrics_plus.Orchestrator.Phases
use lyrics_plus.Orchestrator.Phases.{priority_of}
use lyrics_plus.Orchestrator.Phases.Bounds
use lyrics_plus.Tests.Limiter.{counting}
use lyrics_plus.Tests.Keys.{line_response}

abbrev configured : Session.Source
configured = record { configured = true }

abbrev cfg : BreakerConfig
cfg = record { threshold = 3; base_cooldown = 10; max_cooldown = 35; probe_timeout = 5 }

abbrev limits : LimiterConfig
limits = record { global = 2; per_source = 1; wait = 0; default_per_source = 0 }

abbrev start : Session.Session counting
start = record {
  sources = ("apple", configured) ∷ ("qq", configured) ∷ ("deezer", configured) ∷ [];
  statuses = [];
  breaker = some (new_breaker cfg);
  limiter = some (Limiter.new_limiter counting limits);
}

abbrev no_lyrics : Fetch
no_lyrics = record {
  resp = none;
  err = none;
  ctx_canceled = false;
  req_canceled = false;
  req_deadline_exceeded = false;
  elapsed_ms = 12;
  now = 100;
}

program : Unit {0}
unfolding Session.launch Session.admit Session.breaker_allows Session.limiter_allows Session.note
    Session.degrade Session.settle Session.record_status Session.mark_degraded Session.tell_breaker
    classify fetch_result Session.begin_fetch Session.credited_source Phases.run_phase
    Phases.begin_all Phases.collect Phases.await_phase Phases.race_for_priority
    Phases.await_priority Phases.race_order Phases.after_first Phases.finalize Phases.better_of
    Phases.word_sources allow report allow_state report_state neutral state put_state new_breaker
    lookup insert lt_i64 positive_or cooldown add_duration Limiter.acquire_permits
    Limiter.release_permits Limiter.new_limiter Limiter.take_source Limiter.take_global
    Limiter.source_sem Limiter.put_source Limiter.note_reject Limiter.rejected_of Limiter.attempt
    Limiter.release_source Limiter.release_global pick_winner scan choose earliest first_with_lyrics
    name_order last_index grade is_word_type content_trusted has_syllable_sync any_syllabus
    is_health_failure is_empty contains to_lower text_eq Bounds.results_in
program = tt

abbrev order : List (String × ℕ)
order = ("apple", 50) ∷ ("qq", 50) ∷ ("deezer", 60) ∷ []

abbrev events : List (Phases.Event counting)
events =
    Phases.fetched "apple" no_lyrics
    ∷ Phases.fetched "qq" no_lyrics
    ∷ Phases.fetched "deezer" (record no_lyrics { resp = some line_response })
    ∷ []

abbrev ok_entry : SourceOutcome
ok_entry = record { status = ok; elapsed_ms = 30; degraded = false }

is_bad : classify no_lyrics ≡ bad
unfolding classify
is_bad = refl

bad_ne_cancel : classify no_lyrics ≢ cancel
bad_ne_cancel h = cc is_bad

no_failure : counts_as_failure no_lyrics ≡ false
unfolding counts_as_failure classify is_health_failure
no_failure = refl

admit-Admitted_fact :
    Admission.Admitted counting
      (positive_or 2 256)
      (positive_or 1 64)
      0
      (λ k. 0)
      "qq"
      (Session.admit counting start "qq" 50)
admit-Admitted_fact =
    Admission.admit-Admitted counting (positive_or 2 256) (positive_or 1 64) 0 (λ k. 0) start "qq"
      50 (new_limiter-Counts counting limits)

abbrev one_out : String → ℕ
one_out = Permits.plus_one counting "qq" (λ k. 0)

admitted-Books :
    Admission.Books counting
      (positive_or 2 256)
      (positive_or 1 64)
      1
      one_out
      (Session.admit counting start "qq" 50).0.limiter
unfolding program
admitted-Books = admit-Admitted_fact

-- What the settling of a phase needs of the limiter.
launched : length (Session.launch counting start (take 2 order)).1 ≡ 2
unfolding program
launched = refl

phases_end_example :
    ((e : Phases.PhaseEnd counting) × (Phases.run_phase counting start (take 2 order) events
        ≡ some e))
    × ((e : Phases.PhaseEnd counting) × (Phases.race_for_priority counting start
            (take 2 order)
            3
            events
          ≡ some e))
unfolding program
phases_end_example = Bounds.phases_end counting start (take 2 order) 3 events (omega arith)

abbrev end_of : Option (Phases.PhaseEnd counting) → Phases.PhaseEnd counting
end_of none = record { outcome = none; session = start; events = []; caller_gone = false }
end_of (some e) = e

abbrev first_end : Phases.PhaseEnd counting
first_end = end_of (Phases.run_phase counting start (take 2 order) events)

first_phase : Phases.run_phase counting start (take 2 order) events ≡ some first_end
unfolding program
first_phase = refl

abbrev race_of : Option (Result × Session.Session counting) → Result × Session.Session counting
race_of none = (empty_result, start)
race_of (some r) = r

abbrev won : Result × Session.Session counting
won = race_of (Phases.race_order counting start order false events)

whole_race : Phases.race_order counting start order false events ≡ some won
unfolding program
whole_race = refl

won_by_deezer : won.0.source ≡ "deezer"
unfolding program
won_by_deezer = refl

race_order-first_phase_example :
    (priority_of first_end.outcome ≤ won.0.priority)
    × ((priority_of first_end.outcome < 3)
        ⊎ ((some won.0 ≡ first_end.outcome) × (won.1 ≡ first_end.session)))
race_order-first_phase_example =
    Bounds.race_order-first_phase counting start order false events first_end won.0 won.1
      first_phase whole_race
