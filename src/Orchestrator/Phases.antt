-- ===== src/Orchestrator/Phases.antt =====
-- internal/orchestrator/race.go: the phases of a race and `Race` itself. What reaches a phase that
-- waits is a list of events; a phase for which the list is too short is still waiting.
pub mod Bounds
use lyrics_plus.Common.{
  ℕ, zero, suc, ◌+◌, ◌≤◌, ◌≡◌, Bool, true, false, not, ◌&&◌, ◌||◌, Option, none, some, List, [],
  ◌∷◌, map, String, str_eq, leb, ltb, ◌==◌, if◌then◌else◌, length, take, drop, replicate, set,
}
use lyrics_plus.Domain.Query.{SearchQuery, is_empty}
use lyrics_plus.Orchestrator.Limiter.{Semaphore}
use lyrics_plus.Orchestrator.Grade.{source_order, priority_line, priority_word}
use lyrics_plus.Orchestrator.Race.{Result, empty_result, last_index, pick_winner}
use lyrics_plus.Orchestrator.Session
use lyrics_plus.Orchestrator.Session.{Fetch, fetch_result}

-- The names without those that `Race` leaves out of its third phase.
unfoldable pub word_sources {ℓ} : {A : Type ℓ} → List (String × A) → List (String × A)
word_sources [] = []
word_sources ((n, now) ∷ ns) =
    let rest = word_sources ns in
    if str_eq n "musixmatch" || str_eq n "spotify" then rest else (n, now) ∷ rest

-- The result that `Race` keeps of its first and its second phase.
unfoldable pub better_of : Option Result → Option Result → Option Result
better_of p1 none = p1
better_of none (some p2) = some p2
better_of (some p1) (some p2) = if ltb p1.priority p2.priority then some p2 else some p1

abbrev pub priority_of : Option Result → ℕ
priority_of none = 0
priority_of (some r) = r.priority

module _ (S : Semaphore) where
  -- What reaches a phase that waits: a fetch ends and sends its result (`late`: it belongs to an
  -- earlier phase, which no longer reads), or the caller's context is done.
  pub data Event : Type 0 where
    fetched : String → Fetch → Event
    late : String → Fetch → Event
    caller_done : Event

  pub record PhaseEnd : Type 0 where
    pub outcome : Option Result
    pub session : Session.Session S
    pub events : List Event
    pub caller_gone : Bool

  -- The loop of `runPhase`, with the number of results that are still to come; none while the
  -- phase waits for an event that the list does not hold.
  unfoldable pub collect :
      List String → ℕ → List (Option Result) → Session.Session S → List Event → Option PhaseEnd
  collect names zero results s es = some (record {
    outcome = pick_winner results names;
    session = s;
    events = es;
    caller_gone = false;
  })
  collect names (suc n) results s [] = none
  collect names (suc n) results s (caller_done ∷ es) =
      some (record {
        outcome = pick_winner results names;
        session = s;
        events = es;
        caller_gone = true;
      })
  collect names (suc n) results s (late name f ∷ es) =
      collect names (suc n) results (Session.settle S s name f) es
  collect names (suc n) results s (fetched name f ∷ es) =
      let r = fetch_result name f in
      let s' = Session.settle S s name f in
      let results' : List (Option Result) = elim (last_index name 0 names) [
        | none ↦ results
        | some i ↦ set results i (some r)
      ] in
      elim (leb 3 r.priority) [
        | true ↦ some (record { outcome = some r; session = s'; events = es; caller_gone = false })
        | false ↦ collect names n results' s' es
      ]

  unfoldable pub begin_all : Session.Session S → List String → Session.Session S
  begin_all s [] = s
  begin_all s (n ∷ ns) = begin_all (Session.begin_fetch S s n) ns

  -- `runPhase` behind its launching loop: with nothing launched there is no outcome.
  unfoldable pub await_phase :
      List String → List String → Session.Session S → List Event → Option PhaseEnd
  await_phase names [] s es =
      some (record { outcome = none; session = s; events = es; caller_gone = false })
  await_phase names (n ∷ ns) s es =
      collect names (length (n ∷ ns)) (replicate (length names) none) (begin_all s (n ∷ ns)) es

  -- `runPhase`
  unfoldable pub run_phase : Session.Session S → List (String × ℕ) → List Event → Option PhaseEnd
  unfolding await_phase
  run_phase s names es =
      let (s', launched) = Session.launch S s names in
      await_phase (map (λ p. p.0) names) launched s' es

  -- The loop of `raceForPriority`
  unfoldable pub await_priority : ℕ → ℕ → Session.Session S → List Event → Option PhaseEnd
  await_priority want zero s es =
      some (record { outcome = none; session = s; events = es; caller_gone = false })
  await_priority want (suc n) s [] = none
  await_priority want (suc n) s (caller_done ∷ es) =
      some (record { outcome = none; session = s; events = es; caller_gone = true })
  await_priority want (suc n) s (late name f ∷ es) =
      await_priority want (suc n) (Session.settle S s name f) es
  await_priority want (suc n) s (fetched name f ∷ es) =
      elim (leb want (fetch_result name f).priority) [
        | true ↦ some (record {
          outcome = some (fetch_result name f);
          session = Session.settle S s name f;
          events = es;
          caller_gone = false;
        })
        | false ↦ await_priority want n (Session.settle S s name f) es
      ]

  unfoldable pub await_word : List String → ℕ → Session.Session S → List Event → Option PhaseEnd
  await_word [] want s es =
      some (record { outcome = none; session = s; events = es; caller_gone = false })
  await_word (n ∷ ns) want s es = await_priority want (length (n ∷ ns)) (begin_all s (n ∷ ns)) es

  -- `raceForPriority`
  unfoldable pub race_for_priority :
      Session.Session S → List (String × ℕ) → ℕ → List Event → Option PhaseEnd
  unfolding await_word
  race_for_priority s names want es =
      let (s', launched) = Session.launch S s names in await_word launched want s' es

  -- `finalize`, with the session that holds the statuses beside the result.
  unfoldable pub finalize : Option Result → Session.Session S → Result × Session.Session S
  finalize none s = (empty_result, s)
  finalize (some r) s = (r, s)

  -- The third phase of `Race`, for a first phase that found lines only.
  unfoldable pub word_phase :
      Option Result
      → Session.Session S
      → List (String × ℕ)
      → List Event
      → Option (Result × Session.Session S)
  word_phase p1 s [] es = some (finalize p1 s)
  word_phase p1 s (n ∷ ns) es = elim (race_for_priority s (n ∷ ns) priority_word es) [
    | none ↦ none
    | some e3 ↦ some (finalize (elim e3.outcome [ none ↦ p1 | some p3 ↦ some p3 ]) e3.session)
  ]

  unfoldable pub second_phase :
      Option Result
      → Session.Session S
      → List (String × ℕ)
      → List Event
      → Option (Result × Session.Session S)
  second_phase p1 s remaining es = elim (run_phase s remaining es) [
    | none ↦ none
    | some e2 ↦ some (finalize (better_of p1 e2.outcome) e2.session)
  ]

  -- What follows the first phase. `is_done` is `ctx.Err() != nil` at that point.
  unfoldable pub after_first :
      Bool → PhaseEnd → List (String × ℕ) → Option (Result × Session.Session S)
  unfolding word_phase second_phase
  after_first is_done e1 remaining =
      let p1 = e1.outcome in
      if leb priority_word (priority_of p1)
      then some (finalize p1 e1.session)
      else if is_empty remaining || (e1.caller_gone || is_done)
      then some (finalize p1 e1.session)
      else if priority_of p1 == priority_line
      then word_phase p1 e1.session (word_sources remaining) e1.events
      else second_phase p1 e1.session remaining e1.events

  -- `Race` over the order of the sources, each name with the clock's reading when it is launched.
  unfoldable pub race_order :
      Session.Session S
      → List (String × ℕ)
      → Bool
      → List Event
      → Option (Result × Session.Session S)
  race_order s order is_done es = elim (run_phase s (take 2 order) es) [
    | none ↦ none
    | some e1 ↦ after_first is_done e1 (drop 2 order)
  ]

  unfoldable pub race :
      Session.Session S
      → SearchQuery
      → List String
      → (String → ℕ)
      → Bool
      → List Event
      → Option (Result × Session.Session S)
  race s q preferred now is_done es =
      race_order s (map (λ n. (n, now n)) (source_order q preferred)) is_done es
