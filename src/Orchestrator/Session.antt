-- ===== src/Orchestrator/Session.antt =====
-- internal/orchestrator/race.go: a race session. Every call of the environment (a fetch that ends,
-- a caller that goes away) is an event with the clock's reading; the session passes through its
-- state. Metrics, logging and the saver's call are left out.
pub mod Statuses
pub mod Admission
use lyrics_plus.Common.{
  ℕ, zero, suc, ◌+◌, ◌-◌, ◌≤◌, ◌≡◌, Bool, true, false, not, ◌&&◌, ◌||◌, Option, none, some, List,
  [], ◌∷◌, ◌++◌, map, String, str_eq, leb, ltb, ◌==◌, if◌then◌else◌, Dict, lookup, insert, length,
  take, drop, replicate, set,
}
use lyrics_plus.Common.Text.{codes, contains}
use lyrics_plus.Domain.{LyricsResponse, ProcessTiming}
use lyrics_plus.Domain.Query.{SearchQuery, is_empty}
use lyrics_plus.Orchestrator.Breaker.{Breaker, allow, report, neutral}
use lyrics_plus.Orchestrator.Limiter
use lyrics_plus.Orchestrator.Limiter.{Semaphore}
use lyrics_plus.Orchestrator.Grade.{grade, source_order}
use lyrics_plus.Orchestrator.Health.{FetchError, is_health_failure}
use lyrics_plus.Orchestrator.Race.{
  Status, unset, ok, skip, wait, cancel, rto, bad, RaceError, fetch_error, Result, empty_result,
  has_lyrics, last_index, pick_winner,
}

pub record SourceOutcome : Type 0 where
  pub status : Status
  pub elapsed_ms : ℕ
  pub degraded : Bool

abbrev pub is_ok : Status → Bool
is_ok ok = true
is_ok _ = false

unfoldable pub record_status : Dict SourceOutcome → String → Status → ℕ → Dict SourceOutcome
record_status m name status ms =
    let st : SourceOutcome = record { status = status; elapsed_ms = ms; degraded = false } in
    elim (lookup name m) [
      | none ↦ insert name st m
      | some prev ↦ if is_ok prev.status then m else insert name st m
    ]

unfoldable pub mark_degraded : Dict SourceOutcome → String → Dict SourceOutcome
mark_degraded m name = elim (lookup name m) [
  | none ↦ m
  | some st ↦ if is_ok st.status then m else insert name (record st { degraded = true }) m
]

-- A source may have no method `Configured`; then it is configured.
pub record Source : Type 0 where
  pub configured : Bool

-- How a call of `FetchLyrics` ended: its results, the state of the two contexts, the clock.
pub record Fetch : Type 0 where
  pub resp : Option LyricsResponse
  pub err : Option FetchError
  pub ctx_canceled : Bool
  pub req_canceled : Bool
  pub req_deadline_exceeded : Bool
  pub elapsed_ms : ℕ
  pub now : ℕ

unfoldable pub fetch_has_lyrics : Option LyricsResponse → Bool
unfolding is_empty
fetch_has_lyrics none = false
fetch_has_lyrics (some r) = not (is_empty r.lyrics)

unfoldable pub err_is : (FetchError → Bool) → Option FetchError → Bool
err_is test none = false
err_is test (some e) = test e

abbrev is_none {ℓ} : {A : Type ℓ} → Option A → Bool
is_none none = true
is_none (some x) = false

-- The `switch` on the outcome of a fetch.
unfoldable pub classify : Fetch → Status
unfolding fetch_has_lyrics err_is
classify f =
    if is_none f.err && fetch_has_lyrics f.resp
    then ok
    else if err_is (λ e. e.is_canceled) f.err || (f.ctx_canceled || f.req_canceled)
    then cancel
    else if err_is (λ e. e.is_deadline_exceeded) f.err || f.req_deadline_exceeded
    then rto
    else bad

unfoldable pub timing_winner : Option ProcessTiming → Option String
timing_winner none = none
timing_winner (some t) = elim t.winner_source [
  | none ↦ none
  | some w ↦ if str_eq w "" then none else some w
]

-- The source that a response with lyrics is credited to.
unfoldable pub credited_source : String → LyricsResponse → String
unfolding timing_winner
credited_source name r = elim (timing_winner r.processing_time) [
  | some w ↦ w
  | none ↦ if contains r.metadata.source (codes "with QQ") then "qaple" else name
]

unfoldable pub fetch_result : String → Fetch → Result
fetch_result name f =
    let plain : Result = record {
      source = name;
      resp = f.resp;
      priority = 0;
      err = elim f.err [ none ↦ none | some e ↦ some fetch_error ];
      status = classify f;
    } in
    elim (classify f) [
      | ok ↦ elim f.resp [
        | none ↦ plain
        | some r ↦ record plain {
          source = credited_source name r;
          priority = grade (some r) (credited_source name r);
        }
      ]
      | _ ↦ plain
    ]

-- Whether the second `switch` marks the source as degraded, and what it tells the breaker: a
-- success, a failure, or nothing (`Neutral`).
unfoldable pub counts_as_failure : Fetch → Bool
counts_as_failure f = elim (classify f) [
  | ok ↦ false
  | cancel ↦ false
  | rto ↦ true
  | _ ↦ is_health_failure f.err
]

unfoldable pub tell_breaker : Option Breaker → String → Fetch → Option Breaker
unfolding counts_as_failure
tell_breaker b name f = elim (classify f) [
  | cancel ↦ neutral b name
  | _ ↦ report b name (not (counts_as_failure f)) f.now
]

module _ (S : Semaphore) where
  pub record Session : Type 0 where
    pub sources : Dict Source
    pub statuses : Dict SourceOutcome
    pub breaker : Option Breaker
    pub limiter : Option (Limiter.Limiter S)

  unfoldable pub note : Session → String → Status → ℕ → Session
  note s name status ms = record s { statuses = record_status s.statuses name status ms }

  unfoldable pub degrade : Session → String → Session
  degrade s name = record s { statuses = mark_degraded s.statuses name }

  unfoldable pub breaker_allows : Session → String → ℕ → Session × Bool
  breaker_allows s name now =
      let (b, admitted) = allow s.breaker name now in
      let s' = record s { breaker = b } in
      if admitted then (s', true) else (degrade (note s' name skip 0) name, false)

  -- `TryAcquire`, and on refusal `skipOverloaded` and `Neutral`.
  unfoldable pub limiter_allows : Session → String → Session × Bool
  limiter_allows s name =
      let (l, admitted) = Limiter.acquire_permits S Limiter.trying Limiter.trying s.limiter name in
      let s' = record s { limiter = l } in
      if admitted
      then (s', true)
      else (let s'' = degrade (note s' name skip 0) name in
          (record s'' { breaker = neutral s''.breaker name }, false))

  -- The body of the loop that launches a phase: whether the name is launched.
  unfoldable pub admit : Session → String → ℕ → Session × Bool
  admit s name now = elim (lookup name s.sources) [
    | none ↦ (s, false)
    | some src ↦
        if not src.configured
        then (note s name skip 0, false)
        else (let (s', admitted) = breaker_allows s name now in
            if admitted then limiter_allows s' name else (s', false))
  ]

  -- The loop over the names of a phase, each with the clock's reading.
  unfoldable pub launch : Session → List (String × ℕ) → Session × List String
  launch s [] = (s, [])
  launch s ((name, now) ∷ names) =
      let (s', admitted) = admit s name now in
      let (s'', launched) = launch s' names in (s'', if admitted then name ∷ launched else launched)

  -- `tryFetch` of a launched source, from its call of `FetchLyrics` on; the deferred release ends
  -- it.
  unfoldable pub begin_fetch : Session → String → Session
  begin_fetch s name = note s name wait 0

  unfoldable pub settle : Session → String → Fetch → Session
  settle s name f =
      let s' = note s name (classify f) f.elapsed_ms in
      let s'' = if counts_as_failure f then degrade s' name else s' in
      record s'' {
        breaker = tell_breaker s''.breaker name f;
        limiter = Limiter.release_permits S s''.limiter name;
      }
