-- ===== src/Orchestrator/Race.antt =====
-- internal/orchestrator/race.go: the data of a race, and the choice of its winner.
pub mod Scan
pub mod Winner
use lyrics_plus.Common.{
  ℕ, zero, suc, ◌+◌, Bool, true, false, not, ◌&&◌, Option, none, some, List, [], ◌∷◌, ◌++◌, String,
  str_eq, ltb, leb, ◌==◌, if◌then◌else◌, Dict, lookup, insert,
}
use lyrics_plus.Domain.{LyricsResponse}
use lyrics_plus.Domain.Query.{is_empty}

pub data Status : Type 0 where
  unset ok skip wait cancel rto bad : Status

pub data RaceError : Type 0 where
  unavailable overloaded breaker_open fetch_error : RaceError

-- The fields that a race decides by. (`Elapsed`, `Pipeline` and `SourcesStatus` are set for
-- display.)
pub record Result : Type 0 where
  pub source : String
  pub resp : Option LyricsResponse
  pub priority : ℕ
  pub err : Option RaceError
  pub status : Status

abbrev pub empty_result : Result
empty_result = record { source = ""; resp = none; priority = 0; err = none; status = unset }

-- `res.Resp != nil && len(res.Resp.Lyrics) > 0`
unfoldable pub has_lyrics : Result → Bool
unfolding is_empty
has_lyrics r = elim r.resp [ none ↦ false | some resp ↦ not (is_empty resp.lyrics) ]

-- The map `idx`: a name that stands twice keeps its last position.
unfoldable pub last_index : String → ℕ → List String → Option ℕ
last_index k i [] = none
last_index k i (n ∷ ns) =
    let later = last_index k (suc i) ns in
    elim later [ some j ↦ some j | none ↦ if str_eq n k then some i else none ]

unfoldable pub name_order : List String → String → ℕ
unfolding last_index
name_order names source = elim (last_index source 0 names) [
  | some i ↦ i
  | none ↦
      if str_eq source "qaple"
      then (elim (last_index "lyricsplus" 0 names) [ some i ↦ i | none ↦ 999 ])
      else 999
]

-- The first loop of `pickWinner`: the best priority so far (none for -1) and the results with it.
unfoldable pub scan : Option ℕ → List Result → List (Option Result) → Option ℕ × List Result
scan top best [] = (top, best)
scan top best (none ∷ rs) = scan top best rs
scan none best (some r ∷ rs) = scan (some r.priority) (r ∷ []) rs
scan (some b) best (some r ∷ rs) = elim (ltb b r.priority) [
  | true ↦ scan (some r.priority) (r ∷ []) rs
  | false ↦ scan (some b) (if r.priority == b then best ++ (r ∷ []) else best) rs
]

-- The loop for a best priority of at most 0.
unfoldable pub first_with_lyrics : List (Option Result) → Option Result
unfolding has_lyrics
first_with_lyrics [] = none
first_with_lyrics (none ∷ rs) = first_with_lyrics rs
first_with_lyrics (some r ∷ rs) = if has_lyrics r then some r else first_with_lyrics rs

-- The last loop: the earliest name among the best.
unfoldable pub earlier : List String → Result → Result → Result
earlier names w r = if ltb (name_order names r.source) (name_order names w.source) then r else w

unfoldable pub earliest : List String → Result → List Result → Result
unfolding earlier
earliest names w [] = w
earliest names w (r ∷ rs) = earliest names (earlier names w r) rs

unfoldable pub choose : List String → List (Option Result) → Option ℕ × List Result → Option Result
choose names results (none, best) = first_with_lyrics results
choose names results (some zero, best) = first_with_lyrics results
choose names results (some (suc b), []) = none
choose names results (some (suc b), w ∷ rs) = some (earliest names w rs)

unfoldable pub pick_winner : List (Option Result) → List String → Option Result
pick_winner results names = choose names results (scan none [] results)
