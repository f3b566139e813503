-- ===== src/Tests/Race.antt =====
-- Winners of internal/orchestrator/race.go at concrete results.
use lyrics_plus.Common.{◌≡◌, refl, Option, none, some, List, [], ◌∷◌, String}
use lyrics_plus.Orchestrator.Race.{
  Result, ok, bad, name_order, pick_winner, earliest, scan, choose, first_with_lyrics,
}
use lyrics_plus.Orchestrator.Race.Scan.{Arrived}
use lyrics_plus.Orchestrator.Race.Winner.{Beats, pick_winner_best}

abbrev line_result : String → Result
line_result name = record { source = name; resp = none; priority = 2; err = none; status = ok }

abbrev failed_result : String → Result
failed_result name = record { source = name; resp = none; priority = 0; err = none; status = bad }

abbrev arrived : List (Option Result)
arrived =
    some (line_result "qaple") ∷ none ∷ some (line_result "apple") ∷ some (failed_result "qq") ∷ []

abbrev names : List String
names = "lyricsplus" ∷ "deezer" ∷ "apple" ∷ "qq" ∷ []

-- "qaple" stands for "lyricsplus" in the order of the names.
arrived_winner : pick_winner arrived names ≡ some (line_result "qaple")
unfolding pick_winner earliest scan choose name_order
arrived_winner = refl

pick_winner_best_example :
    Arrived arrived (line_result "qaple") × Beats names (line_result "qaple") (line_result "apple")
pick_winner_best_example =
    pick_winner_best names arrived (line_result "qaple") (line_result "apple") arrived_winner
      (2, refl)

all_failed : pick_winner (none ∷ some (failed_result "qq") ∷ []) ("apple" ∷ "qq" ∷ []) ≡ none
unfolding pick_winner scan choose first_with_lyrics
all_failed = refl
