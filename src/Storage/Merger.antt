-- ===== src/Storage/Merger.antt =====
-- internal/storage/merger.go: which of two versions of stored lyrics is kept. The rows of the
-- target database are a list with their numbers; `fails` says which updates the database refuses;
-- the four counters are those that the decisions change.
pub mod Workers
pub mod Keeps
use lyrics_plus.Common.{
  ℕ, suc, ◌+◌, ◌-◌, ◌*◌, ◌/◌, Bool, true, false, not, ◌&&◌, ◌||◌, Option, none, some, List, [], ◌∷◌,
  map, ltb, leb, ◌==◌, if◌then◌else◌, length, min, lt_i64,
}
use lyrics_plus.Common.Text.{Text, text_eq}
use lyrics_plus.Storage.Codec.{Codecs}
use lyrics_plus.Storage.Quality.{JsonLyrics, detect_lyrics_quality}

pub data Decision : Type 0 where
  skip_same upgrade skip_lower : Decision

-- What a row holds beside its key.
pub record LyricsRow : Type 0 where
  pub content : Text
  pub isrc : Text
  pub platform_id : Text
  pub title : Text
  pub artist : Text
  pub duration_ms : ℕ
  pub created_at : ℕ

-- `src` holds the fields of the source.
pub record ConflictCandidate : Type 0 where
  pub target_id : ℕ
  pub tgt_content : Text
  pub tgt_created_at : ℕ
  pub src : LyricsRow
  pub decision : Decision

pub record MergeStats : Type 0 where
  pub upgraded : ℕ
  pub skipped_same : ℕ
  pub skipped_lower : ℕ
  pub errors : ℕ

abbrev pub Table : Type 0
Table = List (ℕ × LyricsRow)

unfoldable pub find_row : ℕ → Table → Option LyricsRow
find_row id [] = none
find_row id ((first, row) ∷ rest) = if first == id then some row else find_row id rest

-- `UPDATE main.lyrics SET ... WHERE id = ?`
unfoldable pub update_row : ℕ → LyricsRow → Table → Table
update_row id new [] = []
update_row id new ((first, row) ∷ rest) =
    let others = update_row id new rest in
    if first == id then (first, new) ∷ others else (first, row) ∷ others

unfoldable pub newer_or_same : ConflictCandidate → Decision
newer_or_same c = if lt_i64 c.tgt_created_at c.src.created_at then upgrade else skip_same

abbrev pub worker_count : ℕ → ℕ → ℕ
worker_count workers n = if ltb n workers then n else workers

unfoldable pub apply_upgrade : Bool → ConflictCandidate → Table × MergeStats → Table × MergeStats
apply_upgrade true c (t, stats) = (t, record stats { errors = suc stats.errors })
apply_upgrade false c (t, stats) =
    (update_row c.target_id c.src t, record stats { upgraded = suc stats.upgraded })

unfoldable pub apply_decision :
    (ℕ → Bool) → ConflictCandidate → Table × MergeStats → Table × MergeStats
apply_decision fails c (t, stats) = elim c.decision [
  | upgrade ↦ apply_upgrade (fails c.target_id) c (t, stats)
  | skip_same ↦ (t, record stats { skipped_same = suc stats.skipped_same })
  | skip_lower ↦ (t, record stats { skipped_lower = suc stats.skipped_lower })
]

unfoldable pub apply_decisions :
    (ℕ → Bool) → List ConflictCandidate → Table × MergeStats → Table × MergeStats
apply_decisions fails [] s = s
apply_decisions fails (c ∷ cs) s = apply_decisions fails cs (apply_decision fails c s)

module _ (codecs : Codecs) (unmarshal : Text → Option JsonLyrics) where
  abbrev pub rank_of : Text → ℕ
  rank_of content = (detect_lyrics_quality codecs unmarshal content).0

  unfoldable pub decide : ConflictCandidate → Decision
  decide c =
      let src_rank = rank_of c.src.content in
      let tgt_rank = rank_of c.tgt_content in
      if text_eq c.src.content c.tgt_content
      then newer_or_same c
      else if ltb tgt_rank src_rank
      then upgrade
      else if src_rank == tgt_rank
      then newer_or_same c
      else skip_lower

  unfoldable pub evaluate_single_candidate : ConflictCandidate → ConflictCandidate
  evaluate_single_candidate c = record c { decision = decide c }

  -- One goroutine: the candidates from `start` to below `end`, `i` being the place of the first.
  unfoldable pub evaluate_slice : ℕ → ℕ → ℕ → List ConflictCandidate → List ConflictCandidate
  evaluate_slice start end i [] = []
  evaluate_slice start end i (c ∷ cs) =
      let rest = evaluate_slice start end (suc i) cs in
      if leb start i && ltb i end then evaluate_single_candidate c ∷ rest else c ∷ rest

  unfoldable pub run_worker : ℕ → ℕ → ℕ → List ConflictCandidate → List ConflictCandidate
  run_worker n chunk w candidates =
      let start = w * chunk in
      if leb n start then candidates else evaluate_slice start (min (start + chunk) n) 0 candidates

  -- The goroutines, in the order in which they come to their work.
  unfoldable pub run_workers : ℕ → ℕ → List ℕ → List ConflictCandidate → List ConflictCandidate
  run_workers n chunk [] candidates = candidates
  run_workers n chunk (w ∷ order) candidates =
      run_workers n chunk order (run_worker n chunk w candidates)

  unfoldable pub evaluate_quality_conflicts_parallel :
      ℕ → List ℕ → List ConflictCandidate → List ConflictCandidate
  evaluate_quality_conflicts_parallel workers order candidates =
      let n = length candidates in
      let w = worker_count workers n in
      if n == 0
      then candidates
      else if ltb n 64 || leb workers 1
      then map evaluate_single_candidate candidates
      else run_workers n ((n + w - 1) / w) order candidates

  -- What `resolveConflictsQuality` does with the candidates of one range of numbers.
  unfoldable pub resolve_candidates :
      (ℕ → Bool) → ℕ → List ℕ → List ConflictCandidate → Table × MergeStats → Table × MergeStats
  resolve_candidates fails workers order candidates s =
      apply_decisions fails (evaluate_quality_conflicts_parallel workers order candidates) s
