-- ===== src/Orchestrator/Grade.antt =====
-- internal/orchestrator/grade.go: the priority of a response, and the order of the sources.
use lyrics_plus.Common.{
  String, ℕ, ◌≤◌, ◌≡◌, ◌↔◌, ◌⊎◌, Bool, true, false, not, ◌&&◌, ◌||◌, Option, none, some, List, [],
  ◌∷◌, if◌then◌else◌, arith,
}
use lyrics_plus.Common.Text.{Text, codes, contains, to_lower}
use lyrics_plus.Domain.{Line, LyricsResponse, sync_type_word, sync_type_line, sync_type_syllable}
use lyrics_plus.Domain.Query.{SearchQuery, id_only, is_empty}
use lyrics_plus.Common.Text.{text_eq}

abbrev pub priority_failed : ℕ
priority_failed = 0

abbrev pub priority_unsync : ℕ
priority_unsync = 1

abbrev pub priority_line : ℕ
priority_line = 2

abbrev pub priority_word : ℕ
priority_word = 3

unfoldable pub is_word_type : Text → Bool
is_word_type t = text_eq t sync_type_word || text_eq t sync_type_syllable

unfoldable pub any_syllabus : List Line → Bool
any_syllabus [] = false
any_syllabus (l ∷ ls) = not (is_empty l.syllabus) || any_syllabus ls

unfoldable pub has_syllable_sync : Option LyricsResponse → Bool
unfolding is_word_type
has_syllable_sync none = false
has_syllable_sync (some r) = if is_word_type r.type then true else any_syllabus r.lyrics

unfoldable pub content_trusted : String → Bool
content_trusted source =
    let s = to_lower (codes source) in
    not (is_empty s)
    && (contains s (codes "apple") || contains s (codes "lyricsplus") || contains s (codes "qaple"))

unfoldable pub grade : Option LyricsResponse → String → ℕ
unfolding is_word_type
grade none source = priority_failed
grade (some r) source =
    if is_empty r.lyrics
    then priority_failed
    else if is_word_type r.type
    then priority_word
    else if text_eq r.type sync_type_line
    then (if content_trusted source && has_syllable_sync (some r)
        then priority_word
        else priority_line)
    else priority_unsync

unfoldable pub source_order : SearchQuery → List String → List String
source_order q [] =
    if id_only q
    then "apple" ∷ "lyricsplus" ∷ "qq" ∷ "musixmatch" ∷ []
    else "apple" ∷ "lyricsplus" ∷ "deezer" ∷ "qq" ∷ "musixmatch-word" ∷ "musixmatch" ∷ []
source_order q (p ∷ ps) = p ∷ ps

-- The lines of a response, none for a nil one.
unfoldable pub lines_of : Option LyricsResponse → List Line
lines_of none = []
lines_of (some r) = r.lyrics

-- A response ranks as word-synced exactly when it has lines and its type says so, or it is
-- line-synced, carries syllables and comes from a source whose content is trusted.
pub grade_word_iff :
    (r : LyricsResponse) (source : String)
    → (grade (some r) source ≡ priority_word) ↔ (
        (is_empty r.lyrics ≡ false)
        × ((is_word_type r.type ≡ true)
            ⊎ ((text_eq r.type sync_type_line ≡ true)
                × (content_trusted source ≡ true)
                × (any_syllabus r.lyrics ≡ true))))
unfolding grade has_syllable_sync
grade_word_iff r source = ground arith

pub grade-le : (o : Option LyricsResponse) (source : String) → grade o source ≤ priority_word
unfolding grade
grade-le none source = omega arith
grade-le (some r) source = ground arith
