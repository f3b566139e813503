-- ===== src/Providers/Vandalism.antt =====
-- internal/providers/lyricsplus.go: how well a response is timed, and which submission is taken
-- for vandalism. `len` of a string counts the bytes of its UTF-8.
use lyrics_plus.Common.{
  ℕ, ◌+◌, ◌*◌, ◌≤◌, ◌<◌, ◌≡◌, ◌↔◌, refl, Bool, true, false, not, ◌&&◌, ◌||◌, Option, none, some,
  List, [], ◌∷◌, All, ltb, leb, ◌==◌, if◌then◌else◌, is_negative, arith,
}
use lyrics_plus.Common.Text.{Text, text_eq, trim_space}
use lyrics_plus.Domain.{Line, LyricsResponse, sync_type_word, sync_type_line, sync_type_syllable}
use lyrics_plus.Domain.Query.{is_empty}

unfoldable pub any_syllables : List Line → Bool
any_syllables [] = false
any_syllables (l ∷ ls) = not (is_empty l.syllabus) || any_syllables ls

unfoldable pub has_word_sync : Option LyricsResponse → Bool
has_word_sync none = false
has_word_sync (some r) =
    if text_eq r.type sync_type_word || text_eq r.type sync_type_syllable
    then true
    else any_syllables r.lyrics

unfoldable pub get_sync_priority : Option LyricsResponse → ℕ
get_sync_priority none = 0
get_sync_priority (some r) =
    if is_empty r.lyrics
    then 0
    else if has_word_sync (some r)
    then 3
    else if text_eq r.type sync_type_line
    then 2
    else 1

-- The bytes of a code point.
unfoldable pub rune_length : ℕ → ℕ
rune_length c = if ltb c 0x80 then 1 else if ltb c 0x800 then 2 else if ltb c 0x10000 then 3 else 4

unfoldable pub byte_length : Text → ℕ
byte_length [] = 0
byte_length (c ∷ s) = rune_length c + byte_length s

unfoldable pub any_negative : List Line → Bool
any_negative [] = false
any_negative (l ∷ ls) = (is_negative l.time || is_negative l.duration) || any_negative ls

unfoldable pub lines_length : List Line → ℕ
lines_length [] = 0
lines_length (l ∷ ls) = byte_length (trim_space l.text) + lines_length ls

unfoldable pub text_len : Option LyricsResponse → ℕ
text_len none = 0
text_len (some r) = lines_length r.lyrics

-- `float64(nextLen) < float64(prevLen)*0.2`: for lengths below 2^50 the rounded product is less
-- than half a unit from the fifth of the length, and exact where that is a whole number.
abbrev pub less_than_fifth : ℕ → ℕ → Bool
less_than_fifth next_len prev_len = ltb (next_len * 5) prev_len

unfoldable pub shrinks : Option LyricsResponse → ℕ → Bool
shrinks none next_len = false
shrinks (some prev) next_len =
    let prev_len = text_len (some prev) in leb 100 prev_len && less_than_fifth next_len prev_len

unfoldable pub is_vandalism_update : Option LyricsResponse → Option LyricsResponse → Bool
is_vandalism_update prev none = true
is_vandalism_update prev (some next) =
    if is_empty next.lyrics
    then true
    else if any_negative next.lyrics
    then true
    else let next_len = text_len (some next) in
      if next_len == 0 then true else shrinks prev next_len

-- What a submission that is no vandalism has: times that are not negative, a text, and at least a
-- fifth of a long text that it replaces.
pub record IsSound (prev : Option LyricsResponse) (next : LyricsResponse) : Type 0 where
  pub nonnegative :
      All (λ l. (is_negative l.time ≡ false) × (is_negative l.duration ≡ false)) next.lyrics
  pub worded : 0 < text_len (some next)
  pub kept : 100 ≤ text_len prev → text_len prev ≤ text_len (some next) * 5

any_negative_iff :
    (ls : List Line)
    → (any_negative ls ≡ false)
      ↔ All (λ l. (is_negative l.time ≡ false) × (is_negative l.duration ≡ false)) ls
unfolding any_negative
any_negative_iff [] = ground arith
any_negative_iff (l ∷ ls) = ground (arith, any_negative_iff ls)

empty_length : (ls : List Line) → is_empty ls ≡ true → lines_length ls ≡ 0
unfolding is_empty lines_length
empty_length [] h = refl
empty_length (l ∷ ls) h = absurd (ground arith)

-- A submission is let through exactly when it is sound.
pub is_vandalism_update_iff :
    (prev : Option LyricsResponse) (next : LyricsResponse)
    → (is_vandalism_update prev (some next) ≡ false) ↔ IsSound prev next
unfolding is_vandalism_update text_len shrinks
is_vandalism_update_iff none next =
    ground (arith, any_negative_iff next.lyrics, empty_length next.lyrics)
is_vandalism_update_iff (some prev) next =
    ground (arith, any_negative_iff next.lyrics, empty_length next.lyrics)
