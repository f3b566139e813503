-- ===== src/Storage/Quality.antt =====
-- internal/storage/merger.go: the quality of stored lyrics, read from their first 512 bytes where
-- these say it. Texts are lists of bytes; json.Unmarshal of the raw content is a parameter.
use lyrics_plus.Common.{
  ℕ, suc, zero, ◌+◌, ◌-◌, Bool, true, false, not, ◌&&◌, ◌||◌, Option, none, some, List, [], ◌∷◌,
  leb, ◌==◌, if◌then◌else◌, length, take, drop, lt_i64,
}
use lyrics_plus.Common.Text.{Text, codes, text_eq, contains, has_prefix, to_lower, trim_space}
use lyrics_plus.Domain.Query.{is_empty}
use lyrics_plus.Storage.Codec.{Codecs, decompress_content, decompress_content_prefix}
use mathlib.Core.List.{reverse}

abbrev pub rank_none : ℕ
rank_none = 0

abbrev pub rank_empty : ℕ
rank_empty = 1

abbrev pub rank_plain : ℕ
rank_plain = 2

abbrev pub rank_line : ℕ
rank_line = 3

abbrev pub rank_syllable : ℕ
rank_syllable = 4

unfoldable pub quality_rank_name : ℕ → Text
quality_rank_name rank =
    if rank == rank_syllable
    then codes "Syllable"
    else if rank == rank_line
    then codes "Line"
    else if rank == rank_plain
    then codes "Plain"
    else if rank == rank_empty
    then codes "Empty"
    else codes "None"

abbrev pub Quality : Type 0
Quality = ℕ × Text

abbrev none_quality : Quality
none_quality = (rank_none, codes "None")

abbrev empty_quality : Quality
empty_quality = (rank_empty, codes "Empty")

abbrev plain_quality : Quality
plain_quality = (rank_plain, codes "Plain")

abbrev line_quality : Quality
line_quality = (rank_line, codes "Line")

abbrev syllable_quality : Quality
syllable_quality = (rank_syllable, codes "Syllable")

-- `bytes.TrimLeft(head, " \t\r\n")`
abbrev is_blank_byte : ℕ → Bool
is_blank_byte c = c == 32 || (c == 9 || (c == 13 || c == 10))

unfoldable pub skip_blanks : Text → Text
skip_blanks [] = []
skip_blanks (c ∷ s) = let rest = skip_blanks s in if is_blank_byte c then rest else c ∷ s

-- The number of bytes of the white space that a text begins with (`bytes.TrimSpace`): one of
-- ASCII, U+0085, U+00A0, U+1680, U+2000 to U+200A, U+2028, U+2029, U+202F, U+205F or U+3000.
abbrev is_space_2 : ℕ → ℕ → Bool
is_space_2 a b = a == 0xc2 && (b == 0x85 || b == 0xa0)

abbrev is_space_3 : ℕ → ℕ → ℕ → Bool
is_space_3 a b c =
    (a == 0xe1 && (b == 0x9a && c == 0x80))
    || ((a == 0xe2
          && ((b == 0x80 && ((leb 0x80 c && leb c 0x8a) || (c == 0xa8 || (c == 0xa9 || c == 0xaf))))
              || (b == 0x81 && c == 0x9f)))
        || (a == 0xe3 && (b == 0x80 && c == 0x80)))

abbrev is_space_1 : ℕ → Bool
is_space_1 a = (leb 9 a && leb a 13) || a == 32

unfoldable pub space_at : Text → ℕ
space_at [] = 0
space_at (a ∷ []) = if is_space_1 a then 1 else 0
space_at (a ∷ (b ∷ [])) = if is_space_1 a then 1 else if is_space_2 a b then 2 else 0
space_at (a ∷ (b ∷ (c ∷ s))) =
    if is_space_1 a then 1 else if is_space_2 a b then 2 else if is_space_3 a b c then 3 else 0

-- The same of a text that is read backwards.
unfoldable pub space_before : Text → ℕ
space_before [] = 0
space_before (a ∷ []) = if is_space_1 a then 1 else 0
space_before (a ∷ (b ∷ [])) = if is_space_1 a then 1 else if is_space_2 b a then 2 else 0
space_before (a ∷ (b ∷ (c ∷ s))) =
    if is_space_1 a then 1 else if is_space_2 b a then 2 else if is_space_3 c b a then 3 else 0

-- `pending` bytes of a white space are still to be dropped.
unfoldable pub drop_space : (Text → ℕ) → ℕ → Text → Text
drop_space space pending [] = []
drop_space space (suc pending) (c ∷ s) = drop_space space pending s
drop_space space zero (c ∷ s) =
    let n = space (c ∷ s) in let rest = drop_space space (n - 1) s in if n == 0 then c ∷ s else rest

unfoldable pub trim_bytes : Text → Text
trim_bytes s = reverse (drop_space space_before 0 (reverse (drop_space space_at 0 s)))

-- What follows the first place of a text in another (`bytes.Index`).
unfoldable pub after_first : Text → Text → Option Text
after_first p [] = if has_prefix [] p then some [] else none
after_first p (c ∷ s) =
    let later = after_first p s in
    if has_prefix (c ∷ s) p then some (drop (length p) (c ∷ s)) else later

unfoldable pub after_byte : ℕ → Text → Option Text
after_byte b [] = none
after_byte b (c ∷ s) = if c == b then some s else none

-- `rest[:bytes.IndexByte(rest, '"')]`, `none` where there is no quote
unfoldable pub until_quote : Text → Option Text
until_quote [] = none
until_quote (c ∷ s) = elim (c == 34) [
  | true ↦ some []
  | false ↦ elim (until_quote s) [ none ↦ none | some word ↦ some (c ∷ word) ]
]

-- `bytes.EqualFold` with an ASCII word without a `k`: the capitals, and the long s (U+017F).
unfoldable pub fold_bytes : Text → Text
fold_bytes [] = []
fold_bytes (a ∷ []) = (if leb b'A' a && leb a b'Z' then a + 32 else a) ∷ []
fold_bytes (a ∷ (b ∷ s)) =
    let long_s = fold_bytes s in
    let plain = fold_bytes (b ∷ s) in
    if a == 0xc5 && b == 0xbf
    then b's' ∷ long_s
    else (if leb b'A' a && leb a b'Z' then a + 32 else a) ∷ plain

unfoldable pub type_rank : Text → ℕ
type_rank val =
    let v = fold_bytes val in
    if is_empty val
    then rank_none
    else if text_eq v (codes "word") || text_eq v (codes "syllable")
    then rank_syllable
    else if text_eq v (codes "line")
    then rank_line
    else rank_none

unfoldable pub detect_json_header_type : Text → ℕ
detect_json_header_type head = elim (after_first (codes "\"type\"") (take 160 head)) [
  | none ↦ rank_none
  | some rest ↦ elim (after_byte b':' (skip_blanks rest)) [
    | none ↦ rank_none
    | some rest' ↦ elim (after_byte 34 (skip_blanks rest')) [
      | none ↦ rank_none
      | some val ↦ elim (until_quote val) [ none ↦ rank_none | some word ↦ type_rank word ]
    ]
  ]
]

-- A line as far as it is looked at.
pub record JsonLine : Type 0 where
  pub time : ℕ
  pub has_syllables : Bool

pub record JsonLyrics : Type 0 where
  pub type : Text
  pub lyrics : List JsonLine

unfoldable pub any_json_syllables : List JsonLine → Bool
any_json_syllables [] = false
any_json_syllables (l ∷ ls) = l.has_syllables || any_json_syllables ls

unfoldable pub any_positive : List JsonLine → Bool
any_positive [] = false
any_positive (l ∷ ls) = lt_i64 0 l.time || any_positive ls

unfoldable pub json_quality : JsonLyrics → Quality
json_quality p =
    let t = to_lower (trim_space p.type) in
    if is_empty p.lyrics
    then empty_quality
    else if text_eq t (codes "syllable") || text_eq t (codes "word")
    then syllable_quality
    else if any_json_syllables p.lyrics
    then syllable_quality
    else if text_eq t (codes "line")
    then line_quality
    else if any_positive p.lyrics
    then line_quality
    else plain_quality

-- What is not JSON.
unfoldable pub unread_quality : Text → Quality
unread_quality s =
    if contains s (codes "\"richsync_body\":\"[")
      && not (contains s (codes "\"richsync_body\":\"[]\""))
    then syllable_quality
    else if contains s (codes "\"subtitle_body\":\"")
        && not (contains s (codes "\"subtitle_body\":\"\""))
    then line_quality
    else (rank_none, codes "Error")

abbrev starts_with : ℕ → Text → Bool
starts_with b [] = false
starts_with b (c ∷ s) = c == b

abbrev has_spans : Text → Bool
has_spans s = contains s (codes "<span") && contains s (codes "begin=")

unfoldable pub markup_lines : Text → Quality
markup_lines s =
    if contains s (codes "begin=") || contains s (codes "<p") then line_quality else plain_quality

unfoldable pub markup_quality : Text → Quality
markup_quality s = if has_spans s then syllable_quality else markup_lines s

module _ (codecs : Codecs) (unmarshal : Text → Option JsonLyrics) where
  unfoldable pub raw_quality : Text → Quality
  raw_quality blob =
      let trimmed = trim_bytes (decompress_content codecs blob) in
      if is_empty trimmed
      then none_quality
      else if starts_with b'<' trimmed
      then markup_quality trimmed
      else elim (unmarshal trimmed) [ none ↦ unread_quality trimmed | some p ↦ json_quality p ]

  unfoldable pub markup_head : Text → Text → Bool → Quality
  markup_head blob head complete =
      if contains head (codes "itunes:timing=\"Word\"")
        || (contains head (codes "itunes:timing=\"Syllable\"") || has_spans head)
      then syllable_quality
      else if contains head (codes "itunes:timing=\"Line\"")
      then line_quality
      else if complete
      then markup_lines head
      else markup_quality (decompress_content codecs blob)

  unfoldable pub json_head : Text → Text → Bool → Quality
  json_head blob head complete =
      let rank = detect_json_header_type head in
      let nested = contains head (codes "\"syllabus\":[{") in
      if contains head (codes "\"lyrics\":[]")
        || (contains head (codes "\"lyrics\": []")
            || (contains head (codes "\"lyrics\":null")
                || contains head (codes "\"lyrics\": null")))
      then empty_quality
      else if rank == rank_syllable
      then syllable_quality
      else if rank == rank_line && (complete || (contains head (codes "\"KpoeTools\"") || nested))
      then (if nested then syllable_quality else line_quality)
      else raw_quality blob

  unfoldable pub detect_lyrics_quality : Text → Quality
  detect_lyrics_quality blob =
      let (head, complete) = decompress_content_prefix codecs blob 512 in
      let trimmed = skip_blanks head in
      if is_empty blob || is_empty head
      then none_quality
      else if is_empty trimmed
      then (if complete then none_quality else raw_quality blob)
      else if starts_with b'<' trimmed
      then markup_head blob trimmed complete
      else if starts_with b'{' trimmed
      then json_head blob trimmed complete
      else raw_quality blob
