-- ===== src/Parsers/Kpoe/RoundTrip.antt =====
-- internal/parsers/kpoe.go: what is written in the first format and read again has the same lines,
-- with the same syllables.
use mathlib.Core.List.{append_assoc}
use lyrics_plus.Common.{
  ℕ, ◌≡◌, refl, sym, ap, ◌∙◌, Bool, true, false, inl, inr, Option, none, some, List, [], ◌∷◌, ◌++◌,
  map, All, Bool-cases, Option-cases, if◌then◌else◌, arith,
}
use lyrics_plus.Common.Text.{Text, text_eq}
use lyrics_plus.Domain.{
  Syllable, Line, SongPart, LyricsResponse, V1Segment, V1SegmentElement, sync_type_word,
  sync_type_line,
}
use lyrics_plus.Domain.Query.{is_empty}
use lyrics_plus.Parsers.Kpoe.{
  group_from, grown, add_syllable, finalize_group, set_bounds, is_flat_lyrics, all_indexed,
  index_lines, index_parts, normalize_v2, fold_rune, equal_fold,
}
use lyrics_plus.Parsers.Kpoe.Parts.{grown_parts, index_lines-none, index_lines-some, unflatten_same}
use lyrics_plus.Parsers.Kpoe.V1.{
  v1_opening, v1_syllable, v1_ends_line, grouped_lyrics, v2_type, v1_to_v2, rest_of,
  syllable_segment, syllable_segments, line_segments, word_segments, flat_lyrics, v1_type, v2_to_v1,
}

-- A syllable without the mark that the first format does not have.
abbrev pub plain : Syllable → Syllable
plain s = record s { synthetic = false }

-- What a line holds, but for its part of the song and what follows from the syllables.
abbrev pub Content : Type 0
Content = Text × Text × List Syllable

abbrev pub content : Line → Content
content l = (l.element.key, l.element.singer, l.syllabus)

abbrev pub plain_content : Line → Content
plain_content l = (l.element.key, l.element.singer, map plain l.syllabus)

abbrev grow : Option Line → V1Segment → Line
grow o seg = grown v1_opening v1_syllable v1_ends_line o seg

abbrev groups : Option Line → List V1Segment → List Line
groups o segs = group_from v1_opening v1_syllable v1_ends_line o segs

segment-plain :
    (parts : List SongPart) (line : Line) (is_end : ℕ) (s : Syllable)
    → v1_syllable (syllable_segment (rest_of parts line.element) is_end s) ≡ plain s
unfolding v1_syllable syllable_segment
segment-plain parts line is_end s = elim (Bool-cases s.is_background) [
  | inl e ↦ simp e refl
  | inr e ↦ simp e refl
]

abbrev Opened : List SongPart → Line → Content → Option Line → Type 0
Opened parts line c none = c ≡ (line.element.key, line.element.singer, [])
Opened parts line c (some l) = c ≡ content l

grow-content :
    (parts : List SongPart) (line : Line) (is_end : ℕ) (s : Syllable) (o : Option Line)
    (c : Content)
    → Opened parts line c o
    → content (grow o (syllable_segment (rest_of parts line.element) is_end s))
      ≡ (c.0, c.1, c.2 ++ (plain s ∷ []))
unfolding grown add_syllable v1_opening syllable_segment
grow-content parts line is_end s none c h =
    rw (h, segment-plain parts line is_end s)
      (elim (Bool-cases s.is_background) [ inl e ↦ rw e refl | inr e ↦ rw e refl ])
grow-content parts line is_end s (some l) c h = rw (h, segment-plain parts line is_end s) refl

set_bounds-content : (ss : List Syllable) (l : Line) → content (set_bounds ss l) ≡ content l
unfolding set_bounds
set_bounds-content [] l = refl
set_bounds-content (s ∷ ss) l = refl

finalize-content : (l : Line) → content (finalize_group l) ≡ content l
unfolding finalize_group
finalize-content l = set_bounds-content l.syllabus l

group_step :
    (o : Option Line) (seg : V1Segment) (rest : List V1Segment)
    → groups o (seg ∷ rest) ≡ (
        if v1_ends_line seg
        then finalize_group (grow o seg) ∷ groups none rest
        else groups (some (grow o seg)) rest)
unfolding group_from
group_step none seg rest = refl
group_step (some l) seg rest = refl

group_last :
    (o : Option Line) (rest : V1SegmentElement) (s : Syllable) (more : List V1Segment)
    → groups o (syllable_segment rest 1 s ∷ more)
      ≡ finalize_group (grow o (syllable_segment rest 1 s)) ∷ groups none more
unfolding v1_ends_line syllable_segment
group_last o rest s more = group_step o (syllable_segment rest 1 s) more

group_inner :
    (o : Option Line) (rest : V1SegmentElement) (s : Syllable) (more : List V1Segment)
    → groups o (syllable_segment rest 0 s ∷ more)
      ≡ groups (some (grow o (syllable_segment rest 0 s))) more
unfolding v1_ends_line syllable_segment
group_inner o rest s more = group_step o (syllable_segment rest 0 s) more

-- The segments of one line are grouped to that line.
group-segments :
    (parts : List SongPart) (line : Line) (o : Option Line) (c : Content) (s : Syllable)
    (ss : List Syllable) (more : List V1Segment)
    → Opened parts line c o
    → map content (groups o (syllable_segments (rest_of parts line.element) (s ∷ ss) ++ more))
      ≡ (c.0, c.1, c.2 ++ map plain (s ∷ ss)) ∷ map content (groups none more)
unfolding syllable_segments
group-segments parts line o c s [] more h = rw (group_last o (rest_of parts line.element) s more) (
    ap (λ x. x ∷ map content (groups none more))
      (finalize-content _ ∙ grow-content parts line 1 s o c h))
group-segments parts line o c s (t ∷ ts) more h =
    let seg = syllable_segment (rest_of parts line.element) 0 s in
    let grown_to = grow-content parts line 0 s o c h in
    rw
      (group_inner o (rest_of parts line.element) s
        (syllable_segments (rest_of parts line.element) (t ∷ ts) ++ more))
      (group-segments parts line (some (grow o seg)) (c.0, c.1, c.2 ++ (plain s ∷ [])) t ts more
          (sym grown_to)
        ∙ ap (λ xs. (c.0, c.1, xs) ∷ map content (groups none more))
            (append_assoc c.2 (plain s ∷ []) (map plain (t ∷ ts))))

-- Every line has a syllable.
abbrev pub HasSyllables : Line → Type 0
HasSyllables l = is_empty l.syllabus ≡ false

line_group :
    (parts : List SongPart) (line : Line) (ss : List Syllable) (more : List V1Segment)
    → is_empty ss ≡ false
    → map content (groups none (syllable_segments (rest_of parts line.element) ss ++ more))
      ≡ (line.element.key, line.element.singer, map plain ss) ∷ map content (groups none more)
unfolding is_empty
line_group parts line [] more h = absurd (ground arith)
line_group parts line (s ∷ ss) more h =
    group-segments parts line none (line.element.key, line.element.singer, []) s ss more refl

line_segments-content :
    (parts : List SongPart) (line : Line) (more : List V1Segment)
    → HasSyllables line
    → map content (groups none (line_segments parts line ++ more))
      ≡ plain_content line ∷ map content (groups none more)
unfolding line_segments
line_segments-content parts line more h = rw h (line_group parts line line.syllabus more h)

word_segments-content :
    (parts : List SongPart) (lines : List Line)
    → All HasSyllables lines
    → map content (groups none (word_segments parts lines)) ≡ map plain_content lines
unfolding word_segments group_from
word_segments-content parts [] h = refl
word_segments-content parts (l ∷ ls) (h, hs) =
    line_segments-content parts l (word_segments parts ls) h
    ∙ ap (◌∷◌ (plain_content l)) (word_segments-content parts ls hs)

is_flat_step :
    (b : Bool) (l : Line) (closed still : List Line)
    → is_flat_lyrics closed ≡ false
    → is_flat_lyrics still ≡ false
    → is_flat_lyrics (if b then finalize_group l ∷ closed else still) ≡ false
unfolding is_flat_lyrics finalize_group
is_flat_step true l closed still hc hs = hc
is_flat_step false l closed still hc hs = hs

groups-is_flat : (o : Option Line) (segs : List V1Segment) → is_flat_lyrics (groups o segs) ≡ false
unfolding group_from is_flat_lyrics finalize_group
groups-is_flat none [] = refl
groups-is_flat (some l) [] = refl
groups-is_flat none (s ∷ ss) =
    is_flat_step (v1_ends_line s) _ _ _ (groups-is_flat none ss)
      (groups-is_flat (some (grow none s)) ss)
groups-is_flat (some l) (s ∷ ss) =
    is_flat_step (v1_ends_line s) _ _ _ (groups-is_flat none ss)
      (groups-is_flat (some (grow (some l) s)) ss)

index_lines-content :
    (parts : List SongPart) (current : Option Text) (lines : List Line)
    → map content (index_lines parts current lines).1 ≡ map content lines
unfolding index_lines
index_lines-content parts current [] = refl
index_lines-content parts current (line ∷ rest) = elim (Option-cases line.element.song_part_index) [
  | inl e ↦
      let name = line.element.song_part in
      rw (index_lines-none parts current line rest e) (
        ap (◌∷◌ (content line))
          (index_lines-content (grown_parts parts current name) (some name) rest))
  | inr (idx, e) ↦
      rw (index_lines-some parts current line rest idx e)
        (ap (◌∷◌ (content line)) (index_lines-content parts none rest))
]

normalize_v2-content :
    (resp : LyricsResponse)
    → is_flat_lyrics resp.lyrics ≡ false
    → map content (normalize_v2 resp).lyrics ≡ map content resp.lyrics
unfolding normalize_v2 index_parts
normalize_v2-content resp flat =
    rw (unflatten_same resp flat) (elim (Bool-cases (is_empty resp.lyrics)) [
      | inl e ↦ rw e refl
      | inr f ↦ elim (Bool-cases (all_indexed resp.lyrics)) [
        | inl e ↦ rw (f, e) refl
        | inr e ↦ rw (f, e) (index_lines-content resp.metadata.song_parts none resp.lyrics)
      ]
    ])

normalize_v2-type :
    (resp : LyricsResponse)
    → is_flat_lyrics resp.lyrics ≡ false
    → (normalize_v2 resp).type ≡ resp.type
unfolding normalize_v2 index_parts
normalize_v2-type resp flat =
    rw (unflatten_same resp flat) (elim (Bool-cases (is_empty resp.lyrics)) [
      | inl e ↦ rw e refl
      | inr f ↦ elim (Bool-cases (all_indexed resp.lyrics)) [
        | inl e ↦ rw (f, e) refl
        | inr e ↦ rw (f, e) refl
      ]
    ])

word_type : (t : Text) → t ≡ sync_type_word → v2_type (v1_type t) ≡ sync_type_word
unfolding v2_type v1_type equal_fold fold_rune text_eq
word_type t e = rw e refl

word_not_line :
    {A : Type 0} (t : Text) (x y : A)
    → t ≡ sync_type_word
    → ((if text_eq t sync_type_line then x else y) ≡ y)
      × ((if equal_fold (v1_type t) sync_type_line then x else y) ≡ y)
unfolding v1_type equal_fold fold_rune text_eq
word_not_line t x y e = (rw e refl, rw e refl)

grouped-flat :
    (resp : LyricsResponse)
    → resp.type ≡ sync_type_word
    → grouped_lyrics (v2_to_v1 resp)
      ≡ groups none (word_segments resp.metadata.song_parts resp.lyrics)
unfolding grouped_lyrics v2_to_v1 flat_lyrics
grouped-flat resp e =
    (word_not_line resp.type _ _ e).1 ∙ ap (groups none) (word_not_line resp.type _ _ e).0

-- A word-timed response whose lines all have syllables, written in the first format and read back:
-- it is word-timed, and its lines are the same ones, each with its key, its singer and its
-- syllables (without the mark of a synthetic one, which the first format does not have).
pub v1_to_v2-v2_to_v1 :
    (resp : LyricsResponse)
    → resp.type ≡ sync_type_word
    → All HasSyllables resp.lyrics
    → let out = v1_to_v2 (v2_to_v1 resp) in
      (out.type ≡ sync_type_word) × (map content out.lyrics ≡ map plain_content resp.lyrics)
unfolding v1_to_v2 v2_to_v1
v1_to_v2-v2_to_v1 resp e h =
    let parts = resp.metadata.song_parts in
    let grouped = grouped-flat resp e in
    let segs = word_segments parts resp.lyrics in
    let flat = ap is_flat_lyrics grouped ∙ groups-is_flat none segs in
    (
      normalize_v2-type _ flat ∙ word_type resp.type e,
      normalize_v2-content _ flat
          ∙ ap (map content) grouped
          ∙ word_segments-content parts resp.lyrics h,
    )
