-- ===== src/Parsers/Kpoe/Parts.antt =====
-- internal/parsers/kpoe.go: `NormalizeV2` gives every line the index of a part of the song, and
-- the name found under it is the one that the line had.
use mathlib.Core.List.{append-nil, append_assoc}
use lyrics_plus.Common.{
  ℕ, zero, suc, ◌+◌, ◌-◌, ◌^◌, ◌≤◌, ◌<◌, ◌≡◌, ◌⊎◌, refl, sym, ap, ◌∙◌, true, false, not, inl, inr,
  Option, none, some, List, [], ◌∷◌, ◌++◌, map, All, Bool-cases, Option-cases, length,
  length-append, length-set, get_elem?, set, lt→ltb, if◌then◌else◌, arith,
}
use lyrics_plus.Common.Text.{Text, text_eq, text_eq_iff}
use lyrics_plus.Domain.{Line, LineElement, SongPart, LyricsResponse}
use lyrics_plus.Domain.Query.{is_empty}
use lyrics_plus.Parsers.Kpoe.{
  is_flat_lyrics, all_indexed, same_part, named_part, with_index, index_lines, PartBounds, timed,
  set_times, index_parts, unflatten, normalize_v2,
}
use lyrics_plus.Parsers.Kpoe.V1.{name_at, resolve_song_part}

-- The index of a line, where it has one, is that of a part.
abbrev pub IsKnown : List SongPart → Line → Type 0
IsKnown parts line =
    (line.element.song_part_index ≡ none)
    ⊎ ((idx : ℕ) × (line.element.song_part_index ≡ some idx) × (idx < length parts))

-- The last part carries the name that the loop remembers.
abbrev IsLast : Option Text → List SongPart → Type 0
IsLast none parts = Unit
IsLast (some name) parts = (0 < length parts) × (name_at parts (length parts - 1) ≡ name)

abbrev pub part_names : List SongPart → List Line → List Text
part_names parts lines = map (λ l. resolve_song_part parts l.element) lines

name_at-append :
    (parts more : List SongPart) (i : ℕ)
    → i < length parts
    → name_at (parts ++ more) i ≡ name_at parts i
name_at-append [] more i h = absurd (omega arith)
name_at-append (p ∷ ps) more zero h = refl
name_at-append (p ∷ ps) more (suc i) h = name_at-append ps more i (omega arith)

name_at_last :
    (parts : List SongPart) (p : SongPart) → name_at (parts ++ (p ∷ [])) (length parts) ≡ p.name
name_at_last [] p = refl
name_at_last (q ∷ ps) p = name_at_last ps p

resolve-append :
    (parts more : List SongPart) (line : Line)
    → IsKnown parts line
    → resolve_song_part (parts ++ more) line.element ≡ resolve_song_part parts line.element
unfolding resolve_song_part
resolve-append parts more line (inl e) = rw e refl
resolve-append parts more line (inr (idx, e, h)) =
    rw
      (
        e,
        lt→ltb idx (length parts) h,
        lt→ltb idx (length (parts ++ more)) (omega (arith, length-append parts more)),
        name_at-append parts more idx h,
      )
      refl

given_or_empty : (t : Text) → (if not (is_empty t) then t else []) ≡ t
unfolding is_empty
given_or_empty [] = refl
given_or_empty (c ∷ t) = refl

resolve_none :
    (parts : List SongPart) (el : LineElement)
    → el.song_part_index ≡ none
    → resolve_song_part parts el ≡ el.song_part
unfolding resolve_song_part is_empty
resolve_none parts el h = rw h (given_or_empty el.song_part)

resolve-with_index :
    (parts : List SongPart) (line : Line) (i : ℕ)
    → i < length parts
    → i < 2 ^ 63
    → resolve_song_part parts (with_index line i).element ≡ name_at parts i
unfolding resolve_song_part is_empty
resolve-with_index parts line i h small =
    rw (lt→ltb i (length parts) h, lt→ltb i (2 ^ 63) small) refl

abbrev pub grown_parts : List SongPart → Option Text → Text → List SongPart
grown_parts parts current name =
    if same_part current name then parts else parts ++ (named_part name ∷ [])

abbrev Extends : List SongPart → List SongPart → Type 0
Extends parts parts' = (more : List SongPart) × (parts' ≡ parts ++ more)

grown_parts-Extends :
    (parts : List SongPart) (current : Option Text) (name : Text)
    → Extends parts (grown_parts parts current name)
grown_parts-Extends parts current name = elim (Bool-cases (same_part current name)) [
  | inl same ↦ rw same ([], sym (append-nil parts))
  | inr other ↦ rw other (named_part name ∷ [], refl)
]

grown_parts-length :
    (parts : List SongPart) (current : Option Text) (name : Text)
    → length (grown_parts parts current name) ≤ length parts + 1
grown_parts-length parts current name = elim (Bool-cases (same_part current name)) [
  | inl same ↦ rw same (omega arith)
  | inr other ↦ rw other (omega (arith, length-append parts (named_part name ∷ [])))
]

named_part-IsLast :
    (parts : List SongPart) (name : Text) → IsLast (some name) (parts ++ (named_part name ∷ []))
named_part-IsLast parts name =
    let count : length (parts ++ (named_part name ∷ [])) ≡ length parts + 1 =
      length-append parts (named_part name ∷ []) in
    let at : length (parts ++ (named_part name ∷ [])) - 1 ≡ length parts = omega arith in
    (omega arith, ap (name_at (parts ++ (named_part name ∷ []))) at ∙ name_at_last parts _)

grown_parts-IsLast :
    (parts : List SongPart) (current : Option Text) (name : Text)
    → IsLast current parts
    → IsLast (some name) (grown_parts parts current name)
unfolding same_part
grown_parts-IsLast parts none name h = named_part-IsLast parts name
grown_parts-IsLast parts (some held) name (h, e) = elim (Bool-cases (text_eq name held)) [
  | inl same ↦ rw same (h, e ∙ sym ((text_eq_iff name held).0 same))
  | inr other ↦ rw other (named_part-IsLast parts name)
]

Extends-trans : (a b c : List SongPart) → Extends a b → Extends b c → Extends a c
Extends-trans a b c (m, e) (n, f) = (m ++ n, f ∙ ap (λ xs. xs ++ n) e ∙ append_assoc a m n)

Extends-length : (a b : List SongPart) → Extends a b → length a ≤ length b
Extends-length a b (m, e) = rw e (omega (arith, length-append a m))

-- The parts only grow at the end.
pub index_lines-Extends :
    (parts : List SongPart) (current : Option Text) (lines : List Line)
    → Extends parts (index_lines parts current lines).0
unfolding index_lines
index_lines-Extends parts current [] = ([], sym (append-nil parts))
index_lines-Extends parts current (line ∷ rest) = elim (Option-cases line.element.song_part_index) [
  | inl e ↦
      let name = line.element.song_part in
      let grown = grown_parts parts current name in
      let (m, f) = grown_parts-Extends parts current name in
      let (n, g) = index_lines-Extends grown (some name) rest in
      rw e (Extends-trans parts grown _ (m, f) (n, g))
  | inr (idx, e) ↦ rw e (index_lines-Extends parts none rest)
]

Extends-resolve :
    (a b : List SongPart) (line : Line)
    → Extends a b
    → IsKnown a line
    → resolve_song_part b line.element ≡ resolve_song_part a line.element
Extends-resolve a b line (m, e) known = rw e (resolve-append a m line known)

Extends-IsKnown :
    (a b : List SongPart) (lines : List Line)
    → Extends a b
    → All (IsKnown a) lines
    → All (IsKnown b) lines
Extends-IsKnown a b [] x h = tt
Extends-IsKnown a b (l ∷ ls) x (inl e, h) = (inl e, Extends-IsKnown a b ls x h)
Extends-IsKnown a b (l ∷ ls) x (inr (idx, e, k), h) =
    let less = Extends-length a b x in (inr (idx, e, omega arith), Extends-IsKnown a b ls x h)

part_names-Extends :
    (a b : List SongPart) (lines : List Line)
    → Extends a b
    → All (IsKnown a) lines
    → part_names b lines ≡ part_names a lines
part_names-Extends a b [] x h = refl
part_names-Extends a b (l ∷ ls) x (k, h) =
    rw (Extends-resolve a b l x k, part_names-Extends a b ls x h) refl

Extends-name_at :
    (a b : List SongPart) (i : ℕ) → Extends a b → i < length a → name_at b i ≡ name_at a i
Extends-name_at a b i (m, e) h = rw e (name_at-append a m i h)

abbrev pub given_part : List SongPart → Option Text → Line → List Line → List SongPart × List Line
given_part parts current line rest =
    let name = line.element.song_part in
    let grown = grown_parts parts current name in
    let (parts', rest') = index_lines grown (some name) rest in
    (parts', with_index line (length grown - 1) ∷ rest')

pub index_lines-none :
    (parts : List SongPart) (current : Option Text) (line : Line) (rest : List Line)
    → line.element.song_part_index ≡ none
    → index_lines parts current (line ∷ rest) ≡ given_part parts current line rest
unfolding index_lines
index_lines-none parts current line rest e = rw e refl

pub index_lines-some :
    (parts : List SongPart) (current : Option Text) (line : Line) (rest : List Line) (idx : ℕ)
    → line.element.song_part_index ≡ some idx
    → index_lines parts current (line ∷ rest)
      ≡ ((index_lines parts none rest).0, line ∷ (index_lines parts none rest).1)
unfolding index_lines
index_lines-some parts current line rest idx e = simp e refl

cons_eq {ℓ} : {A : Type ℓ} {a b : A} {xs ys : List A} → a ≡ b → xs ≡ ys → a ∷ xs ≡ b ∷ ys
cons_eq e f = rw (e, f) refl

-- A line that is given an index finds its name there, and so does every line after it.
index_lines-part_names :
    (parts : List SongPart) (current : Option Text) (lines : List Line)
    → IsLast current parts
    → All (IsKnown parts) lines
    → length parts + length lines < 2 ^ 63
    → let out = index_lines parts current lines in part_names out.0 out.1 ≡ part_names parts lines
unfolding index_lines
index_lines-part_names parts current [] last known small = refl
index_lines-part_names parts current (line ∷ rest) last (k, known) small =
    elim (Option-cases line.element.song_part_index) [
      | inl e ↦
          let name = line.element.song_part in
          let grown = grown_parts parts current name in
          let ext = grown_parts-Extends parts current name in
          let (some_part, named) = grown_parts-IsLast parts current name last in
          let len = grown_parts-length parts current name in
          let known' = Extends-IsKnown parts grown rest ext known in
          let rec =
            index_lines-part_names grown (some name) rest (some_part, named) known' (omega arith) in
          let final = index_lines-Extends grown (some name) rest in
          let len' = Extends-length grown _ final in
          rw (index_lines-none parts current line rest e) (
            cons_eq
              (resolve-with_index _ line (length grown - 1) (omega arith) (omega arith)
                ∙ Extends-name_at grown _ (length grown - 1) final (omega arith)
                ∙ named
                ∙ sym (resolve_none parts line.element e))
              (rec ∙ part_names-Extends parts grown rest ext known))
      | inr (idx, e) ↦
          let rec = index_lines-part_names parts none rest tt known (omega arith) in
          let final = index_lines-Extends parts none rest in
          rw (index_lines-some parts current line rest idx e)
            (cons_eq (Extends-resolve parts _ line final k) rec)
    ]

set-names :
    (parts : List SongPart) (i j : ℕ) (p q : SongPart)
    → get_elem? parts i ≡ some p
    → q.name ≡ p.name
    → name_at (set parts i q) j ≡ name_at parts j
set-names [] i j p q h e = refl
set-names (x ∷ xs) zero zero p q h e =
    e ∙ ap (λ o. elim o [ none ↦ [] | some part ↦ part.name ]) (sym h)
set-names (x ∷ xs) zero (suc j) p q h e = refl
set-names (x ∷ xs) (suc i) zero p q h e = refl
set-names (x ∷ xs) (suc i) (suc j) p q h e = set-names xs i j p q h e

resolve-same :
    (ps qs : List SongPart) (el : LineElement)
    → length ps ≡ length qs
    → ((i : ℕ) → name_at ps i ≡ name_at qs i)
    → resolve_song_part ps el ≡ resolve_song_part qs el
unfolding resolve_song_part
resolve-same ps qs el len names = elim (Option-cases el.song_part_index) [
  | inl e ↦ rw e refl
  | inr (i, e) ↦ rw (e, len, names i) refl
]

-- The times change no name.
set_times-names :
    (bounds : List (ℕ × PartBounds)) (parts : List SongPart) (el : LineElement)
    → resolve_song_part (set_times bounds parts) el ≡ resolve_song_part parts el
unfolding set_times timed
set_times-names [] parts el = refl
set_times-names ((idx, b) ∷ rest) parts el = elim (Option-cases (get_elem? parts idx)) [
  | inl e ↦ rw (e, set_times) (set_times-names rest parts el)
  | inr (part, e) ↦
      rw (e, set_times)
        (set_times-names rest (set parts idx (timed b part)) el
          ∙ resolve-same (set parts idx (timed b part)) parts el (length-set parts idx _)
              (λ j. set-names parts idx j part _ e refl))
]

index_lines-all_indexed :
    (parts : List SongPart) (current : Option Text) (lines : List Line)
    → all_indexed (index_lines parts current lines).1 ≡ true
unfolding index_lines all_indexed
index_lines-all_indexed parts current [] = refl
index_lines-all_indexed parts current (line ∷ rest) =
    elim (Option-cases line.element.song_part_index) [
      | inl e ↦
          let name = line.element.song_part in
          rw e (index_lines-all_indexed (grown_parts parts current name) (some name) rest)
      | inr (idx, e) ↦
          rw (index_lines-some parts current line rest idx e)
            (rw e (index_lines-all_indexed parts none rest))
    ]

empty-all_indexed : (ls : List Line) → is_empty ls ≡ true → all_indexed ls ≡ true
unfolding all_indexed is_empty
empty-all_indexed [] h = refl
empty-all_indexed (l ∷ ls) h = absurd (ground arith)

pub unflatten_same :
    (resp : LyricsResponse) → is_flat_lyrics resp.lyrics ≡ false → unflatten resp ≡ resp
unfolding unflatten
unflatten_same resp h = rw h refl

set_times-part_names :
    (bounds : List (ℕ × PartBounds)) (parts : List SongPart) (lines : List Line)
    → part_names (set_times bounds parts) lines ≡ part_names parts lines
set_times-part_names bounds parts [] = refl
set_times-part_names bounds parts (l ∷ ls) =
    cons_eq (set_times-names bounds parts l.element) (set_times-part_names bounds parts ls)

-- After `NormalizeV2` every line has the index of a part.
pub normalize_v2-all_indexed :
    (resp : LyricsResponse) → all_indexed (normalize_v2 resp).lyrics ≡ true
unfolding normalize_v2 index_parts
normalize_v2-all_indexed resp = elim (Bool-cases (is_empty resp.lyrics)) [
  | inl e ↦ rw e (empty-all_indexed resp.lyrics e)
  | inr f ↦ elim (Bool-cases (all_indexed (unflatten resp).lyrics)) [
    | inl e ↦ rw (f, e) e
    | inr e ↦ rw (f, e, index_parts) (index_lines-all_indexed _ none (unflatten resp).lyrics)
  ]
]

-- A response that is not flat, whose indices are those of parts: each line's part has the name
-- after `NormalizeV2` that it had before.
pub normalize_v2-part_names :
    (resp : LyricsResponse)
    → is_flat_lyrics resp.lyrics ≡ false
    → All (IsKnown resp.metadata.song_parts) resp.lyrics
    → length resp.metadata.song_parts + length resp.lyrics < 2 ^ 63
    → let out = normalize_v2 resp in
      part_names out.metadata.song_parts out.lyrics
      ≡ part_names resp.metadata.song_parts resp.lyrics
unfolding normalize_v2 index_parts
normalize_v2-part_names resp flat known small =
    rw (unflatten_same resp flat) (elim (Bool-cases (is_empty resp.lyrics)) [
      | inl e ↦ rw e refl
      | inr f ↦ elim (Bool-cases (all_indexed resp.lyrics)) [
        | inl e ↦ rw (f, e) refl
        | inr e ↦
            rw (f, e)
              (set_times-part_names _ _ (index_lines resp.metadata.song_parts none resp.lyrics).1
                ∙ index_lines-part_names resp.metadata.song_parts none resp.lyrics tt known small)
      ]
    ])
