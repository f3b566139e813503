-- ===== src/Storage/Filename/Cleanup.antt =====
-- internal/storage/filename.go: what `cleanup` leaves: words with one space between them and no
-- sign that a file name may not have.
use mathlib.Core.List.{append_assoc, append-nil}
use lyrics_plus.Common.{
  ℕ, ◌≡◌, refl, sym, ap, ◌∙◌, false, inl, inr, List, [], ◌∷◌, ◌++◌, All, Bool-cases,
}
use lyrics_plus.Common.Text.{Text, codes, is_space, join}
use lyrics_plus.Storage.Filename.{is_reserved, unreserved, close_word, fields_from, cleanup}

abbrev pub IsPlain : Text → Type 0
IsPlain s = All (λ c. is_reserved c ≡ false) s

abbrev NoSpace : Text → Type 0
NoSpace s = All (λ c. is_space c ≡ false) s

abbrev IsWord : Text → Type 0
IsWord [] = ⊥
IsWord (c ∷ s) = NoSpace (c ∷ s)

module _ (P : ℕ → Type 0) where
  All-append : (s t : Text) → All P s → All P t → All P (s ++ t)
  All-append [] t hs ht = ht
  All-append (c ∷ s) t (h, hs) ht = (h, All-append s t hs ht)

  All-close_word :
      (w : Text) (ws : List Text) → All P w → All (All P) ws → All (All P) (close_word w ws)
  All-close_word [] ws h hs = hs
  All-close_word (c ∷ w) ws h hs = (h, hs)

  All-fields_from : (w s : Text) → All P w → All P s → All (All P) (fields_from w s)
  unfolding fields_from
  All-fields_from w [] hw hs = All-close_word w [] hw tt
  All-fields_from w (c ∷ s) hw (h, hs) = elim (Bool-cases (is_space c)) [
    | inl e ↦ rw e (All-close_word w _ hw (All-fields_from [] s tt hs))
    | inr e ↦ rw e (All-fields_from (w ++ (c ∷ [])) s (All-append w (c ∷ []) hw (h, tt)) hs)
  ]

  All-join : (ws : List Text) (sep : Text) → All P sep → All (All P) ws → All P (join ws sep)
  unfolding join
  All-join [] sep h hs = tt
  All-join (w ∷ []) sep h (hw, hs) = hw
  All-join (w ∷ (v ∷ ws)) sep h (hw, hs) =
      All-append w _ hw (All-append sep _ h (All-join (v ∷ ws) sep h hs))

unreserved-IsPlain : (s : Text) → IsPlain (unreserved s)
unfolding unreserved
unreserved-IsPlain [] = tt
unreserved-IsPlain (c ∷ s) = elim (Bool-cases (is_reserved c)) [
  | inl e ↦ rw e (unreserved-IsPlain s)
  | inr e ↦ rw e (e, unreserved-IsPlain s)
]

-- No sign that a file name may not have is left.
pub cleanup-IsPlain : (s : Text) → IsPlain (cleanup s)
unfolding cleanup is_reserved
cleanup-IsPlain s =
    let P : ℕ → Type 0 = λ c. is_reserved c ≡ false in
    All-join P _ (codes " ") (refl, tt)
      (All-fields_from P [] (unreserved s) tt (unreserved-IsPlain s))

unreserved_same : (s : Text) → IsPlain s → unreserved s ≡ s
unfolding unreserved
unreserved_same [] h = refl
unreserved_same (c ∷ s) (h, hs) = rw h (ap (◌∷◌ c) (unreserved_same s hs))

close_word-IsWord :
    (w : Text) (ws : List Text) → NoSpace w → All IsWord ws → All IsWord (close_word w ws)
close_word-IsWord [] ws h hs = hs
close_word-IsWord (c ∷ w) ws h hs = (h, hs)

fields_from-IsWord : (w s : Text) → NoSpace w → All IsWord (fields_from w s)
unfolding fields_from
fields_from-IsWord w [] h = close_word-IsWord w [] h tt
fields_from-IsWord w (c ∷ s) h = elim (Bool-cases (is_space c)) [
  | inl e ↦ rw e (close_word-IsWord w _ h (fields_from-IsWord [] s tt))
  | inr e ↦ rw e (
      fields_from-IsWord (w ++ (c ∷ [])) s
        (All-append (λ d. is_space d ≡ false) w (c ∷ []) h (e, tt)))
]

fields_from-append : (w v s : Text) → NoSpace v → fields_from w (v ++ s) ≡ fields_from (w ++ v) s
unfolding fields_from
fields_from-append w [] s h = rw (append-nil w) refl
fields_from-append w (c ∷ v) s (h, hs) = rw h (
    fields_from-append (w ++ (c ∷ [])) v s hs
    ∙ ap (λ x. fields_from x s) (append_assoc w (c ∷ []) v))

fields_from_word : (w : Text) → IsWord w → fields_from w [] ≡ w ∷ []
unfolding fields_from
fields_from_word [] h = absurd h
fields_from_word (c ∷ w) h = refl

fields_from_space : (w s : Text) → IsWord w → fields_from w (codes " " ++ s) ≡ w ∷ fields_from [] s
unfolding fields_from is_space
fields_from_space [] s h = absurd h
fields_from_space (c ∷ w) s h = refl

word-NoSpace : (w : Text) → IsWord w → NoSpace w
word-NoSpace [] h = tt
word-NoSpace (c ∷ w) h = h

fields_from-join : (ws : List Text) → All IsWord ws → fields_from [] (join ws (codes " ")) ≡ ws
unfolding join fields_from
fields_from-join [] h = refl
fields_from-join (w ∷ []) (h, hs) =
    ap (fields_from []) (sym (append-nil w))
    ∙ fields_from-append [] w [] (word-NoSpace w h)
    ∙ fields_from_word w h
fields_from-join (w ∷ (v ∷ ws)) (h, hs) =
    fields_from-append [] w (codes " " ++ join (v ∷ ws) (codes " ")) (word-NoSpace w h)
    ∙ fields_from_space w (join (v ∷ ws) (codes " ")) h
    ∙ ap (◌∷◌ w) (fields_from-join (v ∷ ws) hs)

-- A cleaned text stays as it is: a name that is read back and written again is the same.
pub cleanup_idempotent : (s : Text) → cleanup (cleanup s) ≡ cleanup s
unfolding cleanup
cleanup_idempotent s =
    ap (λ t. join (fields_from [] t) (codes " ")) (unreserved_same (cleanup s) (cleanup-IsPlain s))
    ∙ ap (λ ws. join ws (codes " "))
        (fields_from-join (fields_from [] (unreserved s)) (fields_from-IsWord [] (unreserved s) tt))
