-- ===== src/Providers/QqCrypto/Feistel.antt =====
-- The rounds of internal/providers/qqmusic_crypto.go undo themselves under the reversed keys.
use Prim.Native.Nat.{bit_xor}
use mathlib.Core.List.{reverse, reverse-cons}
use lyrics_plus.Common.{ℕ, ◌≡◌, refl, ◌∙◌, ap, List, [], ◌∷◌, ◌++◌}
use lyrics_plus.Common.Bits.{xor_twice_left}
use lyrics_plus.Providers.QqCrypto.Cipher.{round_word, rounds}

-- A round with its exchange of the words, and the exchange alone.
abbrev pub turn : List ℕ → ℕ × ℕ → ℕ × ℕ
turn k s = (s.1, bit_xor (round_word s.1 k) s.0)

abbrev pub exchange : ℕ × ℕ → ℕ × ℕ
exchange s = (s.1, s.0)

turns : List (List ℕ) → ℕ × ℕ → ℕ × ℕ
turns [] s = s
turns (k ∷ ks) s = turns ks (turn k s)

rounds-turns :
    (k : List ℕ) (ks : List (List ℕ)) (s : ℕ × ℕ) → rounds (k ∷ ks) s ≡ exchange (turns (k ∷ ks) s)
unfolding rounds turns
rounds-turns k [] s = refl
rounds-turns k (k' ∷ ks) s = rounds-turns k' ks (turn k s)

turns-append :
    (ks : List (List ℕ)) (k : List ℕ) (s : ℕ × ℕ) → turns (ks ++ (k ∷ [])) s ≡ turn k (turns ks s)
unfolding turns
turns-append [] k s = refl
turns-append (k' ∷ ks) k s = turns-append ks k (turn k' s)

turn_back : (k : List ℕ) (s : ℕ × ℕ) → turn k (exchange (turn k s)) ≡ exchange s
turn_back k s = ap (λ (t : ℕ). (s.1, t)) (xor_twice_left (round_word s.1 k) s.0)

turns-reverse :
    (ks : List (List ℕ)) (s : ℕ × ℕ) → turns (reverse ks) (exchange (turns ks s)) ≡ exchange s
unfolding turns
turns-reverse [] s = refl
turns-reverse (k ∷ ks) s =
    rw
      (
        reverse-cons k ks,
        turns-append (reverse ks) k (exchange (turns ks (turn k s))),
        turns-reverse ks (turn k s),
      )
      (turn_back k s)

rounds_last :
    (ks : List (List ℕ)) (k : List ℕ) (s : ℕ × ℕ)
    → rounds (ks ++ (k ∷ [])) s ≡ exchange (turns (ks ++ (k ∷ [])) s)
rounds_last [] k s = rounds-turns k [] s
rounds_last (k' ∷ ks) k s = rounds-turns k' (ks ++ (k ∷ [])) s

rounds_reversed :
    (k : List ℕ) (ks : List (List ℕ)) (t : ℕ × ℕ)
    → rounds (reverse (k ∷ ks)) t ≡ exchange (turns (reverse (k ∷ ks)) t)
rounds_reversed k ks t = rw (reverse-cons k ks) (rounds_last (reverse ks) k t)

-- The rounds with the keys in reverse order undo the rounds.
pub rounds-reverse : (ks : List (List ℕ)) (s : ℕ × ℕ) → rounds (reverse ks) (rounds ks s) ≡ s
rounds-reverse [] s = unfold rounds in refl
rounds-reverse (k ∷ ks) s =
    ap (rounds (reverse (k ∷ ks))) (rounds-turns k ks s)
    ∙ (rounds_reversed k ks (exchange (turns (k ∷ ks) s)) ∙ ap exchange (turns-reverse (k ∷ ks) s))
