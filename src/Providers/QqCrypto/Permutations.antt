-- ===== src/Providers/QqCrypto/Permutations.antt =====
-- The two bit permutations of internal/providers/qqmusic_crypto.go undo one another.
use lyrics_plus.Common.{
  holds_below, Option-cases, ltb, not, ℕ, zero, suc, ◌+◌, ◌-◌, ◌*◌, ◌/◌, ◌%◌, ◌<◌, ◌≡◌, refl, ◌∙◌,
  ap, Bool, true, false, ◌&&◌, Option, none, some, List, [], ◌∷◌, map, max, ◌==◌, if◌then◌else◌,
  length, Bool-cases, inl, inr, arith,
}
use lyrics_plus.Common.Bits.{bit, bit-or, bit-lt, bit-zero, bit-mod, bit-shl32, and_one-shr}
use lyrics_plus.Providers.QqCrypto.Tables.{initial_left, initial_right, inverse_bytes}
use lyrics_plus.Providers.QqCrypto.Cipher.{
  item, or_all, bitnum, bitnum_intr, gather, scatter, inverse_permutation,
}

-- The sources of the entries of a table that go to bit `i`.
module _ {A : Type 0} where
  pub sources : List (A × ℕ) → ℕ → List A
  sources [] i = []
  sources ((a, c) ∷ t) i = let rest = sources t i in if c == i then a ∷ rest else rest

  largest : (A → ℕ) → List A → ℕ
  largest v [] = 0
  largest v (a ∷ xs) = max (v a) (largest v xs)

  -- A word that is put together from shifted digits has the largest of the digits that go to a place.
  bit-or_all :
      (get : A → ℕ → ℕ) (v : A → ℕ)
      → ((a : A) (c i : ℕ) → i < 32 → bit (get a c) i ≡ (if c == i then v a else 0))
      → (t : List (A × ℕ)) (i : ℕ) → i < 32
      → bit (or_all (map (λ (e : A × ℕ). get e.0 e.1) t)) i ≡ largest v (sources t i)
  unfolding or_all sources largest
  bit-or_all get v digit [] i h = bit-zero i
  bit-or_all get v digit ((a, c) ∷ t) i h =
      let rest = bit-or_all get v digit t i h in
      let here = digit a c i h in
      bit-or (get a c) (or_all (map (λ (e : A × ℕ). get e.0 e.1) t)) i
      ∙ rw (here, rest)
          (elim (Bool-cases (c == i)) [ inl e ↦ rw e refl | inr e ↦ rw e (omega arith) ])

-- Where bit `b` of the input stands: which byte, which bit of it.
abbrev pub spot : ℕ → ℕ × ℕ
spot b = (b / 32 * 4 + 3 - b % 32 / 8, 7 - b % 8)

input_bit : List ℕ → ℕ → ℕ
input_bit input b = bit (item 0 input (spot b).0) (spot b).1

word_bit : ℕ → ℕ → Bool × ℕ → ℕ
word_bit s0 s1 e = bit (if e.0 then s1 else s0) (31 - e.1)

bit-bitnum :
    (input : List ℕ) (b c i : ℕ)
    → i < 32
    → bit (bitnum input b c) i ≡ (if c == i then input_bit input b else 0)
unfolding bitnum input_bit
bit-bitnum input b c i h =
    rw (and_one-shr (item 0 input (b / 32 * 4 + 3 - b % 32 / 8)) (7 - b % 8))
      (bit-shl32 _ c i (bit-lt _ _) h)

bit-gather :
    (input : List ℕ) (t : List (ℕ × ℕ)) (i : ℕ)
    → i < 32
    → bit (gather input t) i ≡ largest (input_bit input) (sources t i)
unfolding gather
bit-gather input t i h = bit-or_all (bitnum input) (input_bit input) (bit-bitnum input) t i h

bit-scatter :
    (s0 s1 : ℕ) (t : List ((Bool × ℕ) × ℕ)) (i : ℕ)
    → i < 8
    → bit (scatter s0 s1 t) i ≡ largest (word_bit s0 s1) (sources t i)
unfolding scatter word_bit bitnum_intr
bit-scatter s0 s1 t i h =
    bit-mod 8
      (or_all (map (λ (e : (Bool × ℕ) × ℕ). bitnum_intr (if e.0.0 then s1 else s0) e.0.1 e.1) t)) i
      h
    ∙ bit-or_all (λ (e : Bool × ℕ) (c : ℕ). bitnum_intr (if e.0 then s1 else s0) e.1 c)
        (word_bit s0 s1)
        (λ e c j k.
          rw (and_one-shr (if e.0 then s1 else s0) (31 - e.1)) (bit-shl32 _ c j (bit-lt _ _) k))
        t i (omega arith)

-- The one source of a bit, if there is exactly one.
pub only {ℓ} : {A : Type ℓ} → List A → Option A
only [] = none
only (a ∷ []) = some a
only (a ∷ (b ∷ xs)) = none

largest-only :
    {A : Type 0} (v : A → ℕ) (xs : List A) (a : A) → only xs ≡ some a → largest v xs ≡ v a
unfolding only largest
largest-only v [] a e = absurd (ground arith)
largest-only v (x ∷ []) a e = let same : x ≡ a = ground arith in rw same (omega arith)
largest-only v (x ∷ (y ∷ xs)) a e = absurd (ground arith)

abbrev pub initial_table : Bool → List (ℕ × ℕ)
initial_table w = if w then initial_right else initial_left

-- From a bit of the output block back to the word it is taken from and on to the input block.
abbrev pub traces_back : List ((Bool × ℕ) × ℕ) → ℕ → ℕ → ℕ → Bool
traces_back t i k j = elim (only (sources t i)) [
  | none ↦ false
  | some (w, b) ↦ elim (only (sources (initial_table w) (31 - b))) [
    | none ↦ false
    | some src ↦ ((spot src).0 == k) && ((spot src).1 == j)
  ]
]

pub back_table :
    holds_below 8 (λ k. holds_below 8 (λ i. traces_back (item [] inverse_bytes k) i k i)) ≡ true
unfolding holds_below only sources
back_table = refl

-- From a bit of a word back to the block it is taken from and on to the word before.
abbrev pub traces_forth : Bool → ℕ → Bool
traces_forth w i = elim (only (sources (initial_table w) i)) [
  | none ↦ false
  | some src ↦
      ltb (spot src).0 8
      && (ltb (spot src).1 8
          && elim (only (sources (item [] inverse_bytes (spot src).0) (spot src).1)) [
            | none ↦ false
            | some (v, b) ↦ (if v then w else not w) && (31 - b == i)
          ])
]

pub forth_table : (w : Bool) → holds_below 32 (traces_forth w) ≡ true
unfolding holds_below only sources
forth_table true = refl
forth_table false = refl

gather_word :
    (input : List ℕ) (w : Bool)
    → (if w then gather input initial_right else gather input initial_left)
      ≡ gather input (initial_table w)
gather_word input true = refl
gather_word input false = refl

gather-only :
    (input : List ℕ) (t : List (ℕ × ℕ)) (i src : ℕ)
    → i < 32
    → only (sources t i) ≡ some src
    → bit (gather input t) i ≡ input_bit input src
gather-only input t i src h e =
    bit-gather input t i h ∙ largest-only (input_bit input) (sources t i) src e

scatter-only :
    (s0 s1 : ℕ) (t : List ((Bool × ℕ) × ℕ)) (i : ℕ) (w : Bool) (b : ℕ)
    → i < 8
    → only (sources t i) ≡ some (w, b)
    → bit (scatter s0 s1 t) i ≡ bit (if w then s1 else s0) (31 - b)
unfolding word_bit
scatter-only s0 s1 t i w b h e =
    bit-scatter s0 s1 t i h ∙ largest-only (word_bit s0 s1) (sources t i) (w, b) e

spot-bit :
    (input : List ℕ) (src k j : ℕ)
    → (((spot src).0 == k) && ((spot src).1 == j)) ≡ true
    → input_bit input src ≡ bit (item 0 input k) j
unfolding input_bit
spot-bit input src k j e =
    let byte : (spot src).0 ≡ k = ground arith in
    let place : (spot src).1 ≡ j = ground arith in rw (byte, place) refl

pub back_bit :
    (input : List ℕ) (t : List ((Bool × ℕ) × ℕ)) (i k j : ℕ)
    → i < 8
    → traces_back t i k j ≡ true
    → bit (scatter (gather input initial_left) (gather input initial_right) t) i
      ≡ bit (item 0 input k) j
back_bit input t i k j h e = elim (Option-cases (only (sources t i))) [
  | inl n ↦ absurd (ground arith)
  | inr ((w, b), f) ↦ elim (Option-cases (only (sources (initial_table w) (31 - b)))) [
    | inl n ↦ absurd (ground arith)
    | inr (src, g) ↦
        let e' : (((spot src).0 == k) && ((spot src).1 == j)) ≡ true = ground arith in
        scatter-only _ _ t i w b h f
        ∙ (ap (λ (x : ℕ). bit x (31 - b)) (gather_word input w)
            ∙ (gather-only input (initial_table w) (31 - b) src (omega arith) g
                ∙ spot-bit input src k j e'))
  ]
]

pub item-map {ℓ κ} :
    {A : Type ℓ} {B : Type κ} (f : A → B) (a : A) (b : B) (xs : List A) (i : ℕ)
    → i < length xs
    → item b (map f xs) i ≡ f (item a xs i)
item-map f a b [] i h = absurd (omega arith)
item-map f a b (x ∷ xs) zero h = refl
item-map f a b (x ∷ xs) (suc i) h = item-map f a b xs i (omega arith)

input_bit_lem :
    (input : List ℕ) (b : ℕ) → input_bit input b ≡ bit (item 0 input (spot b).0) (spot b).1
unfolding input_bit
input_bit_lem input b = refl

same_word :
    (s0 s1 : ℕ) (v w : Bool) (b i : ℕ)
    → (if v then w else not w) ≡ true
    → 31 - b ≡ i
    → bit (if v then s1 else s0) (31 - b) ≡ bit (if w then s1 else s0) i
same_word s0 s1 true true b i e h = ap (bit s1) h
same_word s0 s1 false false b i e h = ap (bit s0) h
same_word s0 s1 true false b i e h = absurd (ground arith)
same_word s0 s1 false true b i e h = absurd (ground arith)

pub forth_bit :
    (s0 s1 : ℕ) (w : Bool) (i : ℕ)
    → i < 32
    → traces_forth w i ≡ true
    → bit (gather (inverse_permutation s0 s1) (initial_table w)) i ≡ bit (if w then s1 else s0) i
unfolding inverse_permutation
forth_bit s0 s1 w i h e = elim (Option-cases (only (sources (initial_table w) i))) [
  | inl n ↦ absurd (ground arith)
  | inr (src, g) ↦
      let k = (spot src).0 in
      let p = (spot src).1 in
      let k_lt : ltb k 8 ≡ true = ground arith in
      let p_lt : ltb p 8 ≡ true = ground arith in
      elim (Option-cases (only (sources (item [] inverse_bytes k) p))) [
        | inl n ↦ absurd (ground arith)
        | inr ((v, b), f) ↦
            let same : (if v then w else not w) ≡ true = ground arith in
            let place : 31 - b ≡ i = ground arith in
            gather-only (map (scatter s0 s1) inverse_bytes) (initial_table w) i src h g
            ∙ (input_bit_lem (map (scatter s0 s1) inverse_bytes) src
                ∙ (ap (λ (x : ℕ). bit x p)
                      (item-map (scatter s0 s1) [] 0 inverse_bytes k (ground arith))
                    ∙ (scatter-only s0 s1 (item [] inverse_bytes k) p v b (ground arith) f
                        ∙ same_word s0 s1 v w b i same place)))
      ]
]
