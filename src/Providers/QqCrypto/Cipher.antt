-- ===== src/Providers/QqCrypto/Cipher.antt =====
-- internal/providers/qqmusic_crypto.go: the functions on one block, up to `cryptBlock`.
use Prim.Native.Nat.{bit_and, bit_or, bit_xor}
use lyrics_plus.Common.{
  ℕ, ◌+◌, ◌-◌, ◌*◌, ◌/◌, ◌%◌, ◌^◌, Bool, none, some, List, [], ◌∷◌, map, if◌then◌else◌, get_elem?,
}
use lyrics_plus.Common.Bits.{shr, shl32}
use lyrics_plus.Providers.QqCrypto.Tables.{
  initial_left, initial_right, inverse_bytes, round_permutation, sbox,
}

-- `a[i]`; the indices of the code stay inside its arrays
abbrev pub item {ℓ} : {A : Type ℓ} → A → List A → ℕ → A
item d xs i = elim (get_elem? xs i) [ none ↦ d | some x ↦ x ]

-- `x | y | …`
unfoldable pub or_all : List ℕ → ℕ
or_all [] = 0
or_all (x ∷ xs) = bit_or x (or_all xs)

unfoldable pub bitnum : List ℕ → ℕ → ℕ → ℕ
bitnum a b c =
    let byte_idx = b / 32 * 4 + 3 - b % 32 / 8 in
    shl32 (bit_and (shr (item 0 a byte_idx) (7 - b % 8)) 1) c

unfoldable pub bitnum_intr : ℕ → ℕ → ℕ → ℕ
bitnum_intr a b c = shl32 (bit_and (shr a (31 - b)) 1) c

unfoldable pub bitnum_intl : ℕ → ℕ → ℕ → ℕ
bitnum_intl a b c = shr (bit_and (shl32 a b) 0x80000000) c

unfoldable pub sbox_bit : ℕ → ℕ
sbox_bit a = bit_or (bit_or (bit_and a 32) (shr (bit_and a 31) 1)) (bit_and a 1 * 2 ^ 4 % 2 ^ 8)

-- One word of `initial_permutation`
unfoldable pub gather : List ℕ → List (ℕ × ℕ) → ℕ
unfolding or_all bitnum
gather input entries = or_all (map (λ (e : ℕ × ℕ). bitnum input e.0 e.1) entries)

unfoldable pub initial_permutation : List ℕ → ℕ × ℕ
unfolding gather
initial_permutation input = (gather input initial_left, gather input initial_right)

-- One byte of `inverse_permutation`
unfoldable pub scatter : ℕ → ℕ → List ((Bool × ℕ) × ℕ) → ℕ
unfolding or_all bitnum_intr
scatter s0 s1 entries =
    or_all (map (λ (e : (Bool × ℕ) × ℕ). bitnum_intr (if e.0.0 then s1 else s0) e.0.1 e.1) entries)
    % 2 ^ 8

unfoldable pub inverse_permutation : ℕ → ℕ → List ℕ
unfolding scatter
inverse_permutation s0 s1 = map (scatter s0 s1) inverse_bytes

-- `t1` and `t2`
unfoldable pub expand_high : ℕ → ℕ
unfolding or_all bitnum_intl
expand_high s = or_all (
    bitnum_intl s 31 0
    ∷ shr (bit_and s 0xf0000000) 1
    ∷ bitnum_intl s 4 5
    ∷ bitnum_intl s 3 6
    ∷ shr (bit_and s 0x0f000000) 3
    ∷ bitnum_intl s 8 11
    ∷ bitnum_intl s 7 12
    ∷ shr (bit_and s 0x00f00000) 5
    ∷ bitnum_intl s 12 17
    ∷ bitnum_intl s 11 18
    ∷ shr (bit_and s 0x000f0000) 7
    ∷ bitnum_intl s 16 23
    ∷ [])

unfoldable pub expand_low : ℕ → ℕ
unfolding or_all bitnum_intl
expand_low s = or_all (
    bitnum_intl s 15 0
    ∷ shl32 (bit_and s 0x0000f000) 15
    ∷ bitnum_intl s 20 5
    ∷ bitnum_intl s 19 6
    ∷ shl32 (bit_and s 0x00000f00) 13
    ∷ bitnum_intl s 24 11
    ∷ bitnum_intl s 23 12
    ∷ shl32 (bit_and s 0x000000f0) 11
    ∷ bitnum_intl s 28 17
    ∷ bitnum_intl s 27 18
    ∷ shl32 (bit_and s 0x0000000f) 9
    ∷ bitnum_intl s 0 23
    ∷ [])

-- `lrgstate`
unfoldable pub large_state : ℕ → List ℕ
unfolding expand_high expand_low
large_state s =
    let t1 = expand_high s in
    let t2 = expand_low s in
    bit_and (shr t1 24) 0xff
    ∷ bit_and (shr t1 16) 0xff
    ∷ bit_and (shr t1 8) 0xff
    ∷ bit_and (shr t2 24) 0xff
    ∷ bit_and (shr t2 16) 0xff
    ∷ bit_and (shr t2 8) 0xff
    ∷ []

unfoldable pub xor_bytes : List ℕ → List ℕ → List ℕ
xor_bytes [] key = []
xor_bytes (a ∷ xs) [] = a ∷ xs
xor_bytes (a ∷ xs) (k ∷ key) = bit_xor a k ∷ xor_bytes xs key

-- `sbox[i][sbox_bit(x)] << c`
unfoldable pub substitute : ℕ → ℕ → ℕ → ℕ
unfolding sbox_bit
substitute i x c = shl32 (item 0 (item [] sbox i) (sbox_bit x)) c

-- `((x & mask) << n) | (y >> m)` on bytes
unfoldable pub across : ℕ → ℕ → ℕ → ℕ → ℕ → ℕ
across x mask n y m = bit_or (bit_and x mask * 2 ^ n % 2 ^ 8) (shr y m)

-- `stateRes`
unfoldable pub state_res : List ℕ → ℕ
unfolding or_all substitute across
state_res l = or_all (
    substitute 0 (shr (item 0 l 0) 2) 28
    ∷ substitute 1 (across (item 0 l 0) 0x03 4 (item 0 l 1) 4) 24
    ∷ substitute 2 (across (item 0 l 1) 0x0f 2 (item 0 l 2) 6) 20
    ∷ substitute 3 (bit_and (item 0 l 2) 0x3f) 16
    ∷ substitute 4 (shr (item 0 l 3) 2) 12
    ∷ substitute 5 (across (item 0 l 3) 0x03 4 (item 0 l 4) 4) 8
    ∷ substitute 6 (across (item 0 l 4) 0x0f 2 (item 0 l 5) 6) 4
    ∷ substitute 7 (bit_and (item 0 l 5) 0x3f) 0
    ∷ [])

-- `f`
unfoldable pub round_word : ℕ → List ℕ → ℕ
unfolding or_all bitnum_intl state_res xor_bytes large_state
round_word state key =
    let res = state_res (xor_bytes (large_state state) key) in
    or_all (map (λ (e : ℕ × ℕ). bitnum_intl res e.0 e.1) round_permutation)

-- The loop of `cryptBlock` over the sixteen keys; the last round does not exchange the words.
unfoldable pub rounds : List (List ℕ) → ℕ × ℕ → ℕ × ℕ
unfolding round_word
rounds [] s = s
rounds (k ∷ []) (s0, s1) = (bit_xor (round_word s1 k) s0, s1)
rounds (k ∷ (k' ∷ ks)) (s0, s1) = rounds (k' ∷ ks) (s1, bit_xor (round_word s1 k) s0)

unfoldable pub crypt_block : List ℕ → List (List ℕ) → List ℕ
unfolding initial_permutation rounds inverse_permutation
crypt_block input key =
    let (s0, s1) = rounds key (initial_permutation input) in inverse_permutation s0 s1
