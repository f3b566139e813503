-- ===== src/Providers/QqCrypto/Schedule.antt =====
-- internal/providers/qqmusic_crypto.go: the key schedule and the three passes over a block.
use Prim.Native.Nat.{bit_and, bit_or}
use lyrics_plus.Common.{ℕ, suc, ◌+◌, ◌-◌, ◌%◌, ◌^◌, List, [], ◌∷◌, map, set, take, drop, replicate}
use lyrics_plus.Common.Bits.{shr, shl32}
use lyrics_plus.Providers.QqCrypto.Tables.{
  key_perm_c, key_perm_d, key_rnd_shift, compression_c, compression_d,
}
use lyrics_plus.Providers.QqCrypto.Cipher.{item, bitnum, bitnum_intr, crypt_block}

-- The mode of a key schedule, `desModeEncrypt` or `desModeDecrypt`.
pub data DesMode : Type 0 where
  encrypt decrypt : DesMode

-- `for i := 0; i < 28; i++ { c += bitnum(key, keyPermC[i], 31-i) }`
unfoldable pub permuted_half : List ℕ → ℕ → ℕ → List ℕ → ℕ
unfolding bitnum
permuted_half key acc i [] = acc
permuted_half key acc i (b ∷ bs) =
    permuted_half key ((acc + bitnum key b (31 - i)) % 2 ^ 32) (suc i) bs

-- `((c << shift) | (c >> (28 - shift))) & 0xFFFFFFF0`
unfoldable pub rotate_half : ℕ → ℕ → ℕ
rotate_half c shift = bit_and (bit_or (shl32 c shift) (shr c (28 - shift))) 0xfffffff0

-- A byte of a round key: one bit for each entry of a row, from bit `pos` down.
unfoldable pub key_byte : ℕ → List ℕ → ℕ → ℕ
unfolding bitnum_intr
key_byte c [] pos = 0
key_byte c (b ∷ bs) pos = bit_or (bitnum_intr c b pos % 2 ^ 8) (key_byte c bs (pos - 1))

unfoldable pub round_key : ℕ → ℕ → List ℕ
unfolding key_byte
round_key c d =
    key_byte c (item [] compression_c 0) 7
    ∷ key_byte c (item [] compression_c 1) 7
    ∷ key_byte c (item [] compression_c 2) 7
    ∷ key_byte d (map (λ b. b - 27) (item [] compression_d 0)) 7
    ∷ key_byte d (map (λ b. b - 27) (item [] compression_d 1)) 7
    ∷ key_byte d (map (λ b. b - 27) (item [] compression_d 2)) 7
    ∷ []

-- `togen`
abbrev pub place : DesMode → ℕ → ℕ
place encrypt i = i
place decrypt i = 15 - i

unfoldable pub schedule_loop : DesMode → ℕ → List ℕ → ℕ → ℕ → List (List ℕ) → List (List ℕ)
schedule_loop mode i [] c d schedule = schedule
schedule_loop mode i (shift ∷ shifts) c d schedule =
    let c' = rotate_half c shift in
    let d' = rotate_half d shift in
    schedule_loop mode (suc i) shifts c' d' (set schedule (place mode i) (round_key c' d'))

unfoldable pub key_schedule : List ℕ → DesMode → List (List ℕ)
key_schedule key mode =
    schedule_loop mode 0 key_rnd_shift (permuted_half key 0 0 key_perm_c)
      (permuted_half key 0 0 key_perm_d) (replicate 16 (replicate 6 0))

-- `key[from:to]`
abbrev pub slice : List ℕ → ℕ → ℕ → List ℕ
slice key from to = take (to - from) (drop from key)

unfoldable pub tripledes_key_setup : List ℕ → DesMode → List (List (List ℕ))
tripledes_key_setup key encrypt =
    key_schedule (slice key 0 8) encrypt
    ∷ key_schedule (slice key 8 16) decrypt
    ∷ key_schedule (slice key 16 24) encrypt
    ∷ []
tripledes_key_setup key decrypt =
    key_schedule (slice key 16 24) decrypt
    ∷ key_schedule (slice key 8 16) encrypt
    ∷ key_schedule (slice key 0 8) decrypt
    ∷ []

unfoldable pub tripledes_crypt_block : List ℕ → List (List (List ℕ)) → List ℕ
tripledes_crypt_block block sched =
    let b0 = crypt_block block (item [] sched 0) in
    let b1 = crypt_block b0 (item [] sched 1) in crypt_block b1 (item [] sched 2)
