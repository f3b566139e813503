-- ===== src/Providers/QqCrypto/Inverse.antt =====
-- Decryption undoes encryption (internal/providers/qqmusic_crypto.go).
use Prim.Native.Nat.{bit_and, bit_xor}
use mathlib.Core.List.{reverse, reverse-reverse}
use native.Mathlib.Nat.{div-le_self}
use lyrics_plus.Common.{
  ℕ, zero, suc, ◌*◌, ◌%◌, ◌^◌, ◌<◌, ◌≡◌, refl, sym, ◌∙◌, ap, Bool, true, false, List, [], ◌∷◌, map,
  length, All, replicate, if◌then◌else◌, arith, holds_below, holds_below_at,
}
use lyrics_plus.Common.Bits.{eq_of_bits, or-lt, xor-lt, and-le}
use lyrics_plus.Providers.QqCrypto.Tables.{
  initial_left, initial_right, inverse_bytes, key_rnd_shift, key_perm_c, key_perm_d,
  round_permutation,
}
use lyrics_plus.Providers.QqCrypto.Cipher.{
  item, or_all, bitnum, bitnum_intl, gather, initial_permutation, scatter, inverse_permutation,
  round_word, rounds, crypt_block, state_res, xor_bytes, large_state,
}
use lyrics_plus.Providers.QqCrypto.Schedule.{
  encrypt, decrypt, slice, key_schedule, permuted_half, schedule_loop, tripledes_key_setup,
  tripledes_crypt_block,
}
use lyrics_plus.Providers.QqCrypto.Feistel.{rounds-reverse}
use lyrics_plus.Providers.QqCrypto.Permutations.{
  back_bit, forth_bit, traces_back, traces_forth, initial_table, back_table, forth_table,
}

-- Eight bytes.
abbrev pub IsBlock : List ℕ → Type 0
IsBlock xs = (length xs ≡ 8) × All (λ (b : ℕ). b < 256) xs

item-lt : (n : ℕ) (xs : List ℕ) (i : ℕ) → 0 < n → All (λ (b : ℕ). b < n) xs → item 0 xs i < n
item-lt n [] i h a = h
item-lt n (x ∷ xs) zero h a = a.0
item-lt n (x ∷ xs) (suc i) h a = item-lt n xs i h a.1

map-eq_of_items {ℓ} :
    {A : Type ℓ} (f : A → ℕ) (d : A) (ts : List A) (xs : List ℕ)
    → length ts ≡ length xs
    → ((j : ℕ) → j < length ts → f (item d ts j) ≡ item 0 xs j)
    → map f ts ≡ xs
map-eq_of_items f d [] [] e h = refl
map-eq_of_items f d [] (x ∷ xs) e h = absurd (omega arith)
map-eq_of_items f d (t ∷ ts) [] e h = absurd (omega arith)
map-eq_of_items f d (t ∷ ts) (x ∷ xs) e h =
    rw (h 0 (omega arith), map-eq_of_items f d ts xs (omega arith) (λ j k. h (suc j) (omega arith)))
      refl

scatter-lt : (s0 s1 : ℕ) (t : List ((Bool × ℕ) × ℕ)) → scatter s0 s1 t < 256
unfolding scatter
scatter-lt s0 s1 t = omega arith

-- The permutations undo one another.
inverse-initial :
    (input : List ℕ)
    → IsBlock input
    → inverse_permutation (gather input initial_left) (gather input initial_right) ≡ input
unfolding inverse_permutation
inverse-initial input (size, bytes) =
    map-eq_of_items (scatter (gather input initial_left) (gather input initial_right)) []
      inverse_bytes input (sym size)
      (λ j h.
        eq_of_bits 8 _ _ (scatter-lt _ _ (item [] inverse_bytes j))
          (item-lt 256 input j (omega arith) bytes)
          (λ i k. back_bit input (item [] inverse_bytes j) i j i k (
            holds_below_at 8 (λ (x : ℕ). traces_back (item [] inverse_bytes j) x j x) i k
              (holds_below_at 8
                (λ (y : ℕ). holds_below 8 (λ (x : ℕ). traces_back (item [] inverse_bytes y) x y x))
                j h back_table))))

or_all-lt : (xs : List ℕ) → All (λ (x : ℕ). x < 2 ^ 32) xs → or_all xs < 2 ^ 32
unfolding or_all
or_all-lt [] a = omega arith
or_all-lt (x ∷ xs) a = or-lt 32 x (or_all xs) a.0 (or_all-lt xs a.1)

All-map {ℓ} :
    {A : Type ℓ} (n : ℕ) (f : A → ℕ) (es : List A)
    → ((e : A) → f e < n)
    → All (λ (x : ℕ). x < n) (map f es)
All-map n f [] h = tt
All-map n f (e ∷ es) h = (h e, All-map n f es h)

gather-lt : (input : List ℕ) (t : List (ℕ × ℕ)) → gather input t < 2 ^ 32
unfolding gather bitnum
gather-lt input t =
    or_all-lt _ (All-map (2 ^ 32) (λ (e : ℕ × ℕ). bitnum input e.0 e.1) t (λ e. omega arith))

bitnum_intl-lt : (a b c : ℕ) → bitnum_intl a b c < 2 ^ 32
unfolding bitnum_intl
bitnum_intl-lt a b c =
    let x = bit_and (a * 2 ^ b % 2 ^ 32) 0x80000000 in
    omega (arith, and-le (a * 2 ^ b % 2 ^ 32) 0x80000000, div-le_self x (2 ^ c))

round_word-lt : (s : ℕ) (k : List ℕ) → round_word s k < 2 ^ 32
unfolding round_word
round_word-lt s k =
    let res = state_res (xor_bytes (large_state s) k) in
    or_all-lt (map (λ (e : ℕ × ℕ). bitnum_intl res e.0 e.1) round_permutation) (
      All-map (2 ^ 32) (λ (e : ℕ × ℕ). bitnum_intl res e.0 e.1) round_permutation
        (λ e. bitnum_intl-lt res e.0 e.1))

abbrev AreWords : ℕ × ℕ → Type 0
AreWords s = (s.0 < 2 ^ 32) × (s.1 < 2 ^ 32)

rounds-AreWords : (ks : List (List ℕ)) (s : ℕ × ℕ) → AreWords s → AreWords (rounds ks s)
unfolding rounds
rounds-AreWords [] s a = a
rounds-AreWords (k ∷ []) s a = (xor-lt 32 (round_word s.1 k) s.0 (round_word-lt s.1 k) a.0, a.1)
rounds-AreWords (k ∷ (k' ∷ ks)) s a =
    rounds-AreWords (k' ∷ ks) (s.1, bit_xor (round_word s.1 k) s.0)
      (a.1, xor-lt 32 (round_word s.1 k) s.0 (round_word-lt s.1 k) a.0)

initial-inverse_half :
    (s0 s1 : ℕ) (w : Bool)
    → AreWords (s0, s1)
    → gather (inverse_permutation s0 s1) (initial_table w) ≡ (if w then s1 else s0)
initial-inverse_half s0 s1 w a =
    eq_of_bits 32 _ _ (gather-lt _ _) (ground arith)
      (λ i h. forth_bit s0 s1 w i h (holds_below_at 32 (traces_forth w) i h (forth_table w)))

initial-inverse : (s : ℕ × ℕ) → AreWords s → initial_permutation (inverse_permutation s.0 s.1) ≡ s
unfolding initial_permutation
initial-inverse s a =
    λ i. (initial-inverse_half s.0 s.1 false a i, initial-inverse_half s.0 s.1 true a i)

inverse_permutation-IsBlock : (s0 s1 : ℕ) → IsBlock (inverse_permutation s0 s1)
unfolding inverse_permutation
inverse_permutation-IsBlock s0 s1 =
    (refl, All-map 256 (scatter s0 s1) inverse_bytes (scatter-lt s0 s1))

initial_permutation-AreWords : (input : List ℕ) → AreWords (initial_permutation input)
unfolding initial_permutation
initial_permutation-AreWords input = (gather-lt input initial_left, gather-lt input initial_right)

put_back :
    (input : List ℕ)
    → IsBlock input
    → inverse_permutation (initial_permutation input).0 (initial_permutation input).1 ≡ input
unfolding initial_permutation
put_back input b = inverse-initial input b

crypt_block-IsBlock : (input : List ℕ) (ks : List (List ℕ)) → IsBlock (crypt_block input ks)
unfolding crypt_block
crypt_block-IsBlock input ks = inverse_permutation-IsBlock _ _

-- One pass with the keys in reverse order undoes a pass.
pub crypt_block-reverse :
    (input : List ℕ) (ks : List (List ℕ))
    → IsBlock input
    → crypt_block (crypt_block input ks) (reverse ks) ≡ input
unfolding crypt_block
crypt_block-reverse input ks b =
    let s = initial_permutation input in
    let t = rounds ks s in
    let put : ℕ × ℕ → List ℕ = λ r. inverse_permutation r.0 r.1 in
    let words : AreWords s = initial_permutation-AreWords input in
    ap (λ (r : ℕ × ℕ). put (rounds (reverse ks) r)) (initial-inverse t (rounds-AreWords ks s words))
    ∙ (ap put (rounds-reverse ks s) ∙ put_back input b)

loop_reverse :
    (c d : ℕ)
    → schedule_loop decrypt 0 key_rnd_shift c d (replicate 16 (replicate 6 0))
      ≡ reverse (schedule_loop encrypt 0 key_rnd_shift c d (replicate 16 (replicate 6 0)))
unfolding schedule_loop
loop_reverse c d = refl

-- The decrypting schedule is the encrypting one in reverse order.
schedule_reverse : (key : List ℕ) → key_schedule key decrypt ≡ reverse (key_schedule key encrypt)
unfolding key_schedule
schedule_reverse key =
    loop_reverse (permuted_half key 0 0 key_perm_c) (permuted_half key 0 0 key_perm_d)

decrypt_pass :
    (block key : List ℕ)
    → IsBlock block
    → crypt_block (crypt_block block (key_schedule key encrypt)) (key_schedule key decrypt) ≡ block
decrypt_pass block key b =
    ap (crypt_block (crypt_block block (key_schedule key encrypt))) (schedule_reverse key)
    ∙ crypt_block-reverse block (key_schedule key encrypt) b

encrypt_pass :
    (block key : List ℕ)
    → IsBlock block
    → crypt_block (crypt_block block (key_schedule key decrypt)) (key_schedule key encrypt) ≡ block
encrypt_pass block key b =
    let again : key_schedule key encrypt ≡ reverse (key_schedule key decrypt) =
      sym (ap reverse (schedule_reverse key) ∙ reverse-reverse (key_schedule key encrypt)) in
    ap (crypt_block (crypt_block block (key_schedule key decrypt))) again
    ∙ crypt_block-reverse block (key_schedule key decrypt) b

pub tripledes_crypt_block-IsBlock :
    (block : List ℕ) (sched : List (List (List ℕ))) → IsBlock (tripledes_crypt_block block sched)
unfolding tripledes_crypt_block
tripledes_crypt_block-IsBlock block sched = crypt_block-IsBlock _ (item [] sched 2)

-- For every key and every block of eight bytes, the three passes with the decrypting keys give
-- back the block that went through the three passes with the encrypting keys.
pub tripledes_decrypts :
    (block key : List ℕ)
    → IsBlock block
    → tripledes_crypt_block
        (tripledes_crypt_block block (tripledes_key_setup key encrypt))
        (tripledes_key_setup key decrypt)
      ≡ block
unfolding tripledes_crypt_block tripledes_key_setup
tripledes_decrypts block key b =
    let k1 = slice key 0 8 in
    let k2 = slice key 8 16 in
    let k3 = slice key 16 24 in
    let c1 = crypt_block block (key_schedule k1 encrypt) in
    let c2 = crypt_block c1 (key_schedule k2 decrypt) in
    let b1 = crypt_block-IsBlock block (key_schedule k1 encrypt) in
    let b2 = crypt_block-IsBlock c1 (key_schedule k2 decrypt) in
    ap
      (λ (x : List ℕ).
        crypt_block (crypt_block x (key_schedule k2 encrypt)) (key_schedule k1 decrypt))
      (decrypt_pass c2 k3 b2)
    ∙ (ap (λ (x : List ℕ). crypt_block x (key_schedule k1 decrypt)) (encrypt_pass c1 k2 b1)
        ∙ decrypt_pass block k1 b)
