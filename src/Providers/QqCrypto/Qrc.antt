-- ===== src/Providers/QqCrypto/Qrc.antt =====
-- `DecryptQRC` of internal/providers/qqmusic_crypto.go. The decoders of encoding/hex,
-- compress/zlib and compress/flate are parameters; a reader's error is `none`.
use lyrics_plus.Common.{
  ℕ, zero, suc, ◌*◌, ◌/◌, ◌%◌, ◌<◌, ◌≡◌, refl, ◌∙◌, ap, false, not, ◌||◌, Option, none, some, List,
  [], ◌∷◌, ◌++◌, ltb, take-length_append, drop-length_append, take-append_drop, length-take,
  length-drop, All-take, All-drop, ◌==◌, if◌then◌else◌, ◌∙◌, ap, false, length, length-append, take,
  drop, All, arith,
}
use lyrics_plus.Common.Text.{Text}
use lyrics_plus.Domain.Query.{is_empty}
use lyrics_plus.Providers.QqCrypto.Tables.{qq_key}
use lyrics_plus.Providers.QqCrypto.Schedule.{
  encrypt, decrypt, tripledes_key_setup, tripledes_crypt_block,
}
use lyrics_plus.Providers.QqCrypto.Inverse.{
  IsBlock, tripledes_decrypts, tripledes_crypt_block-IsBlock,
}

pub record Decoders : Type 0 where
  pub hex_decode : Text → Option (List ℕ)
  pub zlib_read : List ℕ → Option (List ℕ)
  pub flate_read : List ℕ → Option (List ℕ)

pub data QrcResult : Type 0 where
  ok : List ℕ → QrcResult
  hex_error : QrcResult
  invalid_length : ℕ → QrcResult
  decompression_error : QrcResult

-- The loop over the blocks, `n` of them.
unfoldable pub crypt_blocks : List (List (List ℕ)) → ℕ → List ℕ → List ℕ
crypt_blocks sched zero input = []
crypt_blocks sched (suc n) input =
    tripledes_crypt_block (take 8 input) sched ++ crypt_blocks sched n (drop 8 input)

-- `err == nil && len(data) > 0`
unfoldable pub read_something : Option (List ℕ) → Option (List ℕ)
read_something none = none
read_something (some out) = if is_empty out then none else some out

-- The end of `DecryptQRC`, after the loop over the blocks.
unfoldable pub inflate : Decoders → List ℕ → QrcResult
inflate d plain = elim (read_something (d.zlib_read plain)) [
  | some out ↦ ok out
  | none ↦ elim (read_something (d.flate_read plain)) [
    | some out ↦ ok out
    | none ↦ decompression_error
  ]
]

unfoldable pub decrypt_bytes : Decoders → List ℕ → QrcResult
decrypt_bytes d cipher =
    let n = length cipher in
    if ltb n 8 || not (n % 8 == 0)
    then invalid_length n
    else inflate d (crypt_blocks (tripledes_key_setup qq_key decrypt) (n / 8) cipher)

unfoldable pub decrypt_qrc : Decoders → Text → QrcResult
decrypt_qrc d text = elim (d.hex_decode text) [
  | none ↦ hex_error
  | some cipher ↦ decrypt_bytes d cipher
]

abbrev pub AreBytes : List ℕ → Type 0
AreBytes xs = All (λ (b : ℕ). b < 256) xs

-- Whole blocks that went through the encrypting keys come back through the decrypting ones.
crypt_blocks_decrypts :
    (key : List ℕ) (n : ℕ) (xs : List ℕ)
    → length xs ≡ n * 8
    → AreBytes xs
    → crypt_blocks
        (tripledes_key_setup key decrypt)
        n
        (crypt_blocks (tripledes_key_setup key encrypt) n xs)
      ≡ xs
unfolding crypt_blocks
crypt_blocks_decrypts key zero [] h z = refl
crypt_blocks_decrypts key zero (x ∷ xs) h z = absurd (omega arith)
crypt_blocks_decrypts key (suc n) xs h z =
    let block : IsBlock (take 8 xs) =
      (length-take 8 xs (omega arith), All-take (λ (b : ℕ). b < 256) 8 xs z) in
    let size : length (drop 8 xs) ≡ n * 8 = omega (arith, length-drop 8 xs) in
    let c = tripledes_crypt_block (take 8 xs) (tripledes_key_setup key encrypt) in
    let cs = crypt_blocks (tripledes_key_setup key encrypt) n (drop 8 xs) in
    let eight = (tripledes_crypt_block-IsBlock (take 8 xs) (tripledes_key_setup key encrypt)).0 in
    rw
      (
        take-length_append 8 c cs eight,
        drop-length_append 8 c cs eight,
        tripledes_decrypts (take 8 xs) key block,
        crypt_blocks_decrypts key n (drop 8 xs) size (All-drop (λ (b : ℕ). b < 256) 8 xs z),
      )
      (take-append_drop 8 xs)

length-crypt_blocks :
    (sched : List (List (List ℕ))) (n : ℕ) (xs : List ℕ) → length (crypt_blocks sched n xs) ≡ n * 8
unfolding crypt_blocks
length-crypt_blocks sched zero xs = refl
length-crypt_blocks sched (suc n) xs =
    let block = tripledes_crypt_block (take 8 xs) sched in
    omega (
      arith,
      length-append block (crypt_blocks sched n (drop 8 xs)),
      length-crypt_blocks sched n (drop 8 xs),
      (tripledes_crypt_block-IsBlock (take 8 xs) sched).0,
    )

decrypt_bytes-blocks :
    (d : Decoders) (n : ℕ) (cipher : List ℕ)
    → length cipher ≡ suc n * 8
    → decrypt_bytes d cipher
      ≡ inflate d (crypt_blocks (tripledes_key_setup qq_key decrypt) (suc n) cipher)
unfolding decrypt_bytes
decrypt_bytes-blocks d n cipher long =
    let blocks : length cipher / 8 ≡ suc n = omega arith in
    let whole : (ltb (length cipher) 8 || not (length cipher % 8 == 0)) ≡ false = ground arith in
    rw (whole, decrypt_bytes) (rw (blocks, decrypt_bytes) refl)

-- A text that spells whole blocks of `plain`, encrypted under the program's key, is decrypted to
-- what the decompression makes of `plain`.
pub decrypt_qrc-encrypted :
    (d : Decoders) (text : Text) (n : ℕ) (plain : List ℕ)
    → d.hex_decode text ≡ some (crypt_blocks (tripledes_key_setup qq_key encrypt) (suc n) plain)
    → length plain ≡ suc n * 8
    → AreBytes plain
    → decrypt_qrc d text ≡ inflate d plain
unfolding decrypt_qrc
decrypt_qrc-encrypted d text n plain decoded size bytes =
    let sched = tripledes_key_setup qq_key encrypt in
    rw (decoded, decrypt_qrc)
      (decrypt_bytes-blocks d n (crypt_blocks sched (suc n) plain)
          (length-crypt_blocks sched (suc n) plain)
        ∙ ap (inflate d) (crypt_blocks_decrypts qq_key (suc n) plain size bytes))
