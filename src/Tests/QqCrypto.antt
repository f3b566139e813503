-- ===== src/Tests/QqCrypto.antt =====
-- A text through the cipher (internal/providers/qqmusic_crypto.go).
use lyrics_plus.Common.{
  ℕ, ◌+◌, ◌-◌, ◌*◌, ◌≡◌, refl, List, [], ◌∷◌, Option, none, some, ◌==◌, leb, if◌then◌else◌, take,
  arith,
}
use mathlib.Core.Option
use lyrics_plus.Common.Text.{Text, codes}
use lyrics_plus.Providers.QqCrypto.Tables.{qq_key}
use lyrics_plus.Providers.QqCrypto.Cipher.{
  or_all, bitnum, bitnum_intr, bitnum_intl, sbox_bit, gather, initial_permutation, scatter,
  inverse_permutation, expand_high, expand_low, large_state, xor_bytes, substitute, across,
  state_res, round_word, rounds, crypt_block,
}
use lyrics_plus.Providers.QqCrypto.Schedule.{
  encrypt, decrypt, tripledes_key_setup, tripledes_crypt_block, permuted_half, rotate_half,
  key_byte, round_key, schedule_loop, key_schedule,
}
use lyrics_plus.Providers.QqCrypto.Inverse.{tripledes_decrypts}
use lyrics_plus.Providers.QqCrypto.Qrc.{
  Decoders, crypt_blocks, inflate, decrypt_qrc, decrypt_qrc-encrypted,
}

abbrev block : List ℕ
block = 1 ∷ 2 ∷ 3 ∷ 250 ∷ 5 ∷ 77 ∷ 130 ∷ 255 ∷ []

tripledes_decrypts_example :
    tripledes_crypt_block
      (tripledes_crypt_block block (tripledes_key_setup qq_key encrypt))
      (tripledes_key_setup qq_key decrypt)
    ≡ block
tripledes_decrypts_example = tripledes_decrypts block qq_key (
  refl,
  (
    omega arith,
    (
      omega arith,
      (omega arith, (omega arith, (omega arith, (omega arith, (omega arith, (omega arith, tt)))))),
    ),
  ),
)

abbrev digit : ℕ → ℕ
digit c = if leb c b'9' then c - b'0' else c - b'a' + 10

-- Pairs of hexadecimal digits; an odd one is an error.
abbrev hex_decode : Text → Option (List ℕ)
hex_decode [] = some []
hex_decode (c ∷ []) = none
hex_decode (c ∷ (c' ∷ s)) =
    Option.map (λ (bs : List ℕ). (digit c * 16 + digit c') ∷ bs) (hex_decode s)

-- A final stored block of fewer than 256 bytes.
abbrev stored : List ℕ → Option (List ℕ)
stored (final ∷ (n ∷ (n1 ∷ (m ∷ (m1 ∷ rest))))) = if final == 1 then some (take n rest) else none
stored bs = none

abbrev decoders : Decoders
decoders = record { hex_decode = hex_decode; zlib_read = λ bs. none; flate_read = stored }

abbrev plain : List ℕ
plain = 1 ∷ 3 ∷ 0 ∷ 252 ∷ 255 ∷ 97 ∷ 98 ∷ 99 ∷ []

decoded :
    hex_decode (codes "7dc897414b446536")
    ≡ some (crypt_blocks (tripledes_key_setup qq_key encrypt) 1 plain)
unfolding crypt_blocks tripledes_crypt_block tripledes_key_setup key_schedule schedule_loop
    round_key key_byte rotate_half permuted_half or_all bitnum bitnum_intr bitnum_intl sbox_bit
    gather initial_permutation scatter inverse_permutation expand_high expand_low large_state
    xor_bytes substitute across state_res round_word rounds crypt_block
decoded = refl

decrypt_qrc-encrypted_example :
    decrypt_qrc decoders (codes "7dc897414b446536") ≡ inflate decoders plain
decrypt_qrc-encrypted_example =
    decrypt_qrc-encrypted decoders (codes "7dc897414b446536") 0 plain decoded refl (
      omega arith,
      (
        omega arith,
        (
          omega arith,
          (omega arith, (omega arith, (omega arith, (omega arith, (omega arith, tt))))),
        ),
      ),
    )
