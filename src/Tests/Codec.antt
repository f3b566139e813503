-- ===== src/Tests/Codec.antt =====
-- Stored content at concrete bytes (internal/storage/codec.go).
use lyrics_plus.Common.{
  ℕ, ◌≡◌, refl, Bool, false, Option, none, some, List, [], ◌∷◌, length, take, leb, ◌==◌,
  if◌then◌else◌, replicate, arith,
}
use lyrics_plus.Domain.Query.{is_empty}
use lyrics_plus.Storage.Codec.{
  Codecs, compress_content, decompress_content, decompress_content_prefix, is_gzip_header,
  is_raw_zlib_header, payload_or,
}
use lyrics_plus.Storage.Codec.RoundTrip.{decompress_content_prefix-take, decompress-compress}

-- A header and the bytes as they are; a reader refuses another header.
abbrev unheaded : List ℕ → Option (List ℕ × Bool)
unheaded [] = none
unheaded (a ∷ []) = none
unheaded (a ∷ (b ∷ bytes)) = if a == 0x78 then some (bytes, false) else none

abbrev codecs : Codecs
codecs = record {
  zlib_write = λ bytes. 0x78 ∷ (0x01 ∷ bytes);
  zlib_read = unheaded;
  gzip_read = λ bytes. none;
}

abbrev lyrics : List ℕ
lyrics = replicate 70 b'a'

decompress-compress_example :
    (decompress_content codecs (compress_content codecs lyrics) ≡ lyrics)
    × (decompress_content_prefix codecs (compress_content codecs lyrics) 8
        ≡ (take 8 lyrics, leb (length lyrics) 8))
decompress-compress_example = decompress-compress codecs lyrics 8 (λ bytes. refl) (omega arith)

-- Content of the older format, the zlib bytes alone.
abbrev older : List ℕ
older = 0x78 ∷ (0x01 ∷ (b'h' ∷ (b'i' ∷ [])))

decompress_content_prefix-take_example :
    (decompress_content_prefix codecs older 1).0 ≡ take 1 (decompress_content codecs older)
decompress_content_prefix-take_example = decompress_content_prefix-take codecs older 1 (omega arith)

older_read : decompress_content codecs older ≡ b'h' ∷ (b'i' ∷ [])
unfolding decompress_content is_gzip_header is_raw_zlib_header payload_or is_empty
older_read = refl
