-- ===== src/Storage/Codec.antt =====
-- internal/storage/codec.go. compress/zlib and compress/gzip are parameters: what a writer makes
-- of its bytes, and what a reader gives, `none` where it does not start and else the bytes it
-- yields before its end, with a flag for an end that is an error. The pools hold only scratch
-- buffers and readers that are reset, and are left out.
pub mod RoundTrip
use lyrics_plus.Common.{
  ℕ, suc, ◌+◌, Bool, true, false, not, ◌&&◌, ◌||◌, Option, none, some, List, [], ◌∷◌, ltb, leb,
  ◌==◌, if◌then◌else◌, length, take,
}
use lyrics_plus.Domain.Query.{is_empty}

pub record Codecs : Type 0 where
  pub zlib_write : List ℕ → List ℕ
  pub zlib_read : List ℕ → Option (List ℕ × Bool)
  pub gzip_read : List ℕ → Option (List ℕ × Bool)

abbrev pub content_raw : ℕ
content_raw = 0

abbrev pub content_compressed : ℕ
content_compressed = 1

unfoldable pub is_raw_zlib_header : List ℕ → Bool
is_raw_zlib_header [] = false
is_raw_zlib_header (a ∷ []) = false
is_raw_zlib_header (a ∷ (b ∷ bytes)) =
    a == 0x78 && (b == 0x01 || (b == 0x5e || (b == 0x9c || b == 0xda)))

unfoldable pub is_gzip_header : List ℕ → Bool
is_gzip_header [] = false
is_gzip_header (a ∷ []) = false
is_gzip_header (a ∷ (b ∷ bytes)) = a == 0x1f && b == 0x8b

unfoldable pub compress_content : Codecs → List ℕ → List ℕ
compress_content c bytes =
    let scratch = content_compressed ∷ c.zlib_write bytes in
    if ltb (length bytes) 64
    then content_raw ∷ bytes
    else if leb (length bytes + 2) (length scratch)
    then content_raw ∷ bytes
    else scratch

-- `decompressZlibPayload` and `decompressGzipPayload`, after the reader
unfoldable pub payload_or : List ℕ → Option (List ℕ × Bool) → List ℕ
payload_or fallback none = fallback
payload_or fallback (some (out, failed)) = if failed && is_empty out then fallback else out

abbrev pub decompress_zlib_payload : Codecs → List ℕ → List ℕ → List ℕ
decompress_zlib_payload c compressed fallback = payload_or fallback (c.zlib_read compressed)

abbrev pub decompress_gzip_payload : Codecs → List ℕ → List ℕ
decompress_gzip_payload c bytes = payload_or bytes (c.gzip_read bytes)

unfoldable pub decompress_content : Codecs → List ℕ → List ℕ
decompress_content c [] = []
decompress_content c (a ∷ bytes) =
    if a == content_compressed
    then decompress_zlib_payload c bytes (a ∷ bytes)
    else if a == content_raw
    then bytes
    else if is_gzip_header (a ∷ bytes)
    then decompress_gzip_payload c (a ∷ bytes)
    else if is_raw_zlib_header (a ∷ bytes)
    then decompress_zlib_payload c (a ∷ bytes) (a ∷ bytes)
    else a ∷ bytes

-- `bytes[:len(dst)]`, and whether that is all of it; `n` is `len(dst)`
unfoldable pub cut : ℕ → List ℕ → List ℕ × Bool
cut n bytes = if leb (length bytes) n then (bytes, true) else (take n bytes, false)

-- `readPrefixFromReader`: the bytes, whether they are all, and whether an error is returned
unfoldable pub read_prefix_from_reader : ℕ → List ℕ × Bool → List ℕ × (Bool × Bool)
read_prefix_from_reader n (out, failed) =
    if ltb (length out) n
    then (out, (not failed, failed))
    else (take n out, (leb (length out) n && not failed, false))

-- `readZlibPrefix` and `readGzipPrefix`, after the reader
unfoldable pub prefix_or : ℕ → List ℕ → Option (List ℕ × Bool) → List ℕ × Bool
prefix_or n fallback none = cut n fallback
prefix_or n fallback (some stream) =
    let (prefix, (complete, failed)) = read_prefix_from_reader n stream in
    if failed && is_empty prefix then cut n fallback else (prefix, complete)

abbrev pub read_zlib_prefix : Codecs → List ℕ → List ℕ → ℕ → List ℕ × Bool
read_zlib_prefix c compressed fallback n = prefix_or n fallback (c.zlib_read compressed)

abbrev pub read_gzip_prefix : Codecs → List ℕ → ℕ → List ℕ × Bool
read_gzip_prefix c bytes n = prefix_or n bytes (c.gzip_read bytes)

unfoldable pub decompress_content_prefix : Codecs → List ℕ → ℕ → List ℕ × Bool
decompress_content_prefix c [] n = ([], true)
decompress_content_prefix c (a ∷ bytes) n =
    if n == 0
    then ([], true)
    else if a == content_compressed
    then read_zlib_prefix c bytes (a ∷ bytes) n
    else if a == content_raw
    then cut n bytes
    else if is_gzip_header (a ∷ bytes)
    then read_gzip_prefix c (a ∷ bytes) n
    else if is_raw_zlib_header (a ∷ bytes)
    then read_zlib_prefix c (a ∷ bytes) (a ∷ bytes) n
    else cut n (a ∷ bytes)
