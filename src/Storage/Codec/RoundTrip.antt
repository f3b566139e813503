-- ===== src/Storage/Codec/RoundTrip.antt =====
-- Compressing and decompressing content (internal/storage/codec.go).
use lyrics_plus.Common.{
  ℕ, suc, zero, ◌+◌, ◌≤◌, ◌<◌, ◌≡◌, refl, sym, ◌∙◌, ap, ◌⊎◌, inl, inr, Bool, true, false, not, ◌&&◌,
  Option, none, some, List, [], ◌∷◌, ltb, leb, ◌==◌, if◌then◌else◌, length, take, Bool-cases, arith,
}
use lyrics_plus.Domain.Query.{is_empty}
use lyrics_plus.Storage.Codec.{
  Codecs, content_raw, content_compressed, is_gzip_header, is_raw_zlib_header, compress_content,
  payload_or, decompress_content, cut, read_prefix_from_reader, prefix_or,
  decompress_content_prefix,
}

-- Reading what was written gives it back, without an error.
abbrev pub ReadsBack : Codecs → Type 0
ReadsBack c = (bytes : List ℕ) → c.zlib_read (c.zlib_write bytes) ≡ some (bytes, false)

take_all {ℓ} : {A : Type ℓ} (n : ℕ) (xs : List A) → length xs ≤ n → take n xs ≡ xs
take_all zero [] h = refl
take_all zero (x ∷ xs) h = absurd (omega arith)
take_all (suc n) [] h = refl
take_all (suc n) (x ∷ xs) h = ap (◌∷◌ x) (take_all n xs (omega arith))

cut-take : (n : ℕ) (bytes : List ℕ) → cut n bytes ≡ (take n bytes, leb (length bytes) n)
unfolding cut
cut-take n bytes = elim (Bool-cases (leb (length bytes) n)) [
  | inl all ↦ rw (all, cut) (ap (λ (x : List ℕ). (x, true)) (sym (take_all n bytes (ground arith))))
  | inr more ↦ rw (more, cut) refl
]

finish_prefix :
    (n : ℕ) (fallback out : List ℕ) (failed complete short : Bool)
    → (short ≡ true → take n out ≡ out)
    → (short ≡ false → (failed && is_empty out) ≡ false)
    → (let (prefix, (whole, bad)) : List ℕ × (Bool × Bool) =
          if short then (out, (not failed, failed)) else (take n out, (complete, false)) in
        let answer : List ℕ × Bool =
          if bad && is_empty prefix then cut n fallback else (prefix, whole) in
        answer.0 ≡ take n (if failed && is_empty out then fallback else out))
finish_prefix n fallback out failed complete true all more =
    elim (Bool-cases (failed && is_empty out)) [
      | inl nothing ↦ rw nothing (ap (λ (x : List ℕ × Bool). x.0) (cut-take n fallback))
      | inr something ↦ rw something (sym (all refl))
    ]
finish_prefix n fallback out failed complete false all more = rw (more refl) refl

is_empty-long : (out : List ℕ) (n : ℕ) → 0 < n → ltb (length out) n ≡ false → is_empty out ≡ false
unfolding is_empty
is_empty-long [] n h k = absurd (ground arith)
is_empty-long (x ∷ xs) n h k = refl

-- The prefix of a reader's bytes is that of what decompressing them whole gives.
prefix_or-take :
    (n : ℕ) (fallback : List ℕ) (stream : Option (List ℕ × Bool))
    → 0 < n
    → (prefix_or n fallback stream).0 ≡ take n (payload_or fallback stream)
unfolding prefix_or payload_or read_prefix_from_reader
prefix_or-take n fallback none h = ap (λ (x : List ℕ × Bool). x.0) (cut-take n fallback)
prefix_or-take n fallback (some (out, failed)) h =
    finish_prefix n fallback out failed (leb (length out) n && not failed) (ltb (length out) n)
      (λ short. take_all n out (ground arith))
      (λ long. rw (is_empty-long out n h long) (ground arith))

if-take :
    (n : ℕ) (b : Bool) (p q : List ℕ × Bool) (x y : List ℕ)
    → p.0 ≡ take n x
    → q.0 ≡ take n y
    → (let r : List ℕ × Bool = if b then p else q in r.0 ≡ take n (if b then x else y))
if-take n true p q x y h k = h
if-take n false p q x y h k = k

-- Reading up to `n` bytes of stored content, `n` not 0, gives the first `n` bytes of the content
-- decompressed whole, whatever the bytes are: compressed, raw, of an older format, or broken.
pub decompress_content_prefix-take :
    (c : Codecs) (stored : List ℕ) (n : ℕ)
    → 0 < n
    → (decompress_content_prefix c stored n).0 ≡ take n (decompress_content c stored)
unfolding decompress_content_prefix decompress_content
decompress_content_prefix-take c [] zero h = refl
decompress_content_prefix-take c [] (suc n) h = refl
decompress_content_prefix-take c (a ∷ bytes) n h =
    let there : (n == 0) ≡ false = ground arith in
    let all = a ∷ bytes in
    let first : (x : List ℕ) → (cut n x).0 ≡ take n x =
      λ x. ap (λ (r : List ℕ × Bool). r.0) (cut-take n x) in
    rw (there, decompress_content_prefix)
      (if-take n (a == content_compressed) _ _ _ _ (prefix_or-take n all (c.zlib_read bytes) h) (
        if-take n (a == content_raw) _ _ _ _ (first bytes) (
          if-take n (is_gzip_header all) _ _ _ _ (prefix_or-take n all (c.gzip_read all) h) (
            if-take n (is_raw_zlib_header all) _ _ _ _ (prefix_or-take n all (c.zlib_read all) h)
              (first all)))))

compress_content-either :
    (c : Codecs) (content : List ℕ)
    → (compress_content c content ≡ content_raw ∷ content)
      ⊎ (compress_content c content ≡ content_compressed ∷ c.zlib_write content)
unfolding compress_content
compress_content-either c content = elim (Bool-cases (ltb (length content) 64)) [
  | inl short ↦ inl (rw (short, compress_content) refl)
  | inr long ↦ elim (Bool-cases (leb (length content + 2) (suc (length (c.zlib_write content))))) [
    | inl grows ↦ inl (rw (long, grows, compress_content) refl)
    | inr shrinks ↦ inr (rw (long, shrinks, compress_content) refl)
  ]
]

and_true : (b : Bool) → (b && true) ≡ b
and_true true = refl
and_true false = refl

finish_whole :
    (n : ℕ) (fallback out : List ℕ) (short : Bool)
    → (short ≡ true → (take n out ≡ out) × (leb (length out) n ≡ true))
    → (let (prefix, (whole, bad)) : List ℕ × (Bool × Bool) =
          if short
          then (out, (true, false))
          else (take n out, (leb (length out) n && true, false)) in
        let answer : List ℕ × Bool =
          if bad && is_empty prefix then cut n fallback else (prefix, whole) in
        answer ≡ (take n out, leb (length out) n))
finish_whole n fallback out true all = λ i. (sym (all refl).0 i, sym (all refl).1 i)
finish_whole n fallback out false all = λ i. (take n out, and_true (leb (length out) n) i)

prefix_or-whole :
    (n : ℕ) (fallback out : List ℕ)
    → prefix_or n fallback (some (out, false)) ≡ (take n out, leb (length out) n)
unfolding prefix_or read_prefix_from_reader
prefix_or-whole n fallback out =
    finish_whole n fallback out (ltb (length out) n)
      (λ short. (take_all n out (ground arith), ground arith))

payload_or-whole : (fallback out : List ℕ) → payload_or fallback (some (out, false)) ≡ out
unfolding payload_or
payload_or-whole fallback out = refl

-- Where the zlib reader reads back what the writer wrote, decompressing compressed content gives it
-- back, and so does reading a prefix of any length `n` that is not 0: its first `n` bytes, with the
-- flag that says whether they are all of them.
pub decompress-compress :
    (c : Codecs) (content : List ℕ) (n : ℕ)
    → ReadsBack c
    → 0 < n
    → (decompress_content c (compress_content c content) ≡ content)
      × (decompress_content_prefix c (compress_content c content) n
          ≡ (take n content, leb (length content) n))
unfolding decompress_content decompress_content_prefix
decompress-compress c content n back h =
    let there : (n == 0) ≡ false = ground arith in
    let past : (r : List ℕ × Bool) → (if n == 0 then ([], true) else r) ≡ r =
      λ r. ap (λ b. if b then ([], true) else r) there in
    elim (compress_content-either c content) [
      | inl raw ↦ rw raw (refl, past (cut n content) ∙ cut-take n content)
      | inr small ↦
          let packed = c.zlib_write content in
          let fallback = content_compressed ∷ packed in
          rw (small, back content)
            (
              payload_or-whole fallback content,
              past (prefix_or n fallback (some (content, false)))
                  ∙ prefix_or-whole n fallback content,
            )
    ]
