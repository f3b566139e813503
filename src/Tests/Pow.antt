-- ===== src/Tests/Pow.antt =====
-- internal/api/handlers/pow.go on a concrete submission.
use lyrics_plus.Common.{
  ℕ, ◌*◌, ◌≡◌, refl, true, false, Option, none, some, [], ◌∷◌, lt_i64, add_i64, positive_or,
  is_negative, arith,
}
use lyrics_plus.Common.Text.{Text, codes, text_eq, trim_space, trim_left, is_space, join}
use lyrics_plus.Domain.{Line, LyricsResponse, sync_type_line}
use lyrics_plus.Domain.Query.{is_empty}
use lyrics_plus.Parsers.Kpoe.{normalize_v2, unflatten, is_flat_lyrics, all_indexed}
use lyrics_plus.Providers.Challenge.{
  ChallengeClaim, Issuer, ok, claims_of, issue, verify, is_past, starts_with_zeros, repeat_zero,
  second,
}
use lyrics_plus.Providers.Challenge.Solved.{IsBefore, verify-issue}
use lyrics_plus.Providers.Vandalism.{
  is_vandalism_update, text_len, lines_length, byte_length, rune_length, any_negative, shrinks,
}
use lyrics_plus.Storage.Filename.{
  cleanup, unreserved, is_reserved, fields_from, or_null, canonical_filename,
}
use lyrics_plus.Tests.Keys.{no_metadata}
use lyrics_plus.Api.Pow.{
  SubmitPayload, Outside, Pow, passed, refused, invalid_proof, submit, read_payload, read_limited,
  check_proof, check_verified, prepare, lacks_parameters, query_of, submission_of, accept,
  find_existing, store_submission, is_force_upload, Stored,
}
use lyrics_plus.Api.Pow.Refusals.{Reason, submit_refused}

-- Tokens that are not signed: the two times, and the challenge.
abbrev sign : ChallengeClaim → Text → Option Text
sign c secret = elim c.issued_at [
  | none ↦ none
  | some a ↦ elim c.expires_at [ none ↦ none | some e ↦ some (a ∷ (e ∷ c.challenge)) ]
]

abbrev parse : ℕ → Text → Text → Option ChallengeClaim
parse now [] secret = none
parse now (a ∷ []) secret = none
parse now (a ∷ (e ∷ challenge)) secret =
    some record { challenge = challenge; issued_at = some a; expires_at = some e }

abbrev sha_hex : Text → Text
sha_hex s = b'0' ∷ s

reads_of :
    (later : ℕ) (challenge : Text) (i x : Option ℕ) (t : Text)
    → sign record { challenge = challenge; issued_at = i; expires_at = x } [] ≡ some t
    → parse later t [] ≡ some record { challenge = challenge; issued_at = i; expires_at = x }
reads_of later challenge none x t h = absurd (ground arith)
reads_of later challenge (some a) none t h = absurd (ground arith)
reads_of later challenge (some a) (some e) t h =
    let same : t ≡ a ∷ (e ∷ challenge) = ground arith in rw same refl

reads :
    (later : ℕ) (c : ChallengeClaim) (t : Text)
    → sign c [] ≡ some t
    → IsBefore later c.expires_at
    → parse later t [] ≡ some c
reads later c t signed before = reads_of later c.challenge c.issued_at c.expires_at t signed

abbrev issuer : Issuer
issuer = record { secret = []; ttl = 600 * second }

issued : issue sign (codes "c") issuer (101 * second) ≡ some (101 ∷ (701 ∷ codes "c"), codes "c")
unfolding issue claims_of
issued = refl

verify-issue_example :
    verify parse sha_hex
      record { secret = []; difficulty = 1 }
      (700 * second)
      (101 ∷ (701 ∷ codes "c"))
      (codes "n")
    ≡ ok (codes "c")
verify-issue_example =
    verify-issue parse sha_hex sign issuer 1 (101 * second) (700 * second) (codes "c") (codes "n")
      (101 ∷ (701 ∷ codes "c")) (codes "c") (reads (700 * second)) issued (omega arith)
      (omega arith, refl)

abbrev one_line : Line
one_line = record {
  time = 0;
  duration = 500;
  text = codes "la";
  is_line_ending = none;
  syllabus = [];
  element = record {
    key = [];
    singer = [];
    song_part_index = some 0;
    song_part = [];
    is_background = false;
  };
  translation = none;
  transliteration = none;
}

abbrev lyrics : LyricsResponse
lyrics = record {
  type = sync_type_line;
  kpoe_tools = [];
  metadata = no_metadata;
  ignore_sponsorblock = none;
  lyrics = one_line ∷ [];
  cached = [];
  processing_time = none;
  raw_data = [];
}

abbrev payload : Text → SubmitPayload
payload nonce = record {
  proof_of_work_token = 101 ∷ (701 ∷ codes "c");
  nonce = nonce;
  song_title = codes "Song ";
  song_artist = codes "Artist";
  song_album = [];
  song_duration = codes "1";
  song_isrc = [];
  song_platform_id = [];
  lyrics_data = codes "{}";
  force_upload = false;
  force_upload_snake = false;
}

-- The body is the nonce; every digest begins with one zero.
abbrev outside : Outside
outside = record {
  parse_token = parse;
  sha_hex = sha_hex;
  decode_payload = λ body. some (payload body);
  decode_lyrics = λ data'. some lyrics;
  encode_lyrics = λ r. some (codes "[]");
  duration_to_ms = λ s. 1000;
  print_seconds = λ ms. codes "1.00";
  provider_lyrics = λ q. none;
  store_lyrics = λ q. none;
}

abbrev pow : ℕ → Pow
pow difficulty = record {
  issuer = some issuer;
  verifier = some record { secret = []; difficulty = difficulty };
  has_provider = false;
  has_store = true;
  has_gdrive = false;
  max_body_bytes = 0;
  accept_vandal = false;
  allow_submissions = true;
}

abbrev stored : Stored
stored = record {
  file_name = codes "Artist - Song (1.00) <null::null>.json";
  saved = some (
    record {
      title = codes "Song";
      artist = codes "Artist";
      album = [];
      duration = 1000;
      isrc = [];
      platform_id = [];
      sources = [];
      force_reload = false;
    },
    codes "[]",
  );
  uploaded = none;
}

submitted : submit outside (pow 1) (700 * second) (some (codes "n")) ≡ passed stored
unfolding submit read_payload read_limited check_proof check_verified verify is_past
    starts_with_zeros repeat_zero prepare lacks_parameters query_of submission_of accept
    find_existing store_submission is_force_upload is_vandalism_update text_len lines_length
    byte_length rune_length any_negative is_negative shrinks normalize_v2 unflatten is_flat_lyrics
    all_indexed canonical_filename cleanup unreserved is_reserved fields_from or_null is_empty
    trim_space trim_left is_space join text_eq lt_i64 add_i64 positive_or
submitted = refl

unsolved : submit outside (pow 2) (700 * second) (some (codes "n")) ≡ refused invalid_proof
unfolding submit read_payload read_limited check_proof check_verified verify is_past
    starts_with_zeros repeat_zero is_empty text_eq lt_i64 add_i64 positive_or
unsolved = refl

submit_refused_example : Reason outside (pow 2) (700 * second) (some (codes "n")) invalid_proof
submit_refused_example =
    submit_refused outside (pow 2) (700 * second) (some (codes "n")) invalid_proof unsolved
