-- ===== src/Api/Pow.antt =====
-- internal/api/handlers/pow.go: the submission of lyrics with a proof of work, and its challenge.
-- What the handler calls outside of it stands in the record `Outside`: the tokens and digests of
-- Providers/Challenge, the JSON coder, the reading of the song's duration (a floating point number)
-- and its printing, and the lookups of the lyrics that a track has. The write to the store and the
-- upload are results. The client of the uploads is there when it is configured.

pub mod Checks
pub mod Refusals
use lyrics_plus.Common.{
  ℕ, ◌+◌, ◌^◌, Bool, true, false, not, ◌&&◌, ◌||◌, Option, none, some, List, [], ◌∷◌, ltb,
  if◌then◌else◌, length, take, lt_i64, add_i64, positive_or,
}
use lyrics_plus.Common.Text.{Text, codes, trim_space}
use lyrics_plus.Domain.{LyricsResponse}
use lyrics_plus.Domain.Query.{SearchQuery, is_empty}
use lyrics_plus.Parsers.Kpoe.{normalize_v2}
use lyrics_plus.Providers.Challenge.{ChallengeClaim, Issuer, Verifier, ok, err, verify, issue}
use lyrics_plus.Providers.Vandalism.{is_vandalism_update}
use lyrics_plus.Storage.Filename.{canonical_filename}

pub record SubmitPayload : Type 0 where
  pub proof_of_work_token : Text
  pub nonce : Text
  pub song_title : Text
  pub song_artist : Text
  pub song_album : Text
  pub song_duration : Text
  pub song_isrc : Text
  pub song_platform_id : Text
  pub lyrics_data : Text
  pub force_upload : Bool
  pub force_upload_snake : Bool

unfoldable pub is_force_upload : SubmitPayload → Bool
is_force_upload p = p.force_upload || p.force_upload_snake

pub record Outside : Type 0 where
  pub parse_token : ℕ → Text → Text → Option ChallengeClaim
  pub sha_hex : Text → Text
  pub decode_payload : Text → Option SubmitPayload
  pub decode_lyrics : Text → Option LyricsResponse
  pub encode_lyrics : LyricsResponse → Option Text
  pub duration_to_ms : Text → ℕ
  pub print_seconds : ℕ → Text
  pub provider_lyrics : SearchQuery → Option LyricsResponse
  pub store_lyrics : SearchQuery → Option LyricsResponse

pub record Pow : Type 0 where
  pub issuer : Option Issuer
  pub verifier : Option Verifier
  pub has_provider : Bool
  pub has_store : Bool
  pub has_gdrive : Bool
  pub max_body_bytes : ℕ
  pub accept_vandal : Bool
  pub allow_submissions : Bool

pub data SubmitError : Type 0 where
  submissions_disabled unreadable_body body_too_large invalid_json missing_proof : SubmitError
  server_misconfigured invalid_proof missing_parameters invalid_lyrics : SubmitError
  serialization_failed already_exists suspected_vandalism : SubmitError

unfoldable pub status_of : SubmitError → ℕ
status_of submissions_disabled = 503
status_of body_too_large = 413
status_of server_misconfigured = 500
status_of serialization_failed = 500
status_of already_exists = 409
status_of unreadable_body = 400
status_of invalid_json = 400
status_of missing_proof = 400
status_of invalid_proof = 400
status_of missing_parameters = 400
status_of invalid_lyrics = 400
status_of suspected_vandalism = 400

pub data Result (A : Type 0) : Type 0 where
  passed : A → Result A
  refused : SubmitError → Result A

abbrev pub or_refuse : {A : Type 0} → Option A → SubmitError → Result A
or_refuse none e = refused e
or_refuse (some a) e = passed a

abbrev pub refuse_if : Bool → SubmitError → Result (Unit {0})
refuse_if true e = refused e
refuse_if false e = passed tt

infixl 5 ◌>>=◌ ◌>>◌
abbrev pub ◌>>=◌ : {A B : Type 0} → Result A → (A → Result B) → Result B
passed a >>= f = f a
refused e >>= f = refused e

abbrev pub ◌>>◌ : {B : Type 0} → Result (Unit {0}) → Result B → Result B
m >> k = m >>= λ _. k

-- `io.ReadAll(io.LimitReader(r.Body, limit+1))`; `none` is a body that fails.
unfoldable pub read_limited : ℕ → Option Text → Option Text
read_limited limit none = none
read_limited limit (some body) =
    let n = add_i64 limit 1 in some (if lt_i64 0 n then take n body else [])

abbrev pub body_limit : Pow → ℕ
body_limit h = positive_or h.max_body_bytes (2 ^ 20)

unfoldable pub read_payload : Outside → Pow → Option Text → Result SubmitPayload
read_payload o h request = do
  refuse_if (not h.allow_submissions) submissions_disabled
  body ← or_refuse (read_limited (body_limit h) request) unreadable_body
  refuse_if (lt_i64 (body_limit h) (length body)) body_too_large
  or_refuse (o.decode_payload body) invalid_json

unfoldable pub check_verified : Outside → Verifier → ℕ → SubmitPayload → Result (Unit {0})
check_verified o v now p =
    elim (verify o.parse_token o.sha_hex v now p.proof_of_work_token p.nonce) [
      | ok challenge ↦ passed tt
      | err e ↦ refused invalid_proof
    ]

unfoldable pub check_proof : Outside → Pow → ℕ → SubmitPayload → Result (Unit {0})
check_proof o h now p = do
  refuse_if (is_empty p.proof_of_work_token || is_empty p.nonce) missing_proof
  v ← or_refuse h.verifier server_misconfigured
  check_verified o v now p

abbrev pub is_blank : Text → Bool
is_blank s = is_empty (trim_space s)

unfoldable pub lacks_parameters : SubmitPayload → Bool
lacks_parameters p =
    is_blank p.song_title
    || (is_blank p.song_artist || (is_blank p.song_duration || is_empty p.lyrics_data))

unfoldable pub query_of : Outside → SubmitPayload → SearchQuery
query_of o p = record {
  title = trim_space p.song_title;
  artist = trim_space p.song_artist;
  album = trim_space p.song_album;
  duration = o.duration_to_ms p.song_duration;
  isrc = trim_space p.song_isrc;
  platform_id = trim_space p.song_platform_id;
  sources = [];
  force_reload = false;
}

-- What is ready to be stored.
pub record Submission : Type 0 where
  pub query : SearchQuery
  pub lyrics : LyricsResponse
  pub content : Text
  pub file_name : Text

unfoldable pub submission_of : Outside → SubmitPayload → LyricsResponse → Text → Submission
submission_of o p norm content =
    let q = query_of o p in
    record {
      query = q;
      lyrics = norm;
      content = content;
      file_name =
          canonical_filename o.print_seconds q.artist q.title q.album q.duration q.isrc
            q.platform_id (codes "json");
    }

unfoldable pub prepare : Outside → SubmitPayload → Result Submission
prepare o p = do
  refuse_if (lacks_parameters p) missing_parameters
  next ← or_refuse (o.decode_lyrics p.lyrics_data) invalid_lyrics
  content ← or_refuse (o.encode_lyrics (normalize_v2 next)) serialization_failed
  passed (submission_of o p (normalize_v2 next) content)

unfoldable pub find_existing : Outside → Pow → SearchQuery → Option LyricsResponse
find_existing o h q =
    if h.has_provider then o.provider_lyrics q else if h.has_store then o.store_lyrics q else none

abbrev pub is_some : Option LyricsResponse → Bool
is_some none = false
is_some (some r) = true

-- The reply and what is done beside it.
pub record Stored : Type 0 where
  pub file_name : Text
  pub saved : Option (SearchQuery × Text)
  pub uploaded : Option (Text × Text)

unfoldable pub store_submission : Pow → Submission → Stored
store_submission h s = record {
  file_name = s.file_name;
  saved = if h.has_store then some (s.query, s.content) else none;
  uploaded = if h.has_gdrive then some (s.file_name, s.content) else none;
}

unfoldable pub accept : Outside → Pow → SubmitPayload → Submission → Result Stored
accept o h p s = do
  let existing = find_existing o h s.query
  refuse_if (is_some existing && not (is_force_upload p)) already_exists
  refuse_if (not h.accept_vandal && is_vandalism_update existing (some s.lyrics))
      suspected_vandalism
  passed (store_submission h s)

unfoldable pub submit : Outside → Pow → ℕ → Option Text → Result Stored
submit o h now request = do
  p ← read_payload o h request
  check_proof o h now p
  s ← prepare o p
  accept o h p s

-- `GetChallenge`: the status, and the token with the difficulty.
unfoldable pub get_challenge :
    (ChallengeClaim → Text → Option Text) → Text → Pow → ℕ → ℕ × Option (Text × ℕ)
get_challenge sign uuid h now = elim h.issuer [
  | none ↦ (500, none)
  | some i ↦ elim (issue sign uuid i now) [
    | none ↦ (500, none)
    | some (token, challenge) ↦
        (200, some (token, elim h.verifier [ none ↦ 0 | some v ↦ v.difficulty ]))
  ]
]
