-- ===== src/Providers/Challenge.antt =====
-- internal/providers/lyricsplus.go: the challenge of the proof of work. The tokens of
-- github.com/golang-jwt (signing under a secret; parsing at a time, with the check of the method,
-- `none` where the token is refused), the random identifier of github.com/google/uuid and the
-- hexadecimal SHA-256 are parameters. Times are nanoseconds; the difficulty is not negative.
pub mod Solved
use lyrics_plus.Common.{
  ℕ, ◌+◌, ◌*◌, ◌/◌, ◌^◌, Bool, true, false, not, ◌&&◌, Option, none, some, List, [], ◌∷◌, ◌++◌, ltb,
  if◌then◌else◌, length, take, replicate,
}
use lyrics_plus.Common.Text.{Text, text_eq}
use lyrics_plus.Domain.Query.{is_empty}

abbrev pub second : ℕ
second = 10 ^ 9

-- `challengeClaim`; a `NumericDate` is cut to whole seconds.
pub record ChallengeClaim : Type 0 where
  pub challenge : Text
  pub issued_at : Option ℕ
  pub expires_at : Option ℕ

pub record Issuer : Type 0 where
  pub secret : Text
  pub ttl : ℕ

pub record Verifier : Type 0 where
  pub secret : Text
  pub difficulty : ℕ

pub data VerifyError : Type 0 where
  invalid_token challenge_expired proof_failed : VerifyError

pub data Verified : Type 0 where
  ok : Text → Verified
  err : VerifyError → Verified

-- `jwt.NewNumericDate`
abbrev pub numeric_date : ℕ → ℕ
numeric_date t = t / second

unfoldable pub claims_of : Issuer → ℕ → Text → ChallengeClaim
claims_of i now challenge = record {
  challenge = challenge;
  issued_at = some (numeric_date now);
  expires_at = some (numeric_date (now + i.ttl));
}

-- `Issue`: the token and the challenge; `none` where the signing fails.
unfoldable pub issue :
    (ChallengeClaim → Text → Option Text) → Text → Issuer → ℕ → Option (Text × Text)
issue sign uuid i now = elim (sign (claims_of i now uuid) i.secret) [
  | none ↦ none
  | some token ↦ some (token, uuid)
]

unfoldable pub is_past : ℕ → Option ℕ → Bool
is_past now none = false
is_past now (some date) = ltb (date * second) now

unfoldable pub repeat_zero : ℕ → Text
repeat_zero n = replicate n b'0'

unfoldable pub starts_with_zeros : ℕ → Text → Bool
unfolding repeat_zero
starts_with_zeros need digits =
    not (ltb (length digits) need) && text_eq (take need digits) (repeat_zero need)

module _ (parse : ℕ → Text → Text → Option ChallengeClaim) (sha_hex : Text → Text) where
  unfoldable pub verify : Verifier → ℕ → Text → Text → Verified
  verify v now token nonce = elim (parse now token v.secret) [
    | none ↦ err invalid_token
    | some claims ↦
        if is_past now claims.expires_at
        then err challenge_expired
        else if starts_with_zeros v.difficulty (sha_hex (claims.challenge ++ nonce))
        then ok claims.challenge
        else err proof_failed
  ]

-- The settings of `LyricsPlusProvider` that `SetChallenge` writes; `difficulty` and `ttl` as
-- int64 that are not negative.
pub record ChallengeSettings : Type 0 where
  pub jwt_secret : Text
  pub difficulty : ℕ
  pub ttl : ℕ

unfoldable pub set_challenge : ChallengeSettings → Text → ℕ → ℕ → ChallengeSettings
set_challenge p secret difficulty ttl = record {
  jwt_secret = if is_empty secret then p.jwt_secret else secret;
  difficulty = if ltb 0 difficulty then difficulty else p.difficulty;
  ttl = if ltb 0 ttl then ttl else p.ttl;
}
