-- ===== src/Providers/Challenge/Solved.antt =====
-- internal/providers/lyricsplus.go: an accepted proof of work is one, and an issued challenge
-- that is solved in time is accepted.
use lyrics_plus.Common.{
  ℕ, ◌+◌, ◌*◌, ◌≤◌, ◌<◌, ◌≡◌, ◌↔◌, refl, ap, subst, ◌∙◌, true, false, inl, inr, Option, none, some,
  ◌++◌, Bool-cases, Option-cases, length, take, replicate, arith,
}
use lyrics_plus.Common.Text.{Text, text_eq_iff}
use lyrics_plus.Providers.Challenge.{
  ChallengeClaim, Issuer, Verifier, ok, claims_of, numeric_date, issue, is_past, starts_with_zeros,
  repeat_zero, verify, second,
}

-- A number in hexadecimal digits begins with `need` zeros, each of four bits.
abbrev pub HasZeros : ℕ → Text → Type 0
HasZeros need digits = (need ≤ length digits) × (take need digits ≡ replicate need b'0')

pub starts_with_zeros_iff :
    (need : ℕ) (digits : Text) → (starts_with_zeros need digits ≡ true) ↔ HasZeros need digits
unfolding starts_with_zeros repeat_zero
starts_with_zeros_iff need digits =
    ground (arith, text_eq_iff (take need digits) (replicate need b'0'))

-- What an accepted token proves: it was signed, it has not expired, and the digest of its
-- challenge with the nonce begins with as many hexadecimal zeros as the difficulty asks.
abbrev pub IsProof :
    (ℕ → Text → Text → Option ChallengeClaim)
    → (Text → Text)
    → Verifier
    → ℕ
    → Text
    → Text
    → Text
    → Type 0
IsProof parse sha_hex v now token nonce challenge =
    (claims : ChallengeClaim) × (parse now token v.secret ≡ some claims)
    × (claims.challenge ≡ challenge)
    × (is_past now claims.expires_at ≡ false)
    × HasZeros v.difficulty (sha_hex (challenge ++ nonce))

module _ (parse : ℕ → Text → Text → Option ChallengeClaim) (sha_hex : Text → Text) where
  pub verify_sound :
      (v : Verifier) (now : ℕ) (token nonce challenge : Text)
      → verify parse sha_hex v now token nonce ≡ ok challenge
      → IsProof parse sha_hex v now token nonce challenge
  unfolding verify
  verify_sound v now token nonce challenge h = elim (Option-cases (parse now token v.secret)) [
    | inl e ↦ absurd (ground arith)
    | inr (claims, e) ↦ elim (Bool-cases (is_past now claims.expires_at)) [
      | inl past ↦ absurd (ground arith)
      | inr fresh ↦
          elim (Bool-cases (starts_with_zeros v.difficulty (sha_hex (claims.challenge ++ nonce)))) [
            | inr short ↦ absurd (ground arith)
            | inl zeros ↦
                let same : claims.challenge ≡ challenge = ground arith in
                (
                  claims,
                  e,
                  same,
                  fresh,
                  subst (λ c. HasZeros v.difficulty (sha_hex (c ++ nonce))) same
                      ((starts_with_zeros_iff v.difficulty _).0 zeros),
                )
          ]
    ]
  ]

  pub verify_complete :
      (v : Verifier) (now : ℕ) (token nonce challenge : Text)
      → IsProof parse sha_hex v now token nonce challenge
      → verify parse sha_hex v now token nonce ≡ ok challenge
  unfolding verify
  verify_complete v now token nonce challenge (claims, e, same, fresh, zeros) =
      rw
        (
          e,
          verify,
          fresh,
          same,
          (starts_with_zeros_iff v.difficulty (sha_hex (challenge ++ nonce))).1 zeros,
        )
        refl

abbrev pub IsBefore : ℕ → Option ℕ → Type 0
IsBefore now none = Unit
IsBefore now (some date) = now < date * second

-- A challenge that was issued, with a nonce that solves it, is accepted before its time of
-- expiry, cut to whole seconds, provided that a token that was signed is read again under
-- the same secret until it expires.
pub verify-issue :
    (parse : ℕ → Text → Text → Option ChallengeClaim) (sha_hex : Text → Text)
    (sign : ChallengeClaim → Text → Option Text) (i : Issuer) (difficulty now later : ℕ)
    (uuid nonce token challenge : Text)
    → ((c : ChallengeClaim) (t : Text)
        → sign c i.secret ≡ some t
        → IsBefore later c.expires_at
        → parse later t i.secret ≡ some c)
    → issue sign uuid i now ≡ some (token, challenge)
    → later < numeric_date (now + i.ttl) * second
    → HasZeros difficulty (sha_hex (challenge ++ nonce))
    → verify parse sha_hex record { secret = i.secret; difficulty = difficulty } later token nonce
      ≡ ok challenge
unfolding issue claims_of is_past
verify-issue parse sha_hex sign i difficulty now later uuid nonce token challenge reads issued
      intime zeros =
    elim (Option-cases (sign (claims_of i now uuid) i.secret)) [
      | inl e ↦ absurd (ground arith)
      | inr (t, e) ↦
          let same : t ≡ token = ground arith in
          let same' : uuid ≡ challenge = ground arith in
          let fresh : is_past later (some (numeric_date (now + i.ttl))) ≡ false = ground arith in
          verify_complete parse sha_hex _ later token nonce challenge (
            claims_of i now uuid,
            reads (claims_of i now uuid) token (e ∙ ap some same) intime,
            same',
            fresh,
            zeros,
          )
    ]
