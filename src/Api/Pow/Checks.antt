-- ===== src/Api/Pow/Checks.antt =====
-- internal/api/handlers/pow.go: what is stored has passed every check, and what passes them is
-- stored.
use lyrics_plus.Common.{
  ℕ, ◌≡◌, ◌⊎◌, ◌↔◌, refl, ap, Bool, true, false, not, ◌&&◌, ◌||◌, inl, inr, Option, none, some,
  Option-cases, length, lt_i64, arith,
}
use lyrics_plus.Common.Text.{Text}
use lyrics_plus.Domain.{LyricsResponse}
use lyrics_plus.Domain.Query.{is_empty}
use lyrics_plus.Parsers.Kpoe.{normalize_v2}
use lyrics_plus.Providers.Challenge.{Verifier, Verified, VerifyError, ok, err, verify}
use lyrics_plus.Providers.Challenge.Solved.{IsProof, verify_sound, verify_complete}
use lyrics_plus.Providers.Vandalism.{is_vandalism_update, IsSound, is_vandalism_update_iff}
use lyrics_plus.Api.Pow.{
  SubmitPayload, Outside, Pow, Result, passed, refused, SubmitError, or_refuse, refuse_if, ◌>>=◌,
  read_limited, body_limit, read_payload, check_verified, check_proof, lacks_parameters, Submission,
  submission_of, prepare, find_existing, is_some, is_force_upload,
}

pub refuse_if-passed :
    {B : Type 0} (b : Bool) (e : SubmitError) (next : Result B) {r : B}
    → (refuse_if b e >>= λ _. next) ≡ passed r
    → (b ≡ false) × (next ≡ passed r)
refuse_if-passed true e next h = absurd (ground arith)
refuse_if-passed false e next h = (refl, h)

pub or_refuse-passed :
    {A B : Type 0} (o : Option A) (e : SubmitError) (f : A → Result B) {r : B}
    → (or_refuse o e >>= f) ≡ passed r
    → (a : A) × (o ≡ some a) × (f a ≡ passed r)
or_refuse-passed none e f h = absurd (ground arith)
or_refuse-passed (some a) e f h = (a, refl, h)

pub bind-passed :
    {A B : Type 0} (m : Result A) (f : A → Result B) {r : B}
    → (m >>= f) ≡ passed r
    → (a : A) × (m ≡ passed a) × (f a ≡ passed r)
bind-passed (passed a) f h = (a, refl, h)
bind-passed (refused e) f h = absurd (ground arith)

pub Verified-cases : (x : Verified) → ((c : Text) × (x ≡ ok c)) ⊎ ((e : VerifyError) × (x ≡ err e))
Verified-cases (ok c) = inl (c, refl)
Verified-cases (err e) = inr (e, refl)

pub may_overwrite_iff :
    (existing : Option LyricsResponse) (forced : Bool)
    → ((is_some existing && not forced) ≡ false) ↔ ((existing ≡ none) ⊎ (forced ≡ true))
may_overwrite_iff none forced = ground arith
may_overwrite_iff (some r) forced = ground arith

pub may_change_iff :
    (accepted : Bool) (existing : Option LyricsResponse) (next : LyricsResponse)
    → ((not accepted && is_vandalism_update existing (some next)) ≡ false)
      ↔ ((accepted ≡ true) ⊎ IsSound existing next)
may_change_iff true existing next = ground arith
may_change_iff false existing next = ground (arith, is_vandalism_update_iff existing next)

passed_inj : {A : Type 0} {a b : A} → passed a ≡ passed b → a ≡ b
passed_inj h = ground arith

module _ (o : Outside) (h : Pow) (now : ℕ) where
  abbrev pub IsRead : Option Text → SubmitPayload → Type 0
  IsRead request p =
      (body : Text) × (h.allow_submissions ≡ true)
      × (read_limited (body_limit h) request ≡ some body)
      × (lt_i64 (body_limit h) (length body) ≡ false)
      × (o.decode_payload body ≡ some p)

  abbrev pub IsProven : SubmitPayload → Type 0
  IsProven p =
      (v : Verifier) × (challenge : Text) × ((is_empty p.proof_of_work_token || is_empty p.nonce)
        ≡ false)
      × (h.verifier ≡ some v)
      × IsProof o.parse_token o.sha_hex v now p.proof_of_work_token p.nonce challenge

  abbrev pub IsPrepared : SubmitPayload → Submission → Type 0
  IsPrepared p s =
      (next : LyricsResponse) × (content : Text) × (lacks_parameters p ≡ false)
      × (o.decode_lyrics p.lyrics_data ≡ some next)
      × (o.encode_lyrics (normalize_v2 next) ≡ some content)
      × (submission_of o p (normalize_v2 next) content ≡ s)

  abbrev pub IsAllowed : SubmitPayload → Submission → Type 0
  IsAllowed p s =
      let existing = find_existing o h s.query in
      ((existing ≡ none) ⊎ (is_force_upload p ≡ true))
      × ((h.accept_vandal ≡ true) ⊎ IsSound existing s.lyrics)

  pub read_payload_iff :
      (request : Option Text) (p : SubmitPayload)
      → (read_payload o h request ≡ passed p) ↔ IsRead request p
  unfolding read_payload
  read_payload_iff request p = (
    λ e.
        let (allowed, e1) = refuse_if-passed (not h.allow_submissions) _ _ e in
        let (body, read, e2) = or_refuse-passed (read_limited (body_limit h) request) _ _ e1 in
        let (fits, e3) = refuse_if-passed (lt_i64 (body_limit h) (length body)) _ _ e2 in
        elim (Option-cases (o.decode_payload body)) [
          | inl no_json ↦ absurd (ground arith)
          | inr (q, f) ↦ (body, ground arith, read, fits, ground arith)
        ],
    λ c. let (body, allowed, read, fits, decoded) = c in rw (allowed, read, fits, decoded) refl,
  )

  pub check_verified_iff :
      (v : Verifier) (p : SubmitPayload)
      → (check_verified o v now p ≡ passed tt) ↔ (
          (challenge : Text) × IsProof o.parse_token o.sha_hex v now p.proof_of_work_token p.nonce
            challenge)
  unfolding check_verified
  check_verified_iff v p = (
    λ e.
        elim (Verified-cases (verify o.parse_token o.sha_hex v now p.proof_of_work_token p.nonce)) [
          | inl (c, f) ↦ (c, verify_sound o.parse_token o.sha_hex v now _ _ c f)
          | inr (w, f) ↦ absurd (ground arith)
        ],
    λ c. rw (verify_complete o.parse_token o.sha_hex v now _ _ c.0 c.1, check_verified) refl,
  )

  pub check_proof_iff : (p : SubmitPayload) → (check_proof o h now p ≡ passed tt) ↔ IsProven p
  unfolding check_proof
  check_proof_iff p = (
    λ e.
        let (given, e1) =
          refuse_if-passed (is_empty p.proof_of_work_token || is_empty p.nonce) _ _ e in
        let (v, known, e2) = or_refuse-passed h.verifier _ _ e1 in
        let (challenge, proof) = (check_verified_iff v p).0 e2 in
        (v, challenge, given, known, proof),
    λ c.
        let (v, challenge, given, known, proof) = c in
        rw (given, known) ((check_verified_iff v p).1 (challenge, proof)),
  )

  pub prepare_iff : (p : SubmitPayload) (s : Submission) → (prepare o p ≡ passed s) ↔ IsPrepared p s
  unfolding prepare
  prepare_iff p s = (
    λ e.
        let (full, e1) = refuse_if-passed (lacks_parameters p) _ _ e in
        let (next, read, e2) = or_refuse-passed (o.decode_lyrics p.lyrics_data) _ _ e1 in
        let (content, written, e3) =
          or_refuse-passed (o.encode_lyrics (normalize_v2 next)) _ _ e2 in
        (next, content, full, read, written, passed_inj e3),
    λ c.
        let (next, content, full, read, written, same) = c in
        rw (full, read, written) (ap passed same),
  )
