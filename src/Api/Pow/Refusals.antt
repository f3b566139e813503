-- ===== src/Api/Pow/Refusals.antt =====
-- internal/api/handlers/pow.go: what each refusal says of the request.
use lyrics_plus.Common.{
  ℕ, ◌≡◌, ◌≢◌, ◌⊎◌, refl, subst, Bool, true, false, not, ◌&&◌, ◌||◌, inl, inr, Option, none, some,
  Option-cases, length, lt_i64, arith,
}
use lyrics_plus.Common.Text.{Text}
use lyrics_plus.Domain.{LyricsResponse}
use lyrics_plus.Domain.Query.{is_empty}
use lyrics_plus.Parsers.Kpoe.{normalize_v2}
use lyrics_plus.Providers.Challenge.{Verifier, verify}
use lyrics_plus.Providers.Challenge.Solved.{IsProof}
use lyrics_plus.Providers.Vandalism.{is_vandalism_update, IsSound, is_vandalism_update_iff}
use lyrics_plus.Api.Pow.{
  SubmitPayload, Outside, Pow, Result, passed, refused, SubmitError, submissions_disabled,
  unreadable_body, body_too_large, invalid_json, missing_proof, server_misconfigured, invalid_proof,
  missing_parameters, invalid_lyrics, serialization_failed, already_exists, suspected_vandalism,
  or_refuse, refuse_if, ◌>>=◌, read_limited, body_limit, read_payload, check_verified, check_proof,
  lacks_parameters, Submission, prepare, find_existing, is_some, is_force_upload, accept, submit,
}
use lyrics_plus.Api.Pow.Checks.{
  IsRead, IsProven, IsPrepared, Verified-cases, read_payload_iff, check_proof_iff, prepare_iff,
  check_verified_iff,
}

refuse_if-refused :
    {B : Type 0} (b : Bool) (e : SubmitError) (next : Result B) {e' : SubmitError}
    → (refuse_if b e >>= λ _. next) ≡ refused e'
    → ((b ≡ true) × (e ≡ e')) ⊎ ((b ≡ false) × (next ≡ refused e'))
refuse_if-refused true e next h = inl (refl, ground arith)
refuse_if-refused false e next h = inr (refl, h)

or_refuse-refused :
    {A B : Type 0} (o : Option A) (e : SubmitError) (f : A → Result B) {e' : SubmitError}
    → (or_refuse o e >>= f) ≡ refused e'
    → ((o ≡ none) × (e ≡ e')) ⊎ ((a : A) × (o ≡ some a) × (f a ≡ refused e'))
or_refuse-refused none e f h = inl (refl, ground arith)
or_refuse-refused (some a) e f h = inr (a, refl, h)

bind-refused :
    {A B : Type 0} (m : Result A) (f : A → Result B) {e : SubmitError}
    → (m >>= f) ≡ refused e
    → (m ≡ refused e) ⊎ ((a : A) × (m ≡ passed a) × (f a ≡ refused e))
bind-refused (passed a) f h = inr (a, refl, h)
bind-refused (refused e) f h = inl (ground arith)

refuses_overwrite :
    (existing : Option LyricsResponse) (forced : Bool)
    → (is_some existing && not forced) ≡ true
    → (existing ≢ none) × (forced ≡ false)
refuses_overwrite none forced h = absurd (ground arith)
refuses_overwrite (some r) forced h = (λ e. absurd (ground arith), ground arith)

may_write :
    (existing : Option LyricsResponse) (forced : Bool)
    → (is_some existing && not forced) ≡ false
    → (existing ≡ none) ⊎ (forced ≡ true)
may_write none forced h = inl refl
may_write (some r) forced h = inr (ground arith)

refuses_change :
    (accepted : Bool) (existing : Option LyricsResponse) (next : LyricsResponse)
    → (not accepted && is_vandalism_update existing (some next)) ≡ true
    → (accepted ≡ false) × (IsSound existing next → ⊥)
refuses_change true existing next h = absurd (ground arith)
refuses_change false existing next h =
    (refl, λ sound. absurd (grind (arith, (is_vandalism_update_iff existing next).1 sound)))

module _ (o : Outside) (h : Pow) (now : ℕ) (request : Option Text) where
  abbrev HasBody : Text → Type 0
  HasBody body = read_limited (body_limit h) request ≡ some body

  abbrev HasProof : SubmitPayload → Type 0
  HasProof p = IsRead o h now request p × IsProven o h now p

  abbrev IsReady : SubmitPayload → Submission → Type 0
  IsReady p s = HasProof p × IsPrepared o h now p s

  abbrev IsGiven : SubmitPayload → Type 0
  IsGiven p =
      IsRead o h now request p × ((is_empty p.proof_of_work_token || is_empty p.nonce) ≡ false)

  abbrev IsNamed : SubmitPayload → Type 0
  IsNamed p = HasProof p × (lacks_parameters p ≡ false)

  -- What a request that is refused with an error has, the checks before it being passed.
  abbrev pub Reason : SubmitError → Type 0
  Reason submissions_disabled = h.allow_submissions ≡ false
  Reason unreadable_body =
      (h.allow_submissions ≡ true) × (read_limited (body_limit h) request ≡ none)
  Reason body_too_large =
      (body : Text) × (h.allow_submissions ≡ true)
      × HasBody body
      × (lt_i64 (body_limit h) (length body) ≡ true)
  Reason invalid_json =
      (body : Text) × (h.allow_submissions ≡ true)
      × HasBody body
      × (lt_i64 (body_limit h) (length body) ≡ false)
      × (o.decode_payload body ≡ none)
  Reason missing_proof =
      (p : SubmitPayload) × IsRead o h now request p
      × ((is_empty p.proof_of_work_token || is_empty p.nonce) ≡ true)
  Reason server_misconfigured = (p : SubmitPayload) × IsGiven p × (h.verifier ≡ none)
  Reason invalid_proof =
      (p : SubmitPayload) × (v : Verifier) × IsGiven p
      × (h.verifier ≡ some v)
      × ((challenge : Text)
          → IsProof o.parse_token o.sha_hex v now p.proof_of_work_token p.nonce challenge
          → ⊥)
  Reason missing_parameters = (p : SubmitPayload) × HasProof p × (lacks_parameters p ≡ true)
  Reason invalid_lyrics = (p : SubmitPayload) × IsNamed p × (o.decode_lyrics p.lyrics_data ≡ none)
  Reason serialization_failed =
      (p : SubmitPayload) × (next : LyricsResponse) × IsNamed p
      × (o.decode_lyrics p.lyrics_data ≡ some next)
      × (o.encode_lyrics (normalize_v2 next) ≡ none)
  Reason already_exists =
      (p : SubmitPayload) × (s : Submission) × IsReady p s
      × (find_existing o h s.query ≢ none)
      × (is_force_upload p ≡ false)
  Reason suspected_vandalism =
      (p : SubmitPayload) × (s : Submission) × IsReady p s
      × ((find_existing o h s.query ≡ none) ⊎ (is_force_upload p ≡ true))
      × (h.accept_vandal ≡ false)
      × (IsSound (find_existing o h s.query) s.lyrics → ⊥)

  read_payload_refused : (e : SubmitError) → read_payload o h request ≡ refused e → Reason e
  unfolding read_payload
  read_payload_refused e eq = elim (refuse_if-refused (not h.allow_submissions) _ _ eq) [
    | inl (off, same) ↦ subst Reason same (ground arith)
    | inr (on, e1) ↦ elim (or_refuse-refused (read_limited (body_limit h) request) _ _ e1) [
      | inl (bad, same) ↦ subst Reason same (ground arith, bad)
      | inr (body, read, e2) ↦
          elim (refuse_if-refused (lt_i64 (body_limit h) (length body)) _ _ e2) [
            | inl (large, same) ↦ subst Reason same (body, ground arith, read, large)
            | inr (fits, e3) ↦ elim (Option-cases (o.decode_payload body)) [
              | inl bad ↦
                  let same : invalid_json ≡ e = ground arith in
                  subst Reason same (body, ground arith, read, fits, bad)
              | inr (p, good) ↦ absurd (ground arith)
            ]
          ]
    ]
  ]

  wrong_proof :
      (p : SubmitPayload) (v : Verifier) (e : SubmitError)
      → check_verified o v now p ≡ refused e
      → invalid_proof ≡ e
  unfolding check_verified
  wrong_proof p v e eq =
      elim (Verified-cases (verify o.parse_token o.sha_hex v now p.proof_of_work_token p.nonce)) [
        | inl (c, f) ↦ absurd (ground arith)
        | inr (w, f) ↦ ground arith
      ]

  check_verified_refused :
      (p : SubmitPayload) (v : Verifier) (e : SubmitError)
      → check_verified o v now p ≡ refused e
      → (invalid_proof ≡ e)
        × ((challenge : Text)
            → IsProof o.parse_token o.sha_hex v now p.proof_of_work_token p.nonce challenge
            → ⊥)
  check_verified_refused p v e eq = (
    wrong_proof p v e eq,
    λ c proof. absurd (grind (arith, (check_verified_iff o h now v p).1 (c, proof))),
  )

  check_proof_refused :
      (p : SubmitPayload) (e : SubmitError)
      → IsRead o h now request p
      → check_proof o h now p ≡ refused e
      → Reason e
  unfolding check_proof
  check_proof_refused p e read eq =
      elim (refuse_if-refused (is_empty p.proof_of_work_token || is_empty p.nonce) _ _ eq) [
        | inl (missing, same) ↦ subst Reason same (p, read, missing)
        | inr (given, e1) ↦ elim (or_refuse-refused h.verifier _ _ e1) [
          | inl (no_verifier, same) ↦ subst Reason same (p, (read, given), no_verifier)
          | inr (v, known, e2) ↦
              let (same, wrong) = check_verified_refused p v e e2 in
              subst Reason same (p, v, (read, given), known, wrong)
        ]
      ]

  prepare_refused :
      (p : SubmitPayload) (e : SubmitError) → HasProof p → prepare o p ≡ refused e → Reason e
  unfolding prepare
  prepare_refused p e proof eq = elim (refuse_if-refused (lacks_parameters p) _ _ eq) [
    | inl (lacks, same) ↦ subst Reason same (p, proof, lacks)
    | inr (full, e1) ↦ elim (or_refuse-refused (o.decode_lyrics p.lyrics_data) _ _ e1) [
      | inl (bad, same) ↦ subst Reason same (p, (proof, full), bad)
      | inr (next, good, e2) ↦
          elim (or_refuse-refused (o.encode_lyrics (normalize_v2 next)) _ _ e2) [
            | inl (bad, same) ↦ subst Reason same (p, next, (proof, full), good, bad)
            | inr (content, written, e3) ↦ absurd (ground arith)
          ]
    ]
  ]

  accept_refused :
      (p : SubmitPayload) (s : Submission) (e : SubmitError)
      → IsReady p s
      → accept o h p s ≡ refused e
      → Reason e
  unfolding accept
  accept_refused p s e ready eq =
      let existing = find_existing o h s.query in
      elim (refuse_if-refused (is_some existing && not (is_force_upload p)) _ _ eq) [
        | inl (bad, same) ↦
            let (held, unforced) = refuses_overwrite existing (is_force_upload p) bad in
            subst Reason same (p, s, ready, held, unforced)
        | inr (good, e1) ↦
            elim (refuse_if-refused
              (not h.accept_vandal && is_vandalism_update existing (some s.lyrics)) _ _ e1) [
                | inl (bad, same) ↦
                    let (strict, unsound) = refuses_change h.accept_vandal existing s.lyrics bad in
                    subst Reason same
                      (p, s, ready, may_write existing (is_force_upload p) good, strict, unsound)
                | inr (fine, e2) ↦ absurd (ground arith)
              ]
      ]

  -- Each refusal has its reason: the request is refused with an error only where the check of that
  -- error fails and every check before it passes, from the switch for submissions and the size of
  -- the body through the proof of work, the song's name and the lyrics to the overwriting.
  pub submit_refused : (e : SubmitError) → submit o h now request ≡ refused e → Reason e
  unfolding submit
  submit_refused e eq = elim (bind-refused (read_payload o h request) _ eq) [
    | inl e0 ↦ read_payload_refused e e0
    | inr (p, f0, e1) ↦
        let read = (read_payload_iff o h now request p).0 f0 in
        elim (bind-refused (check_proof o h now p) _ e1) [
          | inl e2 ↦ check_proof_refused p e read e2
          | inr (u, f1, e2) ↦
              let proof = (check_proof_iff o h now p).0 f1 in
              elim (bind-refused (prepare o p) _ e2) [
                | inl e3 ↦ prepare_refused p e (read, proof) e3
                | inr (s, f2, e3) ↦
                    accept_refused p s e ((read, proof), (prepare_iff o h now p s).0 f2) e3
              ]
        ]
  ]
