-- ===== src/Api/Admin/Credentials.antt =====
-- Who is admitted (internal/api/middleware/admin_auth.go).
use lyrics_plus.Common.{
  ℕ, ◌≡◌, refl, subst, ◌⊎◌, inl, inr, Bool, true, false, ◌||◌, Option, none, some, List, [], ◌∷◌,
  if◌then◌else◌, Bool-cases, arith,
}
use lyrics_plus.Common.Text.{Text, text_eq, text_eq_iff, trim_space}
use lyrics_plus.Domain.Query.{is_empty}
use lyrics_plus.Orchestrator.Health.Markers.{Listed}
use lyrics_plus.Api.Client.{client_ip}
use lyrics_plus.Api.Admin.{
  Failures, Claims, says_admin, is_expired, claims_admit, is_valid_admin_credential,
  extract_admin_token_header, default_secret, valid_secrets, matches_any, AdminReply, admitted,
  not_configured, locked_out, token_in_query, no_token, wrong_token, AdminRequest, check_token,
  is_unset, auth_configured, admin_auth, is_locked, remove_entry, record_failure,
}

-- The claims of an admin's token: no challenge, not expired, and the word "admin" in one of three.
abbrev pub AreAdminClaims : ℕ → Claims → Type 0
AreAdminClaims now c =
    (c.has_challenge ≡ false)
    × (is_expired now c.expiry ≡ false)
    × ((says_admin c.role ≡ true) ⊎ ((says_admin c.subject ≡ true) ⊎ (c.is_admin ≡ true)))

abbrev pub IsCredential : (ℕ → Text → Text → Option Claims) → ℕ → Text → Text → Type 0
IsCredential jwt now token secret =
    (trim_space token ≡ trim_space secret)
    ⊎ ((c : Claims) × (jwt now (trim_space token) (trim_space secret) ≡ some c)
        × AreAdminClaims now c)

claims_admit-admin : (now : ℕ) (c : Claims) → claims_admit now c ≡ true → AreAdminClaims now c
unfolding claims_admit
claims_admit-admin now c h = ground arith

decide_credential :
    (now : ℕ) (nothing same : Bool) (parsed : Option Claims)
    → (if nothing
        then false
        else if same
        then true
        else elim parsed [ none ↦ false | some claims ↦ claims_admit now claims ])
      ≡ true
    → (same ≡ true) ⊎ ((c : Claims) × (parsed ≡ some c) × AreAdminClaims now c)
decide_credential now true same parsed h = absurd (ground arith)
decide_credential now false true parsed h = inl refl
decide_credential now false false none h = absurd (ground arith)
decide_credential now false false (some c) h = inr (c, refl, claims_admit-admin now c h)

is_valid-IsCredential :
    (jwt : ℕ → Text → Text → Option Claims) (now : ℕ) (token secret : Text)
    → is_valid_admin_credential jwt now token secret ≡ true
    → IsCredential jwt now token secret
unfolding is_valid_admin_credential
is_valid-IsCredential jwt now token secret h =
    let same = text_eq (trim_space token) (trim_space secret) in
    elim (decide_credential now (is_empty (trim_space token) || is_empty (trim_space secret)) same
      (jwt now (trim_space token) (trim_space secret)) h) [
        | inl equal ↦ inl ((text_eq_iff (trim_space token) (trim_space secret)).0 equal)
        | inr claims ↦ inr claims
      ]

matches_any-IsCredential :
    (jwt : ℕ → Text → Text → Option Claims) (now : ℕ) (token : Text) (secrets : List Text)
    → matches_any jwt now token secrets ≡ true
    → (s : Text) × Listed s secrets × IsCredential jwt now token s
unfolding matches_any
matches_any-IsCredential jwt now token [] h = absurd (ground arith)
matches_any-IsCredential jwt now token (x ∷ xs) h =
    elim (Bool-cases (is_valid_admin_credential jwt now token x)) [
      | inl valid ↦ (x, inl refl, is_valid-IsCredential jwt now token x valid)
      | inr wrong ↦
          let (s, listed, credential) = matches_any-IsCredential jwt now token xs (ground arith) in
          (s, inr listed, credential)
    ]

-- A secret that the program accepts.
abbrev pub IsSecret : Text → Type 0
IsSecret s = (is_empty s ≡ false) × (text_eq s default_secret ≡ false)

-- The text is what a configured token is when the space around it is dropped.
abbrev pub IsConfigured : List Text → Text → Type 0
IsConfigured tokens s = (x : Text) × Listed x tokens × (trim_space x ≡ s)

valid_secrets-IsSecret :
    (tokens : List Text) (s : Text)
    → Listed s (valid_secrets tokens)
    → IsConfigured tokens s × IsSecret s
unfolding valid_secrets
valid_secrets-IsSecret [] s h = absurd h
valid_secrets-IsSecret (x ∷ xs) s h =
    let t = trim_space x in
    let further : Listed s (valid_secrets xs) → IsConfigured (x ∷ xs) s × IsSecret s = λ l.
      let ((y, listed, same), secret) = valid_secrets-IsSecret xs s l in
      ((y, inr listed, same), secret) in
    elim (Bool-cases (is_empty t || text_eq t default_secret)) [
      | inl bad ↦
          further
            (subst (λ b. Listed s (if b then valid_secrets xs else t ∷ valid_secrets xs)) bad h)
      | inr good ↦
          elim (subst (λ b. Listed s (if b then valid_secrets xs else t ∷ valid_secrets xs)) good
            h) [
              | inl here ↦ ((x, inl refl, here), subst IsSecret here (ground arith))
              | inr later ↦ further later
            ]
    ]

abbrev pub is_admitted : AdminReply → Bool
is_admitted admitted = true
is_admitted not_configured = false
is_admitted locked_out = false
is_admitted token_in_query = false
is_admitted no_token = false
is_admitted wrong_token = false

decide_check :
    (nothing query matched : Bool) (t t1 t2 : Failures)
    → (let out : Failures × AdminReply =
          if nothing
          then (t, if query then no_token else token_in_query)
          else if matched
          then (t1, admitted)
          else (t2, wrong_token) in
        is_admitted out.1 ≡ true)
    → (nothing ≡ false) × (matched ≡ true)
decide_check true true matched t t1 t2 h = absurd (ground arith)
decide_check true false matched t t1 t2 h = absurd (ground arith)
decide_check false query true t t1 t2 h = (refl, refl)
decide_check false query false t t1 t2 h = absurd (ground arith)

check_token-admitted :
    (jwt : ℕ → Text → Text → Option Claims) (secrets : List Text) (t : Failures) (ip : Text)
    (r : AdminRequest) (now : ℕ)
    → is_admitted (check_token jwt secrets t ip r now).1 ≡ true
    → (is_empty (extract_admin_token_header r.request) ≡ false)
      × (matches_any jwt now (extract_admin_token_header r.request) secrets ≡ true)
unfolding check_token
check_token-admitted jwt secrets t ip r now h =
    let token = extract_admin_token_header r.request in
    decide_check (is_empty token) (is_empty r.query_token) (matches_any jwt now token secrets) t
      (remove_entry t ip) (record_failure t ip now) h

unlocked_check :
    (locked : Bool) (t : Failures) (c : Failures × AdminReply)
    → (let out : Failures × AdminReply = if locked then (t, locked_out) else c in
        is_admitted out.1 ≡ true)
    → is_admitted c.1 ≡ true
unlocked_check true t c h = absurd (ground arith)
unlocked_check false t c h = h

configured_check :
    (unset : Bool) (t : Failures) (c : Failures × AdminReply)
    → (let out : Failures × AdminReply = if unset then (t, not_configured) else c in
        is_admitted out.1 ≡ true)
    → is_admitted c.1 ≡ true
configured_check true t c h = absurd (ground arith)
configured_check false t c h = h

-- A request is admitted only if its header names a token that is not empty and is right for one of
-- the configured tokens, the space around that one dropped, which is neither empty nor the public
-- default: the request's token is that secret, or a signed token under it whose claims hold no
-- challenge, have not expired and name an admin.
pub admin_auth-admitted :
    (split : Text → Option Text) (jwt : ℕ → Text → Text → Option Claims) (tokens : List Text)
    (t : Failures) (r : AdminRequest) (now : ℕ)
    → is_admitted (admin_auth split jwt tokens t r now).1 ≡ true
    → (is_empty (extract_admin_token_header r.request) ≡ false)
      × ((s : Text) × IsConfigured tokens s
          × IsSecret s
          × IsCredential jwt now (extract_admin_token_header r.request) s)
unfolding admin_auth auth_configured
admin_auth-admitted split jwt tokens t r now h =
    let ip = client_ip split r.request in
    let (t', locked) = is_locked t ip now in
    let secrets = valid_secrets tokens in
    let checked =
      configured_check (is_unset secrets) t (auth_configured split jwt secrets t r now) h in
    let (there, matched) =
      check_token-admitted jwt secrets t' ip r now
        (unlocked_check locked t' (check_token jwt secrets t' ip r now) checked) in
    let (s, listed, credential) =
      matches_any-IsCredential jwt now (extract_admin_token_header r.request) secrets matched in
    let (configured, secret) = valid_secrets-IsSecret tokens s listed in
    (there, (s, configured, secret, credential))
