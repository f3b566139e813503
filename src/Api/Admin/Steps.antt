-- ===== src/Api/Admin/Steps.antt =====
-- What one admin request does to the entry of a client (internal/api/middleware/admin_auth.go).
use lyrics_plus.Common.{
  ℕ, ◌+◌, ◌-◌, ◌≤◌, ◌<◌, ◌≡◌, refl, ◌∙◌, inl, inr, true, false, Option, none, some, List, ltb, leb,
  Bool-cases, arith,
}
use lyrics_plus.Common.Text.{Text, text_eq}
use lyrics_plus.Domain.Query.{is_empty}
use lyrics_plus.Api.Client.{client_ip}
use lyrics_plus.Api.Admin.{
  minute, FailEntry, Failures, Claims, find_entry, is_locked, fail_again,
  extract_admin_token_header, matches_any, valid_secrets, is_unset, locked_out, AdminRequest,
  check_token, auth_configured, admin_auth,
}
use lyrics_plus.Api.Admin.Entries.{Survives, record_failure-own, check_token-other, is_locked-other}

-- No lock and no end of the minute yet.
abbrev pub IsOpen : ℕ → Option FailEntry → Type 0
IsOpen now none = Unit
IsOpen now (some e) = (ltb now e.locked_until ≡ false) × (ltb minute (now - e.first_fail) ≡ false)

pub IsOpen-Survives : (now : ℕ) (o : Option FailEntry) → IsOpen now o → Survives now o
IsOpen-Survives now none a = tt
IsOpen-Survives now (some e) (a, b) = ground arith

is_locked-open :
    (t : Failures) (ip : Text) (now : ℕ) (o : Option FailEntry)
    → find_entry t ip ≡ o
    → IsOpen now o
    → is_locked t ip now ≡ (t, false)
unfolding is_locked
is_locked-open t ip now none h a = rw (h, is_locked) refl
is_locked-open t ip now (some e) h (a, b) = rw (h, is_locked) (rw (a, b) refl)

is_locked-locked :
    (t : Failures) (ip : Text) (now : ℕ) (e : FailEntry)
    → find_entry t ip ≡ some e
    → ltb now e.locked_until ≡ true
    → is_locked t ip now ≡ (t, true)
unfolding is_locked
is_locked-locked t ip now e h a = rw (h, is_locked) (rw a refl)

abbrev pub tried : ℕ → ℕ → FailEntry
tried n first = record { tries = n; first_fail = first; locked_until = 0 }

pub fail_again-early :
    (n first now : ℕ)
    → now ≤ first + minute
    → n < 4
    → fail_again now (some (tried n first)) ≡ tried (n + 1) first
unfolding fail_again
fail_again-early n first now h k =
    let within : ltb minute (now - first) ≡ false = ground arith in
    let few : leb 5 (n + 1) ≡ false = ground arith in
    rw (within, fail_again) (rw (few, fail_again) refl)

pub fail_again-fifth :
    (first now : ℕ)
    → now ≤ first + minute
    → (fail_again now (some (tried 4 first))).locked_until ≡ now + minute
unfolding fail_again
fail_again-fifth first now h =
    let within : ltb minute (now - first) ≡ false = ground arith in rw (within, fail_again) refl

pub tried-IsOpen : (n first now : ℕ) → now ≤ first + minute → IsOpen now (some (tried n first))
tried-IsOpen n first now h = (ground arith, ground arith)

pub fail_again-new : (now : ℕ) → fail_again now none ≡ tried 1 now
unfolding fail_again
fail_again-new now = refl

-- A token that is there and is right for no secret.
abbrev pub HasWrongToken : (ℕ → Text → Text → Option Claims) → List Text → AdminRequest → ℕ → Type 0
HasWrongToken jwt tokens r now =
    let token = extract_admin_token_header r.request in
    (is_empty token ≡ false) × (matches_any jwt now token (valid_secrets tokens) ≡ false)

module _ (split : Text → Option Text) (jwt : ℕ → Text → Text → Option Claims) (tokens : List Text)
    (ip : Text) (set : is_unset (valid_secrets tokens) ≡ false) where
  configured :
      (t : Failures) (r : AdminRequest) (now : ℕ)
      → admin_auth split jwt tokens t r now
        ≡ auth_configured split jwt (valid_secrets tokens) t r now
  unfolding admin_auth
  configured t r now = rw (set, admin_auth) refl

  pub other_client :
      (t : Failures) (r : AdminRequest) (now : ℕ) (o : Option FailEntry)
      → text_eq (client_ip split r.request) ip ≡ false
      → find_entry t ip ≡ o
      → Survives now o
      → find_entry (admin_auth split jwt tokens t r now).0 ip ≡ o
  unfolding auth_configured
  other_client t r now o apart h young =
      let k = client_ip split r.request in
      let t' = (is_locked t k now).0 in
      let same = is_locked-other t k ip now apart ∙ h in
      rw (configured t r now) (elim (Bool-cases (is_locked t k now).1) [
        | inl locked ↦ rw (locked, auth_configured) same
        | inr free ↦
            rw (free, auth_configured)
              (check_token-other jwt (valid_secrets tokens) t' k ip r now o apart same young)
      ])

  pub own_failure :
      (t : Failures) (r : AdminRequest) (now : ℕ) (o : Option FailEntry)
      → client_ip split r.request ≡ ip
      → HasWrongToken jwt tokens r now
      → find_entry t ip ≡ o
      → IsOpen now o
      → find_entry (admin_auth split jwt tokens t r now).0 ip ≡ some (fail_again now o)
  unfolding auth_configured check_token
  own_failure t r now o own (there, wrong) h free = rw (configured t r now) (
      rw (own, auth_configured)
        (rw (is_locked-open t ip now o h free) (
          rw (there, wrong, check_token)
            (record_failure-own t ip now o h (IsOpen-Survives now o free)))))

  pub own_locked :
      (t : Failures) (r : AdminRequest) (now : ℕ) (e : FailEntry)
      → client_ip split r.request ≡ ip
      → find_entry t ip ≡ some e
      → ltb now e.locked_until ≡ true
      → admin_auth split jwt tokens t r now ≡ (t, locked_out)
  unfolding auth_configured
  own_locked t r now e own h locked =
      rw (configured t r now)
        (rw (own, auth_configured) (rw (is_locked-locked t ip now e h locked) refl))
