-- ===== src/Tests/Admin.antt =====
-- Admin requests with right and wrong tokens (internal/api/middleware/admin_auth.go).
use lyrics_plus.Common.{ℕ, ◌≡◌, refl, false, Option, none, List, [], ◌∷◌, if◌then◌else◌, arith}
use lyrics_plus.Common.Text.{Text, codes, text_eq, trim_space, trim_left, is_space}
use lyrics_plus.Domain.Query.{is_empty}
use lyrics_plus.Api.Client.{client_ip, remote_host}
use lyrics_plus.Api.Admin.{
  Claims, find_entry, is_locked, extract_admin_token_header, bearer_token, matches_any,
  is_valid_admin_credential, valid_secrets, locked_out, AdminRequest, check_token, auth_configured,
  admin_auth,
}
use lyrics_plus.Api.Admin.Credentials.{IsConfigured, IsSecret, IsCredential, admin_auth-admitted}
use lyrics_plus.Api.Admin.Lockout.{run_admin, requests_of, five_tries_lock}

abbrev split : Text → Option Text
split a = none

abbrev unsigned : ℕ → Text → Text → Option Claims
unsigned now token secret = none

abbrev tokens : List Text
tokens = codes "s3cret" ∷ []

abbrev asks : Text → AdminRequest
asks token = record {
  request = record {
    path = codes "/admin";
    header = λ name. if text_eq name (codes "X-Admin-Token") then token else [];
    remote_addr = codes "192.0.2.7";
  };
  query_token = [];
}

admin_auth-admitted_example :
    (is_empty (extract_admin_token_header (asks (codes "s3cret")).request) ≡ false)
    × ((s : Text) × IsConfigured tokens s
        × IsSecret s
        × IsCredential unsigned 9 (extract_admin_token_header (asks (codes "s3cret")).request) s)
unfolding admin_auth auth_configured check_token is_locked find_entry matches_any
    is_valid_admin_credential valid_secrets extract_admin_token_header bearer_token client_ip
    remote_host text_eq trim_space trim_left is_space is_empty
admin_auth-admitted_example =
    admin_auth-admitted split unsigned tokens [] (asks (codes "s3cret")) 9 refl

abbrev guess : ℕ → AdminRequest × ℕ
guess n = (asks (codes "guess"), n)

five_tries_lock_example :
    let s1 = (admin_auth split unsigned tokens [] (asks (codes "guess")) 1).0 in
    let s4 = run_admin split unsigned tokens s1 (guess 2 ∷ guess 3 ∷ guess 4 ∷ []) in
    let s5 = (admin_auth split unsigned tokens s4 (asks (codes "guess")) 5).0 in
    (admin_auth split unsigned tokens
      (run_admin split unsigned tokens s5 (guess 6 ∷ []))
      (asks (codes "s3cret"))
      7).1
    ≡ locked_out
unfolding requests_of find_entry matches_any is_valid_admin_credential valid_secrets
    extract_admin_token_header bearer_token client_ip remote_host text_eq trim_space trim_left
    is_space is_empty
five_tries_lock_example =
    five_tries_lock split unsigned tokens (codes "192.0.2.7") [] (asks (codes "guess"))
      (asks (codes "guess")) (asks (codes "s3cret")) 1 5 7 (guess 2 ∷ guess 3 ∷ guess 4 ∷ [])
      (guess 6 ∷ []) refl refl refl (refl, refl)
      (
        (omega arith, λ o. (refl, refl)),
        ((omega arith, λ o. (refl, refl)), ((omega arith, λ o. (refl, refl)), tt)),
      )
      refl refl (refl, refl) (omega arith) (omega arith, tt) refl (omega arith)
