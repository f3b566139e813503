-- ===== src/Api/Admin.antt =====
-- internal/api/middleware/admin_auth.go. Requests are handled one after the other. Times are
-- nanoseconds since the zero `time.Time`, which is then 0. Parsing a token of github.com/golang-jwt
-- under a secret, with the check of its method, is a parameter: `none` where the token is refused.
pub mod Entries
pub mod Steps
pub mod Lockout
pub mod Credentials
use lyrics_plus.Common.{
  ℕ, ◌+◌, ◌-◌, ◌*◌, ◌/◌, ◌^◌, ◌≡◌, Bool, true, false, not, ◌&&◌, ◌||◌, Option, none, some, List, [],
  ◌∷◌, map, ltb, leb, ◌==◌, if◌then◌else◌, length, drop,
}
use lyrics_plus.Common.Text.{Text, codes, text_eq, trim_space, to_lower, has_prefix}
use lyrics_plus.Domain.Query.{is_empty}
use lyrics_plus.Api.Client.{Request, client_ip}

abbrev pub minute : ℕ
minute = 60 * 10 ^ 9

-- `ipFailEntry`
pub record FailEntry : Type 0 where
  pub tries : ℕ
  pub first_fail : ℕ
  pub locked_until : ℕ

abbrev pub Failures : Type 0
Failures = List (Text × FailEntry)

unfoldable pub find_entry : Failures → Text → Option FailEntry
find_entry [] ip = none
find_entry ((k, e) ∷ t) ip = if text_eq k ip then some e else find_entry t ip

-- `delete(t.failures, ip)`
unfoldable pub remove_entry : Failures → Text → Failures
remove_entry [] ip = []
remove_entry ((k, e) ∷ t) ip =
    let rest = remove_entry t ip in if text_eq k ip then rest else (k, e) ∷ rest

unfoldable pub put_entry : Failures → Text → FailEntry → Failures
put_entry t ip e = (ip, e) ∷ remove_entry t ip

unfoldable pub is_locked : Failures → Text → ℕ → Failures × Bool
is_locked t ip now = elim (find_entry t ip) [
  | none ↦ (t, false)
  | some e ↦
      if ltb now e.locked_until
      then (t, true)
      else if ltb minute (now - e.first_fail)
      then (remove_entry t ip, false)
      else (t, false)
]

abbrev pub is_over : ℕ → FailEntry → Bool
is_over now e = ltb e.locked_until now && ltb minute (now - e.first_fail)

-- The loop over a map that has grown past 256 entries.
unfoldable pub drop_over : ℕ → Failures → Failures
drop_over now [] = []
drop_over now ((k, e) ∷ t) =
    let rest = drop_over now t in if is_over now e then rest else (k, e) ∷ rest

abbrev pub first_failure : ℕ → FailEntry
first_failure now = record { tries = 1; first_fail = now; locked_until = 0 }

unfoldable pub fail_again : ℕ → Option FailEntry → FailEntry
fail_again now none = first_failure now
fail_again now (some e) =
    if ltb minute (now - e.first_fail)
    then first_failure now
    else if leb 5 (e.tries + 1)
    then record e { tries = e.tries + 1; locked_until = now + minute }
    else record e { tries = e.tries + 1 }

unfoldable pub record_failure : Failures → Text → ℕ → Failures
record_failure t ip now =
    let kept = if ltb 256 (length t) then drop_over now t else t in
    put_entry kept ip (fail_again now (find_entry kept ip))

-- The claims of a token; `expiry` is a positive `exp`, cut to an int64.
pub record Claims : Type 0 where
  pub has_challenge : Bool
  pub expiry : Option ℕ
  pub role : Option Text
  pub subject : Option Text
  pub is_admin : Bool

-- `strings.EqualFold(s, "admin")`, where no letter folds outside of ASCII
unfoldable pub fold_ascii : ℕ → ℕ
fold_ascii c = if leb b'A' c && leb c b'Z' then c + 32 else c

unfoldable pub says_admin : Option Text → Bool
unfolding fold_ascii
says_admin none = false
says_admin (some s) = text_eq (map fold_ascii s) (codes "admin")

abbrev pub unix_seconds : ℕ → ℕ
unix_seconds now = now / 10 ^ 9 - 62135596800

unfoldable pub is_expired : ℕ → Option ℕ → Bool
is_expired now none = false
is_expired now (some e) = ltb e (unix_seconds now)

unfoldable pub claims_admit : ℕ → Claims → Bool
claims_admit now c =
    not c.has_challenge
    && (not (is_expired now c.expiry)
        && (says_admin c.role || (says_admin c.subject || c.is_admin)))

unfoldable pub is_valid_admin_credential :
    (ℕ → Text → Text → Option Claims) → ℕ → Text → Text → Bool
is_valid_admin_credential jwt now token secret =
    let token' = trim_space token in
    let secret' = trim_space secret in
    if is_empty token' || is_empty secret'
    then false
    else if text_eq token' secret'
    then true
    else elim (jwt now token' secret') [ none ↦ false | some claims ↦ claims_admit now claims ]

-- `auth`, with a leading "Bearer " taken off
unfoldable pub bearer_token : Text → Text
bearer_token auth =
    if has_prefix (to_lower auth) (codes "bearer ") then trim_space (drop 7 auth) else auth

unfoldable pub extract_admin_token_header : Request → Text
extract_admin_token_header r =
    let auth = trim_space (r.header (codes "Authorization")) in
    if is_empty auth then trim_space (r.header (codes "X-Admin-Token")) else bearer_token auth

abbrev pub default_secret : Text
default_secret = codes "lyricsplus-submit-opensource-yes-yes-yes"

unfoldable pub valid_secrets : List Text → List Text
valid_secrets [] = []
valid_secrets (s ∷ ss) =
    let t = trim_space s in
    let rest = valid_secrets ss in if is_empty t || text_eq t default_secret then rest else t ∷ rest

abbrev pub is_unset : List Text → Bool
is_unset [] = true
is_unset (s ∷ ss) = false

unfoldable pub matches_any : (ℕ → Text → Text → Option Claims) → ℕ → Text → List Text → Bool
matches_any jwt now token [] = false
matches_any jwt now token (s ∷ ss) =
    is_valid_admin_credential jwt now token s || matches_any jwt now token ss

pub data AdminReply : Type 0 where
  admitted not_configured locked_out token_in_query no_token wrong_token : AdminReply

-- A request, and its query's `token`.
pub record AdminRequest : Type 0 where
  pub request : Request
  pub query_token : Text

unfoldable pub check_token :
    (ℕ → Text → Text → Option Claims)
    → List Text
    → Failures
    → Text
    → AdminRequest
    → ℕ
    → Failures × AdminReply
check_token jwt secrets t ip r now =
    let token = extract_admin_token_header r.request in
    if is_empty token
    then (t, if is_empty r.query_token then no_token else token_in_query)
    else if matches_any jwt now token secrets
    then (remove_entry t ip, admitted)
    else (record_failure t ip now, wrong_token)

-- The handler where a secret is configured.
unfoldable pub auth_configured :
    (Text → Option Text)
    → (ℕ → Text → Text → Option Claims)
    → List Text
    → Failures
    → AdminRequest
    → ℕ
    → Failures × AdminReply
auth_configured split_host_port jwt secrets t r now =
    let ip = client_ip split_host_port r.request in
    let (t', locked) = is_locked t ip now in
    if locked then (t', locked_out) else check_token jwt secrets t' ip r now

unfoldable pub admin_auth :
    (Text → Option Text)
    → (ℕ → Text → Text → Option Claims)
    → List Text
    → Failures
    → AdminRequest
    → ℕ
    → Failures × AdminReply
admin_auth split_host_port jwt tokens t r now =
    let secrets = valid_secrets tokens in
    let answer = auth_configured split_host_port jwt secrets t r now in
    if is_unset secrets then (t, not_configured) else answer
