-- ===== src/Orchestrator/Health.antt =====
-- internal/orchestrator/breaker.go, `IsHealthFailure`: which errors speak against a provider.
pub mod Markers
use lyrics_plus.Common.{
  ℕ, Bool, true, false, not, ◌&&◌, ◌||◌, Option, none, some, List, [], ◌∷◌, leb, ◌==◌,
  if◌then◌else◌,
}
use lyrics_plus.Common.Text.{Text, codes, has_prefix, contains, to_lower}

-- What `errors.Is` and `errors.As` find in an error, and its message.
pub record FetchError : Type 0 where
  pub is_canceled : Bool
  pub is_deadline_exceeded : Bool
  pub is_net : Bool
  pub message : Text

-- `\s` and `\w` of a regular expression
unfoldable pub is_re_space : ℕ → Bool
is_re_space c = c == 9 || c == 10 || c == 12 || c == 13 || c == 32

unfoldable pub is_digit : ℕ → Bool
is_digit c = leb b'0' c && leb c b'9'

unfoldable pub is_word_char : ℕ → Bool
unfolding is_digit
is_word_char c = is_digit c || (leb b'a' c && leb c b'z') || (leb b'A' c && leb c b'Z') || c == b'_'

unfoldable pub skip_spaces : Text → Text
unfolding is_re_space
skip_spaces [] = []
skip_spaces (c ∷ s) = if is_re_space c then skip_spaces s else c ∷ s

unfoldable pub skip_paren : Text → Text
skip_paren [] = []
skip_paren (c ∷ s) = if c == b'(' then s else c ∷ s

-- `\b` behind a digit
unfoldable pub at_boundary : Text → Bool
unfolding is_word_char
at_boundary [] = true
at_boundary (c ∷ s) = not (is_word_char c)

-- `(?:401|402|403|407|429|5\d\d)\b`
unfoldable pub is_bad_code : Text → Bool
unfolding at_boundary is_digit
is_bad_code (a ∷ (b ∷ (c ∷ s))) =
    at_boundary s
    && ((a == b'4' && b == b'0' && (c == b'1' || c == b'2' || c == b'3' || c == b'7'))
        || (a == b'4' && b == b'2' && c == b'9')
        || (a == b'5' && is_digit b && is_digit c))
is_bad_code _ = false

-- `\s*\(?\s*` and the code, behind one of the words
unfoldable pub code_follows : Text → Bool
unfolding skip_spaces skip_paren is_bad_code
code_follows s = is_bad_code (skip_spaces (skip_paren (skip_spaces s)))

unfoldable pub drop_text : Text → Text → Text
drop_text [] s = s
drop_text (c ∷ p) [] = []
drop_text (c ∷ p) (d ∷ s) = drop_text p s

unfoldable pub word_then_code : Text → Text → Bool
unfolding code_follows drop_text has_prefix
word_then_code word s = has_prefix s word && code_follows (drop_text word s)

-- `healthStatusRe.MatchString`
unfoldable pub health_status_match : Text → Bool
unfolding word_then_code
health_status_match [] = false
health_status_match (c ∷ s) =
    word_then_code (codes "status") (c ∷ s)
    || word_then_code (codes "error") (c ∷ s)
    || word_then_code (codes "code") (c ∷ s)
    || health_status_match s

abbrev pub health_markers : List Text
health_markers =
    codes "cooldown"
    ∷ codes "no account available"
    ∷ codes "account available"
    ∷ codes "login failed"
    ∷ codes "invalid user token"
    ∷ codes "empty android auth token"
    ∷ codes "empty access token"
    ∷ codes "returned no token"
    ∷ codes "empty jwt"
    ∷ codes "token error"
    ∷ codes "token request failed"
    ∷ codes "requires email"
    ∷ codes "no user token"
    ∷ codes "unauthorized"
    ∷ codes "forbidden"
    ∷ codes "too many requests"
    ∷ codes "rate limit"
    ∷ codes "captcha"
    ∷ codes "connection refused"
    ∷ codes "connection reset"
    ∷ codes "no such host"
    ∷ codes "tls:"
    ∷ codes "unexpected eof"
    ∷ codes "proxy"
    ∷ codes "circuit breaker is open"
    ∷ codes "i/o timeout"
    ∷ codes "context deadline exceeded"
    ∷ []

unfoldable pub any_marker : List Text → Text → Bool
any_marker [] msg = false
any_marker (m ∷ ms) msg = contains msg m || any_marker ms msg

unfoldable pub is_health_failure : Option FetchError → Bool
is_health_failure none = false
is_health_failure (some e) =
    if e.is_canceled
    then false
    else if e.is_deadline_exceeded
    then true
    else if e.is_net
    then true
    else (let msg = to_lower e.message in health_status_match msg || any_marker health_markers msg)
