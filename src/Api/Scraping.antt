-- ===== src/Api/Scraping.antt =====
-- internal/api/middleware/external_scraping.go: the matchers, and the rules that they make up.
-- net.IP is its bytes, `none` where it is nil. net.ParseIP, net.ParseCIDR, the comparison of two
-- addresses, regexp.Compile and the case mappings of the package strings are parameters.
pub mod Engine
pub mod Verdict
use mathlib.Core.List.{reverse}
use lyrics_plus.Common.{
  ℕ, Bool, true, false, not, ◌&&◌, ◌||◌, Option, none, some, List, [], ◌∷◌, ◌==◌, if◌then◌else◌,
  length, drop,
}
use lyrics_plus.Common.Text.{Text, codes, text_eq, trim_space, contains, has_prefix}
use lyrics_plus.Domain.Query.{is_empty}
use lyrics_plus.Api.Limit.{RateLimiter}

pub record Matching : Type 0 where
  pub parse_ip : Text → Option (List ℕ)
  pub parse_cidr : Text → Option (List ℕ → Bool)
  pub ip_equal : List ℕ → List ℕ → Bool
  pub compile : Text → Option (Text → Bool)
  pub lower : Text → Text
  pub upper : Text → Text
  pub equal_fold : Text → Text → Bool

pub record IpMatcher : Type 0 where
  pub raw : Text
  pub exact : Option (List ℕ)
  pub cidr : Option (List ℕ → Bool)

unfoldable pub parse_ip_matcher : Matching → Text → IpMatcher
parse_ip_matcher x s =
    let t = trim_space s in
    let single : IpMatcher = record { raw = t; exact = x.parse_ip t; cidr = none } in
    if contains t (codes "/")
    then elim (x.parse_cidr t) [
      | none ↦ single
      | some net ↦ record { raw = t; exact = none; cidr = some net }
    ]
    else single

unfoldable pub ip_matches : Matching → Option (List ℕ) → Text → IpMatcher → Bool
ip_matches x none client_ip m = x.equal_fold client_ip m.raw
ip_matches x (some ip) client_ip m = elim m.cidr [
  | some net ↦ net ip
  | none ↦ elim m.exact [ some exact ↦ x.ip_equal exact ip | none ↦ x.equal_fold client_ip m.raw ]
]

pub record UaMatcher : Type 0 where
  pub raw : Text
  pub regex : Option (Text → Bool)

-- A pattern that does not compile is a plain text.
unfoldable pub pattern_or : Matching → Text → Text → UaMatcher
pattern_or x s pattern = elim (x.compile pattern) [
  | some re ↦ record { raw = s; regex = some re }
  | none ↦ record { raw = x.lower s; regex = none }
]

unfoldable pub parse_ua_matcher : Matching → Text → UaMatcher
parse_ua_matcher x s =
    let t = trim_space s in
    if has_prefix t (codes "re:")
    then pattern_or x t (drop 3 t)
    else if has_prefix t (codes "^") || has_prefix (reverse t) (codes "$")
    then pattern_or x t t
    else record { raw = x.lower t; regex = none }

unfoldable pub ua_matches : Matching → Text → UaMatcher → Bool
ua_matches x ua m = elim m.regex [ some re ↦ re ua | none ↦ contains (x.lower ua) m.raw ]

-- `switch strings.ToLower(c)`
abbrev pub country_names : List (Text × Text)
country_names =
    (codes "india", codes "IN")
    ∷ (codes "indonesia", codes "ID")
    ∷ (codes "mexico", codes "MX")
    ∷ (codes "philippines", codes "PH")
    ∷ (codes "brazil", codes "BR")
    ∷ (codes "united states", codes "US")
    ∷ (codes "usa", codes "US")
    ∷ (codes "us", codes "US")
    ∷ (codes "peru", codes "PE")
    ∷ (codes "south africa", codes "ZA")
    ∷ (codes "colombia", codes "CO")
    ∷ (codes "united kingdom", codes "GB")
    ∷ (codes "uk", codes "GB")
    ∷ (codes "great britain", codes "GB")
    ∷ (codes "germany", codes "DE")
    ∷ (codes "france", codes "FR")
    ∷ (codes "canada", codes "CA")
    ∷ (codes "russia", codes "RU")
    ∷ (codes "japan", codes "JP")
    ∷ (codes "china", codes "CN")
    ∷ []

unfoldable pub code_of : List (Text × Text) → Text → Text → Text
code_of [] c other = other
code_of ((name, country) ∷ names) c other =
    if text_eq c name then country else code_of names c other

unfoldable pub normalize_country : Matching → Text → Text
normalize_country x c =
    let t = trim_space c in
    if length t == 2 then x.upper t else code_of country_names (x.lower t) (x.upper t)

pub record CompiledRule : Type 0 where
  pub name : Text
  pub action : Text
  pub match_mode : Text
  pub ip_matchers : List IpMatcher
  pub ua_matchers : List UaMatcher
  pub countries : List Text
  pub paths : List Text
  pub throttle : Option RateLimiter
  pub status_code : ℕ
  pub message : Text

abbrev pub any {ℓ} : {A : Type ℓ} → (A → Bool) → List A → Bool
any f [] = false
any f (a ∷ rest) = f a || any f rest

-- What a rule is matched with.
pub record Visit : Type 0 where
  pub parsed_ip : Option (List ℕ)
  pub client : Text
  pub country : Text
  pub ua : Text
  pub path : Text

unfoldable pub rule_matches : Matching → Visit → CompiledRule → Bool
rule_matches x v r =
    let has_ips = not (is_empty r.ip_matchers) in
    let has_uas = not (is_empty r.ua_matchers) in
    let has_ccs = not (is_empty r.countries) in
    let ip = any (ip_matches x v.parsed_ip v.client) r.ip_matchers in
    let ua = any (ua_matches x v.ua) r.ua_matchers in
    let cc = any (x.equal_fold (normalize_country x v.country)) r.countries in
    if not (is_empty r.paths) && not (any (has_prefix v.path) r.paths)
    then false
    else if not has_ips && (not has_uas && not has_ccs)
    then true
    else if x.equal_fold r.match_mode (codes "all")
    then not (has_ips && not ip) && (not (has_uas && not ua) && not (has_ccs && not cc))
    else (has_ips && ip) || ((has_uas && ua) || (has_ccs && cc))

unfoldable pub matches_country_list : Matching → List Text → Text → Bool
matches_country_list x countries country =
    if is_empty countries || is_empty country
    then false
    else any (x.equal_fold (normalize_country x country)) countries
