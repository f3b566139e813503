-- ===== src/Api/Scraping/Engine.antt =====
-- internal/api/middleware/external_scraping.go: the engine over the rules, built from the
-- configuration of internal/config/config.go. A status code that is not positive is 0.
use lyrics_plus.Common.{
  lt_i64, ℕ, ◌*◌, ◌^◌, Bool, true, false, not, ◌&&◌, ◌||◌, Option, none, some, List, [], ◌∷◌, ◌++◌,
  map, ltb, if◌then◌else◌,
}
use lyrics_plus.Common.Text.{Text, codes, text_eq, trim_space}
use lyrics_plus.Domain.Query.{is_empty}
use lyrics_plus.Api.Client.{Request, is_health_path, client_ip, client_country}
use lyrics_plus.Api.Limit.{RateLimiter, Reading, new_sharded_rate_limiter, allow}
use lyrics_plus.Api.Scraping.{
  Matching, IpMatcher, parse_ip_matcher, ip_matches, UaMatcher, parse_ua_matcher, ua_matches,
  normalize_country, CompiledRule, any, Visit, rule_matches, matches_country_list,
}

pub record ExternalScrapingRule : Type 0 where
  pub name : Text
  pub action : Text
  pub match_mode : Text
  pub user_agents : List Text
  pub ips : List Text
  pub countries : List Text
  pub paths : List Text
  pub throttle : Option (ℕ × ℕ)
  pub status_code : ℕ
  pub message : Text

pub record ExternalScraping : Type 0 where
  pub enabled : Bool
  pub block_empty_user_agent : Bool
  pub blocked_ips : List Text
  pub blocked_user_agents : List Text
  pub blocked_countries : List Text
  pub cached_only_ips : List Text
  pub cached_only_user_agents : List Text
  pub cached_only_countries : List Text
  pub rules : List ExternalScrapingRule

pub record ExternalScrapingEngine : Type 0 where
  pub enabled : Bool
  pub block_empty_ua : Bool
  pub rules : List CompiledRule
  pub blocked_ips : List IpMatcher
  pub blocked_uas : List UaMatcher
  pub blocked_ccs : List Text
  pub cache_ips : List IpMatcher
  pub cache_uas : List UaMatcher
  pub cache_ccs : List Text

-- `if s = strings.TrimSpace(s); s != ""`
unfoldable pub trimmed : List Text → List Text
trimmed [] = []
trimmed (s ∷ ss) =
    let t = trim_space s in let rest = trimmed ss in if is_empty t then rest else t ∷ rest

abbrev or_default : Text → Text → Text
or_default s default_text = if is_empty s then default_text else s

unfoldable pub throttle_of : Text → Option (ℕ × ℕ) → Reading → Option RateLimiter
throttle_of action limits now =
    let unlimited : Option RateLimiter =
      if text_eq action (codes "throttle")
      then some (new_sharded_rate_limiter 60 (10 * 10 ^ 9) now)
      else none in
    elim limits [
      | none ↦ unlimited
      | some l ↦ if lt_i64 0 l.0 then some (new_sharded_rate_limiter l.0 l.1 now) else unlimited
    ]

unfoldable pub compile_rule : Matching → Reading → ExternalScrapingRule → CompiledRule
compile_rule x now r =
    let action = or_default (x.lower (trim_space r.action)) (codes "block") in
    record {
      name = r.name;
      action = action;
      match_mode = or_default (x.lower (trim_space r.match_mode)) (codes "any");
      ip_matchers = map (parse_ip_matcher x) (trimmed r.ips);
      ua_matchers = map (parse_ua_matcher x) (trimmed r.user_agents);
      countries = map (normalize_country x) (trimmed r.countries);
      paths = trimmed r.paths;
      throttle = throttle_of action r.throttle now;
      status_code = r.status_code;
      message = r.message;
    }

unfoldable pub new_external_scraping :
    Matching → ExternalScraping → Reading → ExternalScrapingEngine
new_external_scraping x cfg now = record {
  enabled = cfg.enabled;
  block_empty_ua = cfg.block_empty_user_agent;
  rules = map (compile_rule x now) cfg.rules;
  blocked_ips = map (parse_ip_matcher x) (trimmed cfg.blocked_ips);
  blocked_uas = map (parse_ua_matcher x) (trimmed cfg.blocked_user_agents);
  blocked_ccs = map (normalize_country x) (trimmed cfg.blocked_countries);
  cache_ips = map (parse_ip_matcher x) (trimmed cfg.cached_only_ips);
  cache_uas = map (parse_ua_matcher x) (trimmed cfg.cached_only_user_agents);
  cache_ccs = map (normalize_country x) (trimmed cfg.cached_only_countries);
}

-- A request goes on, with the flag of `domain.WithCacheOnly`, or is answered.
pub data Outcome : Type 0 where
  goes_on : Bool → Outcome
  forbidden : Text → Outcome
  blocked : ℕ → Text → Outcome
  throttled : Text → Text → Outcome

abbrev pub is_block : Text → Bool
is_block action = text_eq action (codes "block") || text_eq action (codes "deny")

abbrev pub is_throttle : Text → Bool
is_throttle action = text_eq action (codes "throttle") || text_eq action (codes "rate_limit")

abbrev pub is_cached_only : Text → Bool
is_cached_only action = text_eq action (codes "cached_only") || text_eq action (codes "cache_only")

unfoldable pub block_reply : CompiledRule → Outcome
block_reply r =
    blocked (if ltb 0 r.status_code then r.status_code else 403)
      (or_default r.message (codes "Access restricted"))

-- A rule's throttle: the rule after it, and the wait of a request that it refuses.
unfoldable pub take_turn : CompiledRule → Text → Reading → CompiledRule × Option Text
take_turn r client now = elim r.throttle [
  | none ↦ (r, none)
  | some l ↦
      let (l', (remaining, ok)) = allow l (r.name ++ (codes ":" ++ client)) now in
      (record r { throttle = some l' }, if ok then none else some remaining)
]

unfoldable pub throttle_reply : CompiledRule → Text → Outcome
throttle_reply r remaining = throttled remaining (
    or_default r.message
      (codes "Rate limit exceeded. Retry in " ++ (remaining ++ codes " seconds.")))

unfoldable pub cached_reply : Text → Outcome
cached_reply remaining =
    throttled remaining (
      codes "Rate limit exceeded for cached queries. Retry in " ++ (remaining ++ codes " seconds."))

-- A rule that matches: the rule after it, and the outcome, `goes_on` with the flag so far.
unfoldable pub apply_rule : CompiledRule → Text → Reading → Bool → CompiledRule × Outcome
apply_rule r client now cache_only =
    let (r', wait) = take_turn r client now in
    if is_block r.action
    then (r, block_reply r)
    else if is_throttle r.action
    then (r', elim wait [ none ↦ goes_on cache_only | some remaining ↦ throttle_reply r remaining ])
    else if is_cached_only r.action
    then (r', elim wait [ none ↦ goes_on true | some remaining ↦ cached_reply remaining ])
    else (r, goes_on cache_only)

abbrev pub stops : Outcome → Bool
stops (goes_on cache_only) = false
stops (forbidden message) = true
stops (blocked status message) = true
stops (throttled remaining message) = true

abbrev pub flag_of : Outcome → Bool → Bool
flag_of (goes_on cache_only) before = cache_only
flag_of (forbidden message) before = before
flag_of (blocked status message) before = before
flag_of (throttled remaining message) before = before

-- `for _, rule := range e.rules`; the limiter of a rule is shared by all requests.
unfoldable pub evaluate :
    Matching → Visit → Reading → List CompiledRule → Bool → List CompiledRule × Outcome
evaluate x v now [] cache_only = ([], goes_on cache_only)
evaluate x v now (r ∷ rules) cache_only =
    let (r', outcome) = apply_rule r v.client now cache_only in
    let skipped = evaluate x v now rules cache_only in
    let applied = evaluate x v now rules (flag_of outcome cache_only) in
    if rule_matches x v r
    then if stops outcome then (r' ∷ rules, outcome) else (r' ∷ applied.0, applied.1)
    else (r ∷ skipped.0, skipped.1)

abbrev pub visit_of : Matching → (Text → Option Text) → Request → Visit
visit_of x split_host_port r =
    let client = client_ip split_host_port r in
    record {
      parsed_ip = x.parse_ip client;
      client = client;
      country = client_country x.upper r;
      ua = r.header (codes "User-Agent");
      path = r.path;
    }

abbrev pub lists_match : Matching → Visit → List IpMatcher → List UaMatcher → List Text → Bool
lists_match x v ips uas ccs =
    any (ip_matches x v.parsed_ip v.client) ips
    || (any (ua_matches x v.ua) uas || matches_country_list x ccs v.country)

unfoldable pub scrape :
    Matching
    → (Text → Option Text)
    → ExternalScrapingEngine
    → Request
    → Reading
    → ExternalScrapingEngine × Outcome
scrape x split_host_port e r now =
    let v = visit_of x split_host_port r in
    let cache_only = lists_match x v e.cache_ips e.cache_uas e.cache_ccs in
    let (rules, outcome) = evaluate x v now e.rules cache_only in
    if not e.enabled || is_health_path r
    then (e, goes_on false)
    else if e.block_empty_ua && is_empty (trim_space v.ua)
    then (e, forbidden (codes "User-Agent header is required"))
    else if lists_match x v e.blocked_ips e.blocked_uas e.blocked_ccs
    then (e, forbidden (codes "Access restricted"))
    else (record e { rules = rules }, outcome)
