-- ===== src/Tests/Scraping.antt =====
-- A rule that holds one user agent to the caches (internal/api/middleware/external_scraping.go).
use lyrics_plus.Common.{
  ◌≡◌, refl, true, false, ◌&&◌, ◌||◌, Option, none, [], ◌∷◌, All, if◌then◌else◌,
}
use lyrics_plus.Common.Text.{
  Text, codes, text_eq, trim_space, trim_left, is_space, to_lower, lower_rune, contains, has_prefix,
}
use lyrics_plus.Domain.Query.{is_empty}
use lyrics_plus.Api.Client.{Request, is_health_path, client_ip, client_country, remote_host}
use lyrics_plus.Api.Limit.{Reading}
use lyrics_plus.Api.Scraping.{
  Matching, CompiledRule, any, ip_matches, parse_ua_matcher, pattern_or, ua_matches, rule_matches,
  matches_country_list, normalize_country, code_of,
}
use lyrics_plus.Api.Scraping.Engine.{
  ExternalScrapingRule, ExternalScrapingEngine, trimmed, throttle_of, compile_rule,
  new_external_scraping, goes_on, take_turn, apply_rule, evaluate, visit_of, lists_match, scrape,
}
use lyrics_plus.Api.Scraping.Verdict.{spares, sends_to_cache, scrape-goes_on}

abbrev matching : Matching
matching = record {
  parse_ip = λ s. none;
  parse_cidr = λ s. none;
  ip_equal = λ a b. false;
  compile = λ s. none;
  lower = to_lower;
  upper = λ s. s;
  equal_fold = λ a b. text_eq (to_lower a) (to_lower b);
}

abbrev split : Text → Option Text
split a = none

abbrev bots : ExternalScrapingRule
bots = record {
  name = codes "bots";
  action = codes "cached_only";
  match_mode = [];
  user_agents = codes "bot" ∷ [];
  ips = [];
  countries = [];
  paths = [];
  throttle = none;
  status_code = 0;
  message = [];
}

abbrev now : Reading
now = record { mono = 5; wall = 5 }

abbrev engine : ExternalScrapingEngine
engine =
    new_external_scraping matching
      record {
        enabled = true;
        block_empty_user_agent = true;
        blocked_ips = [];
        blocked_user_agents = codes "scraper" ∷ [];
        blocked_countries = [];
        cached_only_ips = [];
        cached_only_user_agents = [];
        cached_only_countries = [];
        rules = bots ∷ [];
      }
      now

abbrev visitor : Request
visitor = record {
  path = codes "/v2";
  header = λ name. if text_eq name (codes "User-Agent") then codes "A Bot" else [];
  remote_addr = codes "192.0.2.7";
}

bot_cached : (scrape matching split engine visitor now).1 ≡ goes_on true
unfolding scrape new_external_scraping compile_rule trimmed throttle_of evaluate apply_rule
    take_turn rule_matches matches_country_list normalize_country code_of ua_matches ip_matches
    parse_ua_matcher pattern_or is_health_path client_ip client_country remote_host text_eq
    trim_space trim_left is_space to_lower lower_rune contains has_prefix is_empty
bot_cached = refl

scrape-goes_on_example :
    ((engine.block_empty_ua && is_empty (trim_space (visit_of matching split visitor).ua)) ≡ false)
    × ((lists_match matching
            (visit_of matching split visitor)
            engine.blocked_ips
            engine.blocked_uas
            engine.blocked_ccs
          ≡ false)
        × (All
              (λ (rule : CompiledRule).
                spares matching (visit_of matching split visitor) rule ≡ true)
              engine.rules
            × (true ≡ (
                lists_match matching
                  (visit_of matching split visitor)
                  engine.cache_ips
                  engine.cache_uas
                  engine.cache_ccs
                || any (sends_to_cache matching (visit_of matching split visitor)) engine.rules))))
unfolding new_external_scraping is_health_path text_eq
scrape-goes_on_example = scrape-goes_on matching split engine visitor now true refl refl bot_cached
