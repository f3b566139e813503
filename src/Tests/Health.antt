-- ===== src/Tests/Health.antt =====
-- An error message of a provider (internal/orchestrator/breaker.go).
use lyrics_plus.Common.{refl, false, inl, inr}
use lyrics_plus.Common.Text.{codes, to_lower, lower_rune}
use lyrics_plus.Orchestrator.Health.{FetchError, health_markers}
use lyrics_plus.Orchestrator.Health.Markers.{Listed}

abbrev refused : FetchError
refused = record {
  is_canceled = false;
  is_deadline_exceeded = false;
  is_net = false;
  message = codes "qq: Login Failed (account 3)";
}

login_Listed : Listed (to_lower (codes "Login Failed")) health_markers
unfolding to_lower lower_rune
login_Listed = inr (inr (inr (inl refl)))
