-- ===== src/Api/Gate.antt =====
-- internal/api/middleware/middleware.go: `ConcurrencyLimiter`. A request adds one to the counter,
-- is served or refused, and takes one off when its handler ends; each of the two is one event, and
-- `serving` and `refusing` are the requests between theirs.
pub mod Bounds
use lyrics_plus.Common.{
  ℕ, zero, suc, ◌+◌, ◌-◌, Bool, true, false, not, ◌&&◌, List, [], ◌∷◌, ltb, if◌then◌else◌,
}
use lyrics_plus.Common.Text.{Text, codes}
use lyrics_plus.Common.Decimal.{itoa}
use lyrics_plus.Api.Client.{Request, is_health_path}

pub record Gate : Type 0 where
  pub most : ℕ
  pub inflight : ℕ
  pub serving : ℕ
  pub refusing : ℕ

unfoldable pub concurrency_limiter : ℕ → Gate
concurrency_limiter most = record { most = most; inflight = 0; serving = 0; refusing = 0 }

pub data Passage : Type 0 where
  past : Passage
  counted : Passage
  busy : Text → Passage

unfoldable pub admit_request : Gate → Request → Gate × Passage
admit_request g r =
    let cur = g.inflight + 1 in
    if is_health_path r
    then (g, past)
    else if ltb 0 g.most && ltb g.most cur
    then (record g { inflight = cur; refusing = g.refusing + 1 }, busy (itoa cur))
    else (record g { inflight = cur; serving = g.serving + 1 }, counted)

-- The deferred `inflight.Add(-1)`
unfoldable pub end_served : Gate → Gate
end_served g =
    if ltb 0 g.serving then record g { inflight = g.inflight - 1; serving = g.serving - 1 } else g

unfoldable pub end_refused : Gate → Gate
end_refused g =
    if ltb 0 g.refusing
    then record g { inflight = g.inflight - 1; refusing = g.refusing - 1 }
    else g

pub data GateEvent : Type 0 where
  comes : Request → GateEvent
  served_ends : GateEvent
  refused_ends : GateEvent

unfoldable pub gate_step : Gate → GateEvent → Gate
gate_step g (comes r) = (admit_request g r).0
gate_step g served_ends = end_served g
gate_step g refused_ends = end_refused g

unfoldable pub run_gate : Gate → List GateEvent → Gate
run_gate g [] = g
run_gate g (e ∷ es) = run_gate (gate_step g e) es
