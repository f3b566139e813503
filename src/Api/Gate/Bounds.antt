-- ===== src/Api/Gate/Bounds.antt =====
-- How many requests are served at once (internal/api/middleware/middleware.go).
use lyrics_plus.Common.{
  ℕ, ◌+◌, ◌≤◌, ◌<◌, ◌≡◌, refl, ◌&&◌, List, [], ◌∷◌, ltb, inl, inr, Bool-cases, arith,
}
use lyrics_plus.Api.Client.{is_health_path}
use lyrics_plus.Api.Gate.{
  Gate, GateEvent, comes, served_ends, refused_ends, concurrency_limiter, admit_request, end_served,
  end_refused, gate_step, run_gate,
}

abbrev pub IsBounded : ℕ → Gate → Type 0
IsBounded m g = (g.most ≡ m) × (g.inflight ≡ g.serving + g.refusing) × (0 < m → g.serving ≤ m)

gate_step-IsBounded :
    (m : ℕ) (g : Gate) (e : GateEvent) → IsBounded m g → IsBounded m (gate_step g e)
unfolding gate_step admit_request end_served end_refused
gate_step-IsBounded m g (comes r) (a, b, c) = elim (Bool-cases (is_health_path r)) [
  | inl health ↦ rw (health, gate_step, admit_request) (a, b, c)
  | inr other ↦ elim (Bool-cases (ltb 0 g.most && ltb g.most (g.inflight + 1))) [
    | inl full ↦ rw (other, full, gate_step, admit_request) (a, omega arith, c)
    | inr free ↦ rw (other, free, gate_step, admit_request) (a, omega arith, λ h. ground arith)
  ]
]
gate_step-IsBounded m g served_ends (a, b, c) = elim (Bool-cases (ltb 0 g.serving)) [
  | inl some_there ↦
      rw (some_there, gate_step, end_served) (a, ground arith, λ h. ground (arith, c h))
  | inr none_there ↦ rw (none_there, gate_step, end_served) (a, b, c)
]
gate_step-IsBounded m g refused_ends (a, b, c) = elim (Bool-cases (ltb 0 g.refusing)) [
  | inl some_there ↦ rw (some_there, gate_step, end_refused) (a, ground arith, c)
  | inr none_there ↦ rw (none_there, gate_step, end_refused) (a, b, c)
]

run_gate-from :
    (m : ℕ) (g : Gate) (es : List GateEvent) → IsBounded m g → IsBounded m (run_gate g es)
unfolding run_gate
run_gate-from m g [] b = b
run_gate-from m g (e ∷ es) b = run_gate-from m (gate_step g e) es (gate_step-IsBounded m g e b)

-- However requests come and end, the counter is the number of requests between their two events,
-- and with a positive limit at most that many of them are being served.
pub run_gate-IsBounded :
    (m : ℕ) (es : List GateEvent) → IsBounded m (run_gate (concurrency_limiter m) es)
unfolding concurrency_limiter
run_gate-IsBounded m es = run_gate-from m (concurrency_limiter m) es (refl, refl, λ h. omega arith)
