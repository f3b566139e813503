-- ===== src/Api/Limit/Retry.antt =====
-- A refused call and the wait it is told (internal/api/middleware/middleware.go).
use lyrics_plus.Common.{
  ℕ, ◌+◌, ◌-◌, ◌*◌, ◌/◌, ◌^◌, ◌≤◌, ◌<◌, ◌≡◌, refl, sym, subst, Bool, true, false, some, inl, inr,
  ltb, leb, Bool-cases, arith,
}
use lyrics_plus.Common.Text.{Text}
use lyrics_plus.Common.Decimal.{itoa, value_from, value-itoa}
use lyrics_plus.Api.Limit.{IpEntry, prune_entry, retry_secs, allow_entry}

abbrev passes : IpEntry × (Text × Bool) → Bool
passes r = r.1.1

over_passes :
    (window most later a : ℕ) (e : IpEntry)
    → window ≤ later - e.window_start
    → passes (allow_entry window most later (prune_entry a (some e))) ≡ true
unfolding allow_entry prune_entry
over_passes window most later a e h = elim (Bool-cases (ltb e.last a)) [
  | inl old ↦ rw (old, prune_entry) refl
  | inr young ↦
      let over : leb window (later - e.window_start) ≡ true = ground arith in
      rw (young, prune_entry) (rw (over, allow_entry) refl)
]

wait_covers :
    (window now later : ℕ) (e : IpEntry)
    → window < 2 ^ 63
    → e.window_start < 2 ^ 63
    → now + (value_from 0 (itoa (retry_secs window e now)) + 1) * 10 ^ 9 ≤ later
    → window ≤ later - e.window_start
unfolding retry_secs
wait_covers window now later e w s wait =
    let left = window + e.window_start - now in
    let small : retry_secs window e now < 10 ^ 20 = omega arith in
    let told = value-itoa (retry_secs window e now) small in
    let long : left / 10 ^ 9 ≤ retry_secs window e now = omega arith in
    omega (arith, wait, told, long)

refused_entry :
    (window most now : ℕ) (e : IpEntry)
    → leb window (now - e.window_start) ≡ false
    → leb most e.seen ≡ true
    → allow_entry window most now (some e)
      ≡ (record e { last = now }, (itoa (retry_secs window e now), false))
unfolding allow_entry
refused_entry window most now e within full = rw (within, full, allow_entry) refl

-- A call that is refused while the client's window lasts is told a number of seconds; a call that
-- comes more than a second after that wait is let through, whether the entry was pruned before it
-- (by any bound `a`) or not, if no other call of the client comes between them and the window's
-- length and its begin are int64 values.
pub refused_passes_later :
    (window most now later a : ℕ) (e : IpEntry)
    → window < 2 ^ 63
    → e.window_start < 2 ^ 63
    → (allow_entry window most now (some e)).1.1 ≡ false
    → now + (value_from 0 (allow_entry window most now (some e)).1.0 + 1) * 10 ^ 9 ≤ later
    → (allow_entry window most later
        (prune_entry a (some (allow_entry window most now (some e)).0))).1.1
      ≡ true
unfolding allow_entry
refused_passes_later window most now later a e w s refused wait =
    elim (Bool-cases (leb window (now - e.window_start))) [
      | inl over ↦ absurd (ground arith)
      | inr within ↦ elim (Bool-cases (leb most e.seen)) [
        | inl full ↦
            let is = refused_entry window most now e within full in
            let told =
              subst
                (λ (r : IpEntry × (Text × Bool)). now + (value_from 0 r.1.0 + 1) * 10 ^ 9 ≤ later)
                is wait in
            subst
              (λ (r : IpEntry × (Text × Bool)).
                passes (allow_entry window most later (prune_entry a (some r.0))) ≡ true)
              (sym is)
              (over_passes window most later a (record e { last = now })
                (wait_covers window now later e w s told))
        | inr free ↦ absurd (ground arith)
      ]
    ]
