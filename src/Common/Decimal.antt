-- ===== src/Common/Decimal.antt =====
-- Decimal digits of a number, as `strconv.Itoa` and the program's own loops write them.
use lyrics_plus.Common.Tests.{ltb, ltb→lt, if◌then◌else◌, Bool-cases}
use lyrics_plus.Common.Lists.{All}
use lyrics_plus.Common.Text.{Text}
use Prim.Native.Nat.{ℕ, zero, suc, ◌+◌, ◌-◌, ◌*◌, ◌/◌, ◌%◌, ◌^◌, ◌<◌}
use mathlib.Core.Path.{◌≡◌, ap, ◌∙◌}
use mathlib.Core.Logic.{inl, inr}
use mathlib.Core.List.{[], ◌∷◌}
use native.Mathlib.Nat.{pow-suc}
use native.Mathlib.Omega.{arith}

-- The digits are written from the last to the first, on fuel for each.
unfoldable pub digits_of : ℕ → ℕ → Text → Text
digits_of zero n out = out
digits_of (suc f) n out =
    let more = digits_of f (n / 10) ((b'0' + n % 10) ∷ out) in
    if ltb n 10 then (b'0' + n) ∷ out else more

-- The numbers of an int64 have at most 20 digits, the size of the program's buffer.
unfoldable pub itoa : ℕ → Text
unfolding digits_of
itoa n = digits_of 20 n []

-- Reading digits back.
unfoldable pub value_from : ℕ → Text → ℕ
value_from acc [] = acc
value_from acc (c ∷ s) = value_from (acc * 10 + (c - b'0')) s

value_from-next :
    (n : ℕ) (out : Text) → value_from (n / 10) ((b'0' + n % 10) ∷ out) ≡ value_from n out
unfolding value_from
value_from-next n out =
    let e : n / 10 * 10 + (b'0' + n % 10 - b'0') ≡ n = omega arith in
    ap (λ (a : ℕ). value_from a out) e

value-digits_of :
    (f n : ℕ) (out : Text)
    → n < 10 ^ suc f
    → value_from 0 (digits_of (suc f) n out) ≡ value_from n out
unfolding digits_of value_from
value-digits_of zero n out h = ground arith
value-digits_of (suc f) n out h = elim (Bool-cases (ltb n 10)) [
  | inl small ↦ ground arith
  | inr large ↦
      let ih =
        value-digits_of f (n / 10) ((b'0' + n % 10) ∷ out) (omega (arith, pow-suc 10 (suc f))) in
      rw large (ih ∙ value_from-next n out)
]

-- The printed digits of a number below 10^20, so of every int64 that is not negative, read back
-- as the number.
pub value-itoa : (n : ℕ) → n < 10 ^ 20 → value_from 0 (itoa n) ≡ n
unfolding itoa value_from
value-itoa n h = value-digits_of 19 n [] h

pub digits_of-All :
    (P : ℕ → Type 0) (f n : ℕ) (out : Text)
    → ((d : ℕ) → d < 10 → P (b'0' + d))
    → All P out
    → All P (digits_of f n out)
unfolding digits_of
digits_of-All P zero n out h a = a
digits_of-All P (suc f) n out h a = elim (Bool-cases (ltb n 10)) [
  | inl small ↦ rw small (h n (ltb→lt n 10 small), a)
  | inr large ↦
      rw large (digits_of-All P f (n / 10) ((b'0' + n % 10) ∷ out) h (h (n % 10) (omega arith), a))
]
