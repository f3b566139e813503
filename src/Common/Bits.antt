-- ===== src/Common/Bits.antt =====
-- The binary digits of unsigned words, and Go's `|`, `&`, `^`, `<<` and `>>` on them.
use Prim.Native.Nat.{
  ℕ, zero, suc, ◌+◌, ◌*◌, ◌/◌, ◌%◌, ◌^◌, ◌≤◌, ◌<◌, min, max, digits, bitwise, differ, bit_and,
  bit_or, bit_xor, bit_and-bitwise, bit_or-bitwise, bit_xor-bitwise,
}
use mathlib.Core.Path.{◌≡◌, refl, sym, ap, ◌∙◌}
use native.Mathlib.Nat.{
  le_refl, pow-suc, pow-succ', div-div-eq-div-mul, div-add-mod', mod-lt, mod-eq_of_lt,
  mul-add-mod_self_right, mul_assoc, one-le-pow,
}
use native.Mathlib.Omega.{arith}
use lyrics_plus.Common.Tests.{◌==◌, if◌then◌else◌}

-- `x >> k`, and `x << k` on a uint32
abbrev pub shr : ℕ → ℕ → ℕ
shr x k = x / 2 ^ k

abbrev pub shl32 : ℕ → ℕ → ℕ
shl32 x k = x * 2 ^ k % 2 ^ 32

-- Binary digit `i`, the lowest being 0.
unfoldable pub bit : ℕ → ℕ → ℕ
bit a zero = a % 2
bit a (suc i) = bit (a / 2) i

module _ (z : ℕ → ℕ) (f : ℕ → ℕ → ℕ) where
  -- Enough fuel is enough.
  digits-fuel : (n m a b : ℕ) → a ≤ n → a ≤ m → digits z f n a b ≡ digits z f m a b
  digits-fuel zero zero zero b p q = refl
  digits-fuel zero zero (suc a) b p q = absurd (omega arith)
  digits-fuel zero (suc m) zero b p q = refl
  digits-fuel zero (suc m) (suc a) b p q = absurd (omega arith)
  digits-fuel (suc n) zero zero b p q = refl
  digits-fuel (suc n) zero (suc a) b p q = absurd (omega arith)
  digits-fuel (suc n) (suc m) zero b p q = refl
  digits-fuel (suc n) (suc m) (suc a) b p q =
      ap (λ (t : ℕ). t * 2 + f (suc a % 2) (b % 2))
        (digits-fuel n m (suc a / 2) (b / 2) (omega arith) (omega arith))

  bitwise-half :
      (a b : ℕ)
      → bitwise z f (suc a) b ≡ bitwise z f (suc a / 2) (b / 2) * 2 + f (suc a % 2) (b % 2)
  bitwise-half a b =
      ap (λ (t : ℕ). t * 2 + f (suc a % 2) (b % 2))
        (digits-fuel a (suc a / 2) (suc a / 2) (b / 2) (omega arith) (le_refl _))

or_half : (a b : ℕ) → bit_or a b ≡ bit_or (a / 2) (b / 2) * 2 + max (a % 2) (b % 2)
or_half zero b = simp bit_or-bitwise (omega arith)
or_half (suc a) b = simp bit_or-bitwise (bitwise-half (λ y. y) max a b)

and_half : (a b : ℕ) → bit_and a b ≡ bit_and (a / 2) (b / 2) * 2 + min (a % 2) (b % 2)
and_half zero b = simp bit_and-bitwise (omega arith)
and_half (suc a) b = simp bit_and-bitwise (bitwise-half (λ y. 0) min a b)

xor_half : (a b : ℕ) → bit_xor a b ≡ bit_xor (a / 2) (b / 2) * 2 + differ (a % 2) (b % 2)
xor_half zero b = simp bit_xor-bitwise (omega arith)
xor_half (suc a) b = simp bit_xor-bitwise (bitwise-half (λ y. y) differ a b)

differ_binary : (x y : ℕ) → x < 2 → y < 2 → (differ (differ x y) y ≡ x) × (differ x y < 2)
differ_binary zero zero p q = (refl, omega arith)
differ_binary zero (suc zero) p q = (refl, omega arith)
differ_binary zero (suc (suc y)) p q = absurd (omega arith)
differ_binary (suc zero) zero p q = (refl, omega arith)
differ_binary (suc zero) (suc zero) p q = (refl, omega arith)
differ_binary (suc zero) (suc (suc y)) p q = absurd (omega arith)
differ_binary (suc (suc x)) y p q = absurd (omega arith)

differ-differ : (a b : ℕ) → differ (differ (a % 2) (b % 2)) (b % 2) ≡ a % 2
differ-differ a b = (differ_binary (a % 2) (b % 2) (omega arith) (omega arith)).0

differ-lt : (a b : ℕ) → differ (a % 2) (b % 2) < 2
differ-lt a b = (differ_binary (a % 2) (b % 2) (omega arith) (omega arith)).1

xor_twice_below : (n a b : ℕ) → a ≤ n → b ≤ n → bit_xor (bit_xor a b) b ≡ a
xor_twice_below zero zero zero p q = refl
xor_twice_below zero zero (suc b) p q = absurd (omega arith)
xor_twice_below zero (suc a) b p q = absurd (omega arith)
xor_twice_below (suc n) a b p q =
    let outer = xor_half (bit_xor a b) b in
    let inner = xor_half a b in
    let low = differ-lt a b in
    let up : bit_xor a b / 2 ≡ bit_xor (a / 2) (b / 2) = omega (arith, inner, low) in
    let down : bit_xor a b % 2 ≡ differ (a % 2) (b % 2) = omega (arith, inner, low) in
    let ih = xor_twice_below n (a / 2) (b / 2) (omega arith) (omega arith) in
    rw (outer, up, down, ih, differ-differ a b) (omega arith)

-- To flip bits twice changes nothing.
pub xor_twice : (a b : ℕ) → bit_xor (bit_xor a b) b ≡ a
xor_twice a b = xor_twice_below (a + b) a b (omega arith) (omega arith)

differ_comm : (x y : ℕ) → x < 2 → y < 2 → differ x y ≡ differ y x
differ_comm zero zero p q = refl
differ_comm zero (suc zero) p q = refl
differ_comm zero (suc (suc y)) p q = absurd (omega arith)
differ_comm (suc zero) zero p q = refl
differ_comm (suc zero) (suc zero) p q = refl
differ_comm (suc zero) (suc (suc y)) p q = absurd (omega arith)
differ_comm (suc (suc x)) y p q = absurd (omega arith)

xor_comm_below : (n a b : ℕ) → a ≤ n → b ≤ n → bit_xor a b ≡ bit_xor b a
xor_comm_below zero zero zero p q = refl
xor_comm_below zero zero (suc b) p q = absurd (omega arith)
xor_comm_below zero (suc a) b p q = absurd (omega arith)
xor_comm_below (suc n) a b p q =
    let low = differ_comm (a % 2) (b % 2) (omega arith) (omega arith) in
    omega (
      arith,
      xor_half a b,
      xor_half b a,
      low,
      xor_comm_below n (a / 2) (b / 2) (omega arith) (omega arith),
    )

pub xor_twice_left : (a b : ℕ) → bit_xor a (bit_xor a b) ≡ b
xor_twice_left a b =
    let comm = λ (x y : ℕ). xor_comm_below (x + y) x y (omega arith) (omega arith) in
    comm a (bit_xor a b) ∙ (ap (λ (t : ℕ). bit_xor t a) (comm a b) ∙ xor_twice b a)

pub xor-lt : (k a b : ℕ) → a < 2 ^ k → b < 2 ^ k → bit_xor a b < 2 ^ k
xor-lt zero zero zero p q = omega arith
xor-lt zero zero (suc b) p q = absurd (omega arith)
xor-lt zero (suc a) b p q = absurd (omega arith)
xor-lt (suc k) a b p q =
    let e = pow-suc 2 k in
    let ih = xor-lt k (a / 2) (b / 2) (omega (arith, e)) (omega (arith, e)) in
    omega (arith, e, ih, xor_half a b, differ-lt a b)

pub or-lt : (k a b : ℕ) → a < 2 ^ k → b < 2 ^ k → bit_or a b < 2 ^ k
or-lt zero zero zero p q = omega arith
or-lt zero zero (suc b) p q = absurd (omega arith)
or-lt zero (suc a) b p q = absurd (omega arith)
or-lt (suc k) a b p q =
    let e = pow-suc 2 k in
    let ih = or-lt k (a / 2) (b / 2) (omega (arith, e)) (omega (arith, e)) in
    omega (arith, e, ih, or_half a b)

and_zero_below : (n a : ℕ) → a ≤ n → bit_and a 0 ≡ 0
and_zero_below n zero p = refl
and_zero_below zero (suc a) p = absurd (omega arith)
and_zero_below (suc n) (suc a) p =
    omega (arith, and_half (suc a) 0, and_zero_below n (suc a / 2) (omega arith))

and-le_below : (n a b : ℕ) → b ≤ n → bit_and a b ≤ b
and-le_below zero a zero p = omega (arith, and_zero_below a a (le_refl a))
and-le_below zero a (suc b) p = absurd (omega arith)
and-le_below (suc n) a b p =
    omega (arith, and_half a b, and-le_below n (a / 2) (b / 2) (omega arith))

pub and-le : (a b : ℕ) → bit_and a b ≤ b
and-le a b = and-le_below b a b (le_refl b)

and_one : (a : ℕ) → bit_and a 1 ≡ a % 2
and_one a = omega (arith, and_half a 1, and_zero_below (a / 2) (a / 2) (le_refl _))

pub bit-or : (a b i : ℕ) → bit (bit_or a b) i ≡ max (bit a i) (bit b i)
unfolding bit
bit-or a b zero = omega (arith, or_half a b)
bit-or a b (suc i) =
    let up : bit_or a b / 2 ≡ bit_or (a / 2) (b / 2) = omega (arith, or_half a b) in
    rw up (bit-or (a / 2) (b / 2) i)

pub bit-lt : (a i : ℕ) → bit a i < 2
unfolding bit
bit-lt a zero = omega arith
bit-lt a (suc i) = bit-lt (a / 2) i

pub bit-zero : (i : ℕ) → bit 0 i ≡ 0
unfolding bit
bit-zero zero = refl
bit-zero (suc i) = bit-zero i

shr-bit : (a k : ℕ) → shr a k % 2 ≡ bit a k
unfolding bit
shr-bit a zero = omega arith
shr-bit a (suc k) =
    let halves : a / 2 / 2 ^ k ≡ a / 2 ^ suc k =
      div-div-eq-div-mul a 2 (2 ^ k) ∙ ap (λ (t : ℕ). a / t) (sym (pow-succ' 2 k)) in
    rw (← halves) (shr-bit (a / 2) k)

-- `(x >> k) & 1`
pub and_one-shr : (a k : ℕ) → bit_and (shr a k) 1 ≡ bit a k
and_one-shr a k = and_one (shr a k) ∙ shr-bit a k

halve-mod : (n a : ℕ) → (a % 2 ^ suc n % 2 ≡ a % 2) × (a % 2 ^ suc n / 2 ≡ (a / 2) % 2 ^ n)
halve-mod n a =
    let q = a / 2 ^ suc n in
    let r = a % 2 ^ suc n in
    let e = pow-suc 2 n in
    let whole : q * 2 ^ n * 2 + r ≡ a =
      rw (mul_assoc q (2 ^ n) 2, ← e) (div-add-mod' a (2 ^ suc n)) in
    let small : r < 2 ^ suc n = mod-lt a (omega (arith, one-le-pow (suc n) 2)) in
    let half : a / 2 ≡ q * 2 ^ n + r / 2 = omega (arith, whole) in
    let fits : r / 2 < 2 ^ n = omega (arith, small, e) in
    (
      omega (arith, whole),
      rw (half, mul-add-mod_self_right q (2 ^ n) (r / 2)) (sym (mod-eq_of_lt fits)),
    )

pub bit-mod : (n a i : ℕ) → i < n → bit (a % 2 ^ n) i ≡ bit a i
unfolding bit
bit-mod zero a i h = absurd (omega arith)
bit-mod (suc n) a zero h = (halve-mod n a).0
bit-mod (suc n) a (suc i) h = rw ((halve-mod n a).1) (bit-mod n (a / 2) i (omega arith))

doubled : (v c : ℕ) → v * 2 ^ suc c ≡ v * 2 ^ c * 2
doubled v c = rw (pow-suc 2 c) (sym (mul_assoc v (2 ^ c) 2))

bit-shift : (v c i : ℕ) → v < 2 → bit (v * 2 ^ c) i ≡ (if c == i then v else 0)
unfolding bit
bit-shift v zero zero h = omega arith
bit-shift v zero (suc i) h =
    let e : v * 2 ^ 0 / 2 ≡ 0 = omega arith in rw e (bit-zero i ∙ ground arith)
bit-shift v (suc c) zero h = ground (arith, doubled v c)
bit-shift v (suc c) (suc i) h =
    let e : v * 2 ^ suc c / 2 ≡ v * 2 ^ c = omega (arith, doubled v c) in
    rw e (bit-shift v c i h ∙ ground arith)

-- A digit shifted to its place.
pub bit-shl32 : (v c i : ℕ) → v < 2 → i < 32 → bit (shl32 v c) i ≡ (if c == i then v else 0)
bit-shl32 v c i h k = bit-mod 32 (v * 2 ^ c) i k ∙ bit-shift v c i h

-- Words below 2 ^ k with the same digits are equal.
pub eq_of_bits : (k a b : ℕ) → a < 2 ^ k → b < 2 ^ k → ((i : ℕ) → i < k → bit a i ≡ bit b i) → a ≡ b
unfolding bit
eq_of_bits zero a b p q h = omega arith
eq_of_bits (suc k) a b p q h =
    let e = pow-suc 2 k in
    let ih =
      eq_of_bits k (a / 2) (b / 2) (omega (arith, e)) (omega (arith, e))
        (λ i r. h (suc i) (omega arith)) in
    omega (arith, ih, h 0 (omega arith))
