-- ===== src/Providers/Accounts/Rotation.antt =====
-- Which account internal/providers/accounts.go turns to.
use native.Mathlib.Nat.{mod-eq_of_lt, mod-eq-sub-mod}
use lyrics_plus.Common.{
  ℕ, zero, suc, ◌+◌, ◌-◌, ◌^◌, ◌≤◌, ◌<◌, ◌≡◌, ◌≢◌, refl, subst, ◌∙◌, true, false, Option, none,
  some, leb, ◌==◌, if◌then◌else◌, length, Bool-cases, inl, inr, arith, add_i64, add_i64-lt,
  is_negative-lt, rem_i64, rem_i64-lt,
}
use lyrics_plus.Providers.Accounts.{AccountManager, is_cooling_down, find_free, pick_current, next}

-- The candidate that stands `step` places behind `i`, around the end.
abbrev around : ℕ → ℕ → ℕ → ℕ
around n i step = if leb n (i + step) then i + step - n else i + step

candidate :
    (n i step : ℕ) → i < n → step < n → n < 2 ^ 62 → rem_i64 (add_i64 i step) n ≡ around n i step
candidate n i step hi hs hn =
    let flat : add_i64 i step ≡ i + step = add_i64-lt i step (omega arith) in
    rw (flat, rem_i64-lt (i + step) n (omega arith))
      (elim (Bool-cases (leb n (i + step))) [
        | inl e ↦
            let far : n ≤ i + step = ground arith in
            let near : i + step - n < n = omega arith in
            rw e (mod-eq-sub-mod far ∙ mod-eq_of_lt near)
        | inr e ↦ let near : i + step < n = ground arith in rw e (mod-eq_of_lt near)
      ])

-- Every other account is some places behind `i`.
reach : (n i j : ℕ) → i < n → j < n → j ≢ i → (s : ℕ) × (1 ≤ s) × (s < n) × (around n i s ≡ j)
reach n i j hi hj d = elim (Bool-cases (leb i j)) [
  | inl e ↦ (j - i, ground (arith, d), ground (arith, d), ground (arith, d))
  | inr e ↦ (j + n - i, ground arith, ground arith, ground arith)
]

module _ {ℓ} {A : Type ℓ} where
  -- What the search brings: an index of another account that is not cooling down, or nothing,
  -- and then all that it tried are cooling down.
  abbrev Searched : AccountManager A → ℕ → ℕ → ℕ → ℕ → ℕ → Option ℕ → Type 0
  Searched m n i now step rounds (some c) = (c < n) × (c ≢ i) × (is_cooling_down m c now ≡ false)
  Searched m n i now step rounds none =
      (s : ℕ) → step ≤ s → s < step + rounds → is_cooling_down m (around n i s) now ≡ true

  Searched-earlier :
      (m : AccountManager A) (n i now step rounds : ℕ) (o : Option ℕ)
      → is_cooling_down m (around n i step) now ≡ true
      → Searched m n i now (suc step) rounds o
      → Searched m n i now step (suc rounds) o
  Searched-earlier m n i now step rounds (some c) h z = z
  Searched-earlier m n i now step rounds none h z = λ s a b. elim (Bool-cases (s == step)) [
    | inl e ↦ subst (λ x. is_cooling_down m (around n i x) now ≡ true) (ground arith) h
    | inr e ↦ z s (ground arith) (omega arith)
  ]

  find_free-Searched :
      (m : AccountManager A) (n i now step rounds : ℕ)
      → i < n
      → n < 2 ^ 62
      → 0 < step
      → step + rounds ≤ n
      → Searched m n i now step rounds (find_free m n i now step rounds)
  unfolding find_free
  find_free-Searched m n i now step zero hi hn hs hr = λ s a b. absurd (omega arith)
  find_free-Searched m n i now step (suc rounds) hi hn hs hr =
      let c = rem_i64 (add_i64 i step) n in
      let at : c ≡ around n i step = candidate n i step hi (omega arith) hn in
      elim (Bool-cases (is_cooling_down m c now)) [
        | inl e ↦ rw e (
            Searched-earlier m n i now step rounds (find_free m n i now (suc step) rounds)
              (subst (λ x. is_cooling_down m x now ≡ true) at e)
              (find_free-Searched m n i now (suc step) rounds hi hn (omega arith) (omega arith)))
        | inr e ↦ rw e (ground (arith, at), (λ same. absurd (ground (arith, at))), e)
      ]

  -- With an account other than `i` that is not cooling down, the search finds one.
  abbrev Found : AccountManager A → ℕ → ℕ → ℕ → Option ℕ → Type 0
  Found m n i now o = (c : ℕ) × (o ≡ some c) × (c < n) × (c ≢ i) × (is_cooling_down m c now ≡ false)

  Searched-Found :
      (m : AccountManager A) (n i now j : ℕ) (o : Option ℕ)
      → i < n
      → j < n
      → j ≢ i
      → is_cooling_down m j now ≡ false
      → Searched m n i now 1 (n - 1) o
      → Found m n i now o
  Searched-Found m n i now j (some c) hi hj d free z = (c, refl, z.0, z.1, z.2)
  Searched-Found m n i now j none hi hj d free z =
      let (s, lo, near, at) = reach n i j hi hj d in
      let cooling = subst (λ x. is_cooling_down m x now ≡ true) at (z s lo (omega arith)) in
      absurd (ground arith)

  find_free-Found :
      (m : AccountManager A) (n i now j : ℕ)
      → n < 2 ^ 62
      → i < n
      → j < n
      → j ≢ i
      → is_cooling_down m j now ≡ false
      → Found m n i now (find_free m n i now 1 (n - 1))
  find_free-Found m n i now j hn hi hj d free =
      Searched-Found m n i now j _ hi hj d free
        (find_free-Searched m n i now 1 (n - 1) hi hn (omega arith) (omega arith))

  -- With fewer than 2^62 accounts: `Next` behind an account in range, with another account that is
  -- not cooling down: it moves to an account in range that is not the same and is not cooling
  -- down, and says so.
  pub next_skips_cooling :
      (m : AccountManager A) (i now j : ℕ)
      → length m.accounts < 2 ^ 62
      → i < length m.accounts
      → j < length m.accounts
      → j ≢ i
      → is_cooling_down m j now ≡ false
      → let (m', (c, moved)) = next m i now in
        (c < length m.accounts)
        × (c ≢ i)
        × (is_cooling_down m c now ≡ false)
        × (m'.current_index ≡ c)
        × (moved ≡ true)
  unfolding next
  next_skips_cooling m i now j hn hi hj d free =
      let many : leb (length m.accounts) 1 ≡ false = ground (arith, d) in
      let (c, found, inside, other, ready) =
        find_free-Found m (length m.accounts) i now j hn hi hj d free in
      rw (many, is_negative-lt i (omega arith), found) (inside, other, ready, refl, refl)

  -- With fewer than 2^62 accounts: `CurrentIndex` with the pointer in range and an account that is
  -- not cooling down: it gives an account in range that is not cooling down, and the pointer stays
  -- in range.
  pub pick_current_skips_cooling :
      (m : AccountManager A) (now j : ℕ)
      → length m.accounts < 2 ^ 62
      → m.current_index < length m.accounts
      → j < length m.accounts
      → is_cooling_down m j now ≡ false
      → let (m', c) = pick_current m now in
        (c < length m.accounts)
        × (is_cooling_down m c now ≡ false)
        × (m'.current_index < length m.accounts)
  unfolding pick_current
  pick_current_skips_cooling m now j hn hc hj free =
      let some_there : (length m.accounts == 0) ≡ false = ground arith in
      let at : rem_i64 m.current_index (length m.accounts) ≡ m.current_index =
        rem_i64-lt m.current_index (length m.accounts) (omega arith) ∙ mod-eq_of_lt hc in
      let still = is_negative-lt m.current_index (omega arith) in
      elim (Bool-cases (is_cooling_down m m.current_index now)) [
        | inl e ↦
            let moved : j ≢ m.current_index = λ same.
              absurd (ground (arith, subst (λ x. is_cooling_down m x now ≡ false) same free)) in
            let many : (length m.accounts == 1) ≡ false = ground (arith, moved) in
            let (c, found, inside, other, ready) =
              find_free-Found m (length m.accounts) m.current_index now j hn hc hj moved free in
            rw (some_there, still, at, many, e, found) (inside, ready, inside)
        | inr e ↦ elim (Bool-cases (length m.accounts == 1)) [
          | inl one ↦ rw (some_there, still, at, one) (hc, e, hc)
          | inr many ↦ rw (some_there, still, at, many, e) (hc, e, hc)
        ]
      ]
