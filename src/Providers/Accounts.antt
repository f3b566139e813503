-- ===== src/Providers/Accounts.antt =====
-- internal/providers/accounts.go: a provider's accounts, used in turn, with cooldowns. An atomic is
-- a field; the time is in nanoseconds, 0 in `cooldowns` is no cooldown.
pub mod Rotation
use lyrics_plus.Common.{
  ℕ, zero, suc, ◌+◌, ◌-◌, Bool, true, false, ◌&&◌, Option, none, some, List, [], ◌∷◌, leb, ◌==◌,
  if◌then◌else◌, length, get_elem?, set, replicate, lt_i64, add_i64, is_negative, rem_i64,
  positive_or,
}

pub record AccountManager {ℓ} (A : Type ℓ) : Type ℓ where
  pub accounts : List A
  pub cooldowns : List ℕ
  pub current_index : ℕ

module _ {ℓ} {A : Type ℓ} where
  unfoldable pub new_account_manager : List A → AccountManager A
  new_account_manager accounts = record {
    accounts = accounts;
    cooldowns = replicate (length accounts) 0;
    current_index = 0;
  }

  unfoldable pub is_cooling_down : AccountManager A → ℕ → ℕ → Bool
  is_cooling_down m i now = if is_negative i then false else elim (get_elem? m.cooldowns i) [
    | none ↦ false
    | some until ↦ lt_i64 0 until && lt_i64 now until
  ]

  unfoldable pub mark_bad : AccountManager A → ℕ → ℕ → ℕ → AccountManager A
  mark_bad m i d now =
      if is_negative i
      then m
      else if leb (length m.cooldowns) i
      then m
      else if lt_i64 0 d
      then record m { cooldowns = set m.cooldowns i (add_i64 now d) }
      else m

  -- The loop `for step := …; step < n; step++`, on the rounds that are left.
  unfoldable pub find_free : AccountManager A → ℕ → ℕ → ℕ → ℕ → ℕ → Option ℕ
  find_free m n i now step zero = none
  find_free m n i now step (suc rounds) =
      let cand = rem_i64 (add_i64 i step) n in
      let rest = find_free m n i now (suc step) rounds in
      if is_cooling_down m cand now then rest else some cand

  -- `CurrentIndex`
  unfoldable pub pick_current : AccountManager A → ℕ → AccountManager A × ℕ
  pick_current m now =
      let n = length m.accounts in
      let cur = if is_negative m.current_index then 0 else m.current_index in
      let idx = rem_i64 cur n in
      if n == 0
      then (m, 0)
      else if n == 1
      then (m, idx)
      else if is_cooling_down m idx now
      then elim (find_free m n idx now 1 (n - 1)) [
        | none ↦ (m, idx)
        | some cand ↦ (record m { current_index = cand }, cand)
      ]
      else (m, idx)

  unfoldable pub account_at : AccountManager A → ℕ → Option A
  account_at m i = if is_negative i then none else get_elem? m.accounts i

  -- `Current`
  unfoldable pub current : AccountManager A → ℕ → AccountManager A × Option (A × ℕ)
  current m now =
      let (m', idx) = pick_current m now in
      (m', elim (account_at m idx) [ none ↦ none | some a ↦ some (a, idx) ])

  unfoldable pub first : AccountManager A → Option A
  first m = account_at m 0

  unfoldable pub next : AccountManager A → ℕ → ℕ → AccountManager A × (ℕ × Bool)
  next m i now =
      let n = length m.accounts in
      let from = if is_negative i then 0 else i in
      if leb n 1 then (m, (0, false)) else elim (find_free m n from now 1 (n - 1)) [
        | some cand ↦ (record m { current_index = cand }, (cand, true))
        | none ↦
            let cand = rem_i64 (add_i64 from 1) n in
            (record m { current_index = cand }, (cand, true))
      ]

  unfoldable pub rotate : AccountManager A → ℕ → AccountManager A × ℕ
  rotate m now =
      if leb (length m.accounts) 1
      then (m, 0)
      else (let (m', found) = next m m.current_index now in (m', found.0))
