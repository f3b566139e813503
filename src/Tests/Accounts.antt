-- ===== src/Tests/Accounts.antt =====
-- Three accounts, one of them cooling down (internal/providers/accounts.go).
use lyrics_plus.Common.{
  ◌≡◌, refl, true, false, [], ◌∷◌, String, length, lt_i64, add_i64, is_negative, rem_i64,
}
use lyrics_plus.Providers.Accounts.{
  AccountManager, new_account_manager, is_cooling_down, mark_bad, next, pick_current, find_free,
}

-- `MarkBad(1, 50)` at time 100
unfoldable rested : AccountManager String
rested = mark_bad (new_account_manager ("a" ∷ "b" ∷ "c" ∷ [])) 1 50 100

-- `MarkBad(0, 50)` besides
unfoldable two_rested : AccountManager String
two_rested = mark_bad rested 0 50 100

program : Unit {0}
unfolding rested two_rested mark_bad new_account_manager is_cooling_down is_negative lt_i64 add_i64
    rem_i64 find_free next pick_current
program = tt

skips_second : (next rested 0 120).1 ≡ (2, true)
unfolding program
skips_second = refl

two_back : is_cooling_down rested 2 120 ≡ false
unfolding program
two_back = refl

three : length rested.accounts ≡ 3
unfolding program
three = refl

two_free : is_cooling_down two_rested 2 120 ≡ false
unfolding program
two_free = refl

three_accounts : length two_rested.accounts ≡ 3
unfolding program
three_accounts = refl

at_start : two_rested.current_index ≡ 0
unfolding program
at_start = refl
