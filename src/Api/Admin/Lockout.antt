-- ===== src/Api/Admin/Lockout.antt =====
-- Five wrong tokens within a minute lock a client out (internal/api/middleware/admin_auth.go).
use lyrics_plus.Common.{
  ℕ, ◌+◌, ◌≤◌, ◌<◌, ◌≡◌, sym, subst, ◌∙◌, ap, inl, inr, true, false, Option, none, some, List, [],
  ◌∷◌, ltb, if◌then◌else◌, Bool-cases, All, arith,
}
use lyrics_plus.Common.Text.{Text, text_eq, text_eq_iff}
use lyrics_plus.Api.Client.{client_ip}
use lyrics_plus.Api.Admin.{
  minute, FailEntry, Failures, Claims, find_entry, fail_again, valid_secrets, is_unset, AdminReply,
  locked_out, AdminRequest, admin_auth,
}
use lyrics_plus.Api.Admin.Steps.{
  IsOpen-Survives, tried, fail_again-early, fail_again-fifth, fail_again-new, tried-IsOpen,
  HasWrongToken, other_client, own_failure, own_locked,
}

-- Requests with their times, one after the other.
unfoldable pub run_admin :
    (Text → Option Text)
    → (ℕ → Text → Text → Option Claims)
    → List Text
    → Failures
    → List (AdminRequest × ℕ)
    → Failures
run_admin split jwt tokens t [] = t
run_admin split jwt tokens t ((r, now) ∷ rs) =
    run_admin split jwt tokens (admin_auth split jwt tokens t r now).0 rs

-- How many of the requests come from a client.
unfoldable pub requests_of : (Text → Option Text) → Text → List (AdminRequest × ℕ) → ℕ
requests_of split ip [] = 0
requests_of split ip ((r, now) ∷ rs) =
    (if text_eq (client_ip split r.request) ip then 1 else 0) + requests_of split ip rs

-- Requests up to `last`, those of the client with wrong tokens.
abbrev pub AreTries :
    (Text → Option Text)
    → (ℕ → Text → Text → Option Claims)
    → List Text
    → Text
    → ℕ
    → List (AdminRequest × ℕ)
    → Type 0
AreTries split jwt tokens ip last rs =
    All
      (λ (e : AdminRequest × ℕ).
        (e.1 ≤ last) × (client_ip split e.0.request ≡ ip → HasWrongToken jwt tokens e.0 e.1))
      rs

abbrev pub AreBefore : ℕ → List (AdminRequest × ℕ) → Type 0
AreBefore end rs = All (λ (e : AdminRequest × ℕ). e.1 < end) rs

module _ (split : Text → Option Text) (jwt : ℕ → Text → Text → Option Claims) (tokens : List Text)
    (ip : Text) (set : is_unset (valid_secrets tokens) ≡ false) where
  tries_count :
      (t : Failures) (n first : ℕ) (rs : List (AdminRequest × ℕ))
      → find_entry t ip ≡ some (tried n first)
      → AreTries split jwt tokens ip (first + minute) rs
      → n + requests_of split ip rs ≤ 4
      → find_entry (run_admin split jwt tokens t rs) ip
        ≡ some (tried (n + requests_of split ip rs) first)
  unfolding run_admin requests_of
  tries_count t n first [] h a few = h ∙ ap (λ m. some (tried m first)) (omega arith)
  tries_count t n first ((r, now) ∷ rs) h ((within, wrong), a) few =
      let t' = (admin_auth split jwt tokens t r now).0 in
      let free = tried-IsOpen n first now within in
      elim (Bool-cases (text_eq (client_ip split r.request) ip)) [
        | inl same ↦
            let own = (text_eq_iff (client_ip split r.request) ip).0 same in
            let next =
              own_failure split jwt tokens ip set t r now (some (tried n first)) own (wrong own) h
                free
              ∙ ap some (fail_again-early n first now within (ground arith)) in
            tries_count t' (n + 1) first rs next a (ground arith)
            ∙ ap (λ m. some (tried m first)) (ground arith)
        | inr apart ↦
            tries_count t' n first rs
              (other_client split jwt tokens ip set t r now (some (tried n first)) apart h
                (IsOpen-Survives now (some (tried n first)) free))
              a (ground arith)
            ∙ ap (λ m. some (tried m first)) (ground arith)
      ]

  lock_stays :
      (t : Failures) (e : FailEntry) (rs : List (AdminRequest × ℕ))
      → find_entry t ip ≡ some e
      → AreBefore e.locked_until rs
      → find_entry (run_admin split jwt tokens t rs) ip ≡ some e
  unfolding run_admin
  lock_stays t e [] h a = h
  lock_stays t e ((r, now) ∷ rs) h (before, a) =
      let t' = (admin_auth split jwt tokens t r now).0 in
      let kept : find_entry t' ip ≡ some e =
        elim (Bool-cases (text_eq (client_ip split r.request) ip)) [
          | inl same ↦
              let own = (text_eq_iff (client_ip split r.request) ip).0 same in
              ap (λ (x : Failures × AdminReply). find_entry x.0 ip)
                (own_locked split jwt tokens ip set t r now e own h (ground arith))
              ∙ h
          | inr apart ↦ other_client split jwt tokens ip set t r now (some e) apart h (ground arith)
        ] in
      lock_stays t' e rs kept a

-- A client that the tracker does not know, and that sends five wrong tokens within a minute, is
-- locked out for a minute from the fifth one on: the last request below is refused whatever token it
-- holds. Requests of other clients may come between any two, and further ones of this client
-- after the fifth; a secret is configured.
pub five_tries_lock :
    (split : Text → Option Text) (jwt : ℕ → Text → Text → Option Claims) (tokens : List Text)
    (ip : Text) (t : Failures) (r1 r5 r : AdminRequest) (t1 t5 now : ℕ)
    (between later : List (AdminRequest × ℕ))
    → is_unset (valid_secrets tokens) ≡ false
    → find_entry t ip ≡ none
    → client_ip split r1.request ≡ ip
    → HasWrongToken jwt tokens r1 t1
    → AreTries split jwt tokens ip (t1 + minute) between
    → requests_of split ip between ≡ 3
    → client_ip split r5.request ≡ ip
    → HasWrongToken jwt tokens r5 t5
    → t5 ≤ t1 + minute
    → AreBefore (t5 + minute) later
    → client_ip split r.request ≡ ip
    → now < t5 + minute
    → let s1 = (admin_auth split jwt tokens t r1 t1).0 in
      let s4 = run_admin split jwt tokens s1 between in
      let s5 = (admin_auth split jwt tokens s4 r5 t5).0 in
      (admin_auth split jwt tokens (run_admin split jwt tokens s5 later) r now).1 ≡ locked_out
five_tries_lock split jwt tokens ip t r1 r5 r t1 t5 now between later set new own1 wrong1 tries
      three own5 wrong5 within before own soon =
    let s1 = (admin_auth split jwt tokens t r1 t1).0 in
    let s4 = run_admin split jwt tokens s1 between in
    let s5 = (admin_auth split jwt tokens s4 r5 t5).0 in
    let e = fail_again t5 (some (tried 4 t1)) in
    let until = fail_again-fifth t1 t5 within in
    let first = own_failure split jwt tokens ip set t r1 t1 none own1 wrong1 new tt in
    let fourth =
      tries_count split jwt tokens ip set s1 1 t1 between (first ∙ ap some (fail_again-new t1))
        tries (omega arith)
      ∙ ap (λ m. some (tried m t1)) (omega arith) in
    let fifth : find_entry s5 ip ≡ some e =
      own_failure split jwt tokens ip set s4 r5 t5 (some (tried 4 t1)) own5 wrong5 fourth
        (tried-IsOpen 4 t1 t5 within) in
    let stays : find_entry (run_admin split jwt tokens s5 later) ip ≡ some e =
      lock_stays split jwt tokens ip set s5 e later fifth
        (subst (λ x. AreBefore x later) (sym until) before) in
    let locked : ltb now e.locked_until ≡ true = ground arith in
    ap (λ (x : Failures × AdminReply). x.1)
      (own_locked split jwt tokens ip set (run_admin split jwt tokens s5 later) r now e own stays
        locked)
