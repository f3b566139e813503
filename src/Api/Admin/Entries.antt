-- ===== src/Api/Admin/Entries.antt =====
-- The entries of the failure tracker (internal/api/middleware/admin_auth.go).
use lyrics_plus.Common.{
  ℕ, ◌-◌, ◌≡◌, refl, sym, subst, ◌∙◌, ap, inl, inr, Bool, true, false, Option, none, some, List, [],
  ◌∷◌, ltb, if◌then◌else◌, length, Bool-cases, Option-cases, arith,
}
use lyrics_plus.Common.Text.{Text, text_eq, text_eq_iff}
use lyrics_plus.Domain.Query.{is_empty}
use lyrics_plus.Api.Admin.{
  minute, FailEntry, Failures, Claims, find_entry, remove_entry, put_entry, is_locked, is_over,
  drop_over, fail_again, record_failure, extract_admin_token_header, matches_any, AdminRequest,
  check_token,
}

text_eq_refl : (k : Text) → text_eq k k ≡ true
text_eq_refl k = (text_eq_iff k k).1 refl

find-remove_other :
    (t : Failures) (k ip : Text)
    → text_eq k ip ≡ false
    → find_entry (remove_entry t k) ip ≡ find_entry t ip
unfolding find_entry remove_entry
find-remove_other [] k ip h = refl
find-remove_other ((x, e) ∷ t) k ip h = elim (Bool-cases (text_eq x k)) [
  | inl same ↦
      let other : text_eq x ip ≡ false =
        subst (λ y. text_eq y ip ≡ false) (sym ((text_eq_iff x k).0 same)) h in
      rw (same, remove_entry) (rw (other, find_entry) (find-remove_other t k ip h))
  | inr apart ↦
      rw (apart, remove_entry)
        (ap (λ o. if text_eq x ip then some e else o) (find-remove_other t k ip h))
]

find-put_same :
    (t : Failures) (ip : Text) (e : FailEntry) → find_entry (put_entry t ip e) ip ≡ some e
unfolding find_entry put_entry
find-put_same t ip e = rw (text_eq_refl ip, find_entry) refl

find-put_other :
    (t : Failures) (k ip : Text) (e : FailEntry)
    → text_eq k ip ≡ false
    → find_entry (put_entry t k e) ip ≡ find_entry t ip
unfolding find_entry put_entry
find-put_other t k ip e h = rw (h, find_entry) (find-remove_other t k ip h)

-- An entry that is not over stays, and one that is not there does not come.
abbrev pub Survives : ℕ → Option FailEntry → Type 0
Survives now none = Unit
Survives now (some e) = is_over now e ≡ false

find-cons :
    (same : Bool) (e' : FailEntry) (o o' r : Option FailEntry)
    → (if same then some e' else o) ≡ r
    → (o ≡ r → o' ≡ r)
    → (if same then some e' else o') ≡ r
find-cons true e' o o' r h f = h
find-cons false e' o o' r h f = f h

find-drop_over :
    (t : Failures) (ip : Text) (now : ℕ) (o : Option FailEntry)
    → find_entry t ip ≡ o
    → Survives now o
    → find_entry (drop_over now t) ip ≡ o
unfolding find_entry drop_over
find-drop_over [] ip now o h young = h
find-drop_over ((x, e') ∷ t) ip now o h young = elim (Bool-cases (is_over now e')) [
  | inr kept ↦
      rw (kept, drop_over)
        (find-cons (text_eq x ip) e' (find_entry t ip) (find_entry (drop_over now t) ip) o h
          (λ k. find-drop_over t ip now o k young))
  | inl over ↦
      rw (over, drop_over)
        (elim (Bool-cases (text_eq x ip)) [
          | inl same ↦
              let at : some e' ≡ o =
                subst (λ b. (if b then some e' else find_entry t ip) ≡ o) same h in
              let alive : is_over now e' ≡ false = subst (Survives now) (sym at) young in
              absurd (ground arith)
          | inr apart ↦
              find-drop_over t ip now o
                (subst (λ b. (if b then some e' else find_entry t ip) ≡ o) apart h) young
        ])
]

abbrev kept_of : Failures → ℕ → Failures
kept_of t now = if ltb 256 (length t) then drop_over now t else t

find-kept :
    (t : Failures) (ip : Text) (now : ℕ) (o : Option FailEntry)
    → find_entry t ip ≡ o
    → Survives now o
    → find_entry (kept_of t now) ip ≡ o
find-kept t ip now o h young = elim (Bool-cases (ltb 256 (length t))) [
  | inl large ↦ rw large (find-drop_over t ip now o h young)
  | inr small ↦ rw small h
]

-- A failure of a client's own, and one of another client.
pub record_failure-own :
    (t : Failures) (ip : Text) (now : ℕ) (o : Option FailEntry)
    → find_entry t ip ≡ o
    → Survives now o
    → find_entry (record_failure t ip now) ip ≡ some (fail_again now o)
unfolding record_failure
record_failure-own t ip now o h young =
    find-put_same (kept_of t now) ip (fail_again now (find_entry (kept_of t now) ip))
    ∙ ap (λ x. some (fail_again now x)) (find-kept t ip now o h young)

record_failure-other :
    (t : Failures) (k ip : Text) (now : ℕ) (o : Option FailEntry)
    → text_eq k ip ≡ false
    → find_entry t ip ≡ o
    → Survives now o
    → find_entry (record_failure t k now) ip ≡ o
unfolding record_failure
record_failure-other t k ip now o apart h young =
    find-put_other (kept_of t now) k ip (fail_again now (find_entry (kept_of t now) k)) apart
    ∙ find-kept t ip now o h young

pub is_locked-other :
    (t : Failures) (k ip : Text) (now : ℕ)
    → text_eq k ip ≡ false
    → find_entry (is_locked t k now).0 ip ≡ find_entry t ip
unfolding is_locked
is_locked-other t k ip now apart = elim (Option-cases (find_entry t k)) [
  | inl absent ↦ rw (absent, is_locked) refl
  | inr (e, there) ↦ elim (Bool-cases (ltb now e.locked_until)) [
    | inl locked ↦ rw (there, is_locked) (rw (locked, is_locked) refl)
    | inr free ↦ elim (Bool-cases (ltb minute (now - e.first_fail))) [
      | inl over ↦ rw (there, is_locked) (rw (free, over) (find-remove_other t k ip apart))
      | inr within ↦ rw (there, is_locked) (rw (free, within) refl)
    ]
  ]
]

pub check_token-other :
    (jwt : ℕ → Text → Text → Option Claims) (secrets : List Text) (t : Failures) (k ip : Text)
    (r : AdminRequest) (now : ℕ) (o : Option FailEntry)
    → text_eq k ip ≡ false
    → find_entry t ip ≡ o
    → Survives now o
    → find_entry (check_token jwt secrets t k r now).0 ip ≡ o
unfolding check_token
check_token-other jwt secrets t k ip r now o apart h young =
    let token = extract_admin_token_header r.request in
    elim (Bool-cases (is_empty token)) [
      | inl nothing ↦ rw (nothing, check_token) h
      | inr there ↦ elim (Bool-cases (matches_any jwt now token secrets)) [
        | inl matched ↦ rw (there, matched, check_token) (find-remove_other t k ip apart ∙ h)
        | inr wrong ↦
            rw (there, wrong, check_token) (record_failure-other t k ip now o apart h young)
      ]
    ]
