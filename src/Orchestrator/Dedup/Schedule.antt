-- ===== src/Orchestrator/Dedup/Schedule.antt =====
-- Every interleaving of callers and fetches over the key tracker
-- (internal/orchestrator/singleflight.go).
use lyrics_plus.Common.{
  ℕ, zero, suc, ◌+◌, ◌-◌, ◌<◌, ◌≡◌, refl, ap, true, Option, none, some, List, [], ◌∷◌, String,
  str_eq, eq_iff, leb, if◌then◌else◌, Dict, lookup, lookup-insert, lookup-delete, Bool-cases, inl,
  inr, arith, ◌==◌, ◌&&◌, ◌∙◌, sym, leb→le, le→leb,
}
use lyrics_plus.Orchestrator.Dedup.{
  KeyTracker, new_key_tracker, count_of, enter, leave, register_cancel, clear_cancel,
}

-- What `Get` does with the tracker: a caller enters and leaves once, and the fetch that
-- `singleflight` runs for a key registers its cancel function and clears it.
pub data Event : Type 0 where
  enters : String → Event
  leaves : String → Event
  registers : String → ℕ → Event
  clears : String → Event

pub record World : Type 0 where
  pub tracker : KeyTracker
  pub callers : String → ℕ

-- A caller that has not entered does not leave.
unfoldable pub step : World → Event → World
step w (enters k) = record {
  tracker = enter w.tracker k;
  callers = λ j. if str_eq k j then w.callers j + 1 else w.callers j;
}
step w (leaves k) =
    if leb 1 (w.callers k)
    then record {
      tracker = leave w.tracker k;
      callers = λ j. if str_eq k j then w.callers j - 1 else w.callers j;
    }
    else w
step w (registers k c) = record w { tracker = register_cancel w.tracker k c }
step w (clears k) = record w { tracker = clear_cancel w.tracker k }

unfoldable pub run : World → List Event → World
run w [] = w
run w (e ∷ es) = run (step w e) es

abbrev pub initial : World
initial = record { tracker = new_key_tracker; callers = λ k. 0 }

-- The entry of a key with `n` callers: none for no caller.
abbrev pub entry : ℕ → Option ℕ
entry zero = none
entry (suc n) = some (suc n)

pub record IsSound (w : World) : Type 0 where
  pub counted : (k : String) → lookup k w.tracker.waiters ≡ entry (w.callers k)
  pub no_orphan : (k : String) → w.callers k ≡ 0 → lookup k w.tracker.cancels ≡ none

entry-pos : (n : ℕ) → 0 < n → entry n ≡ some n
entry-pos zero h = absurd (omega arith)
entry-pos (suc n) h = refl

count_of-entry : (m : Dict ℕ) (k : String) (n : ℕ) → lookup k m ≡ entry n → count_of m k ≡ n
unfolding count_of
count_of-entry m k zero h = rw (h, count_of)
count_of-entry m k (suc n) h = rw (h, count_of)

none-some : {A : Type 0} {a : A} → none ≡ some a → ⊥
none-some h = cc

leaves_entry : (n : ℕ) → leb 1 n ≡ true → (if leb n 1 then none else some (n - 1)) ≡ entry (n - 1)
leaves_entry zero h = absurd (ground arith)
leaves_entry (suc zero) h = refl
leaves_entry (suc (suc n)) h = ground arith

-- The effects of the four operations on one key's entries.
module _ (t : KeyTracker) (k j : String) where
  enter-waiters :
      lookup j (enter t k).waiters
      ≡ (if str_eq k j then some (count_of t.waiters k + 1) else lookup j t.waiters)
  unfolding enter
  enter-waiters = lookup-insert k j (count_of t.waiters k + 1) t.waiters

  leave-waiters : lookup j (leave t k).waiters ≡ (
      if str_eq k j
      then (if leb (count_of t.waiters k) 1 then none else some (count_of t.waiters k - 1))
      else lookup j t.waiters)
  unfolding leave
  leave-waiters =
      ground
        (arith, lookup-insert k j (count_of t.waiters k - 1) t.waiters, lookup-delete k j t.waiters)

  leave-cancels :
      lookup j (leave t k).cancels
      ≡ (if str_eq k j && leb (count_of t.waiters k) 1 then none else lookup j t.cancels)
  unfolding leave
  leave-cancels = ground (
    arith,
    lookup-delete k j t.cancels,
    ap (λ (x : String). lookup x t.cancels) {x = k} {y = j},
    eq_iff k j,
  )

  register_cancel-cancels :
      (c : ℕ)
      → lookup j t.waiters ≡ none
      → lookup j (register_cancel t k c).cancels ≡ lookup j t.cancels
  unfolding register_cancel
  register_cancel-cancels c h = ground (
    arith,
    lookup-insert k j c t.cancels,
    ap (λ (x : String). lookup x t.waiters) {x = k} {y = j},
    eq_iff k j,
  )

  clear_cancel-cancels :
      lookup j (clear_cancel t k).cancels ≡ (if str_eq k j then none else lookup j t.cancels)
  unfolding clear_cancel
  clear_cancel-cancels = lookup-delete k j t.cancels

register_cancel-waiters :
    (t : KeyTracker) (k : String) (c : ℕ) → (register_cancel t k c).waiters ≡ t.waiters
unfolding register_cancel
register_cancel-waiters t k c = ground arith

enter-cancels : (t : KeyTracker) (k : String) → (enter t k).cancels ≡ t.cancels
unfolding enter
enter-cancels t k = refl

clear_cancel-waiters : (t : KeyTracker) (k : String) → (clear_cancel t k).waiters ≡ t.waiters
unfolding clear_cancel
clear_cancel-waiters t k = refl

module _ (w : World) (v : IsSound w) (k : String) where
  count : count_of w.tracker.waiters k ≡ w.callers k
  count = count_of-entry w.tracker.waiters k (w.callers k) (v.counted k)

  same_callers : (j : String) → str_eq k j ≡ true → w.callers k ≡ w.callers j
  same_callers j e = ap w.callers ((eq_iff k j).0 e)

  enters-IsSound : IsSound (step w (enters k))
  unfolding step
  enters-IsSound = record {
    counted = λ j. rw (enter-waiters w.tracker k j) (elim (Bool-cases (str_eq k j)) [
      | inl e ↦ rw (e, count, same_callers j e, entry-pos (w.callers j + 1) (omega arith))
      | inr e ↦ rw e (v.counted j)
    ]);
    no_orphan = λ j h. rw (enter-cancels w.tracker k) (v.no_orphan j (ground arith));
  }

  leaves-IsSound : IsSound (step w (leaves k))
  unfolding step
  leaves-IsSound = elim (Bool-cases (leb 1 (w.callers k))) [
    | inr e ↦ rw e v
    | inl p ↦ rw p (record {
      counted = λ j.
          rw (leave-waiters w.tracker k j, count)
            (elim (Bool-cases (str_eq k j)) [
              | inl e ↦ rw (e, ← same_callers j e) (leaves_entry (w.callers k) p)
              | inr e ↦ rw e (v.counted j)
            ]);
      no_orphan = λ j h.
          rw (leave-cancels w.tracker k j, count)
            (elim (Bool-cases (str_eq k j)) [
              | inl e ↦
                  let q : leb (w.callers k) 1 ≡ true = ground (arith, same_callers j e) in rw (e, q)
              | inr e ↦ rw e (v.no_orphan j (rw e at h))
            ]);
    })
  ]

  registers-IsSound : (c : ℕ) → IsSound (step w (registers k c))
  unfolding step
  registers-IsSound c = record {
    counted = λ j. rw (register_cancel-waiters w.tracker k c) (v.counted j);
    no_orphan =
        λ j h. register_cancel-cancels w.tracker k j c (v.counted j ∙ ap entry h) ∙ v.no_orphan j h;
  }

  clears-IsSound : IsSound (step w (clears k))
  unfolding step
  clears-IsSound = record {
    counted = λ j. rw (clear_cancel-waiters w.tracker k) (v.counted j);
    no_orphan = λ j h. rw (clear_cancel-cancels w.tracker k j) (ground (arith, v.no_orphan j h));
  }

module _ (w : World) (v : IsSound w) (k : String) (c : ℕ)
    (h : lookup k w.tracker.cancels ≡ some c) where
  waited_for : 0 < w.callers k
  waited_for = elim (Bool-cases (leb 1 (w.callers k))) [
    | inl p ↦ leb→le 1 _ p
    | inr p ↦ absurd (none-some (sym (v.no_orphan k (ground arith)) ∙ h))
  ]

  leave-called :
      (leave w.tracker k).called
      ≡ (if w.callers k == 1 then c ∷ w.tracker.called else w.tracker.called)
  unfolding leave
  leave-called = ground (arith, h, count w v k, waited_for)

  leave_last_at :
      ((leave w.tracker k).called
        ≡ (if w.callers k == 1 then c ∷ w.tracker.called else w.tracker.called))
      × (lookup k (leave w.tracker k).waiters ≡ entry (w.callers k - 1))
      × (lookup k (leave w.tracker k).cancels ≡ (if w.callers k == 1 then none else some c))
  leave_last_at = (
    leave-called,
    rw (leave-waiters w.tracker k k, count w v k, (eq_iff k k).1 refl)
        (leaves_entry (w.callers k) (le→leb 1 _ waited_for)),
    rw (leave-cancels w.tracker k k, count w v k, (eq_iff k k).1 refl, h)
        (ground (arith, waited_for)),
  )

step-IsSound : (w : World) (e : Event) → IsSound w → IsSound (step w e)
step-IsSound w (enters k) v = enters-IsSound w v k
step-IsSound w (leaves k) v = leaves-IsSound w v k
step-IsSound w (registers k c) v = registers-IsSound w v k c
step-IsSound w (clears k) v = clears-IsSound w v k

run_counts_callers_from : (w : World) (es : List Event) → IsSound w → IsSound (run w es)
unfolding run
run_counts_callers_from w [] v = v
run_counts_callers_from w (e ∷ es) v = run_counts_callers_from (step w e) es (step-IsSound w e v)

initial-IsSound : IsSound initial
unfolding new_key_tracker lookup
initial-IsSound = record { counted = λ k. refl; no_orphan = λ k h. refl }

-- In every interleaving the tracker counts exactly the callers inside for each key, with no entry
-- for a key without callers, and such a key has no cancel function registered: a fetch that no one
-- waits for can never stay uncancelled in the map.
pub run_counts_callers : (es : List Event) → IsSound (run initial es)
run_counts_callers es = run_counts_callers_from initial es initial-IsSound

-- After every interleaving, for a key with a cancel function: the last caller that leaves calls it
-- and removes both entries; a caller that is not the last calls none and keeps it.
pub leave_last :
    (es : List Event) (k : String) (c : ℕ)
    → lookup k (run initial es).tracker.cancels ≡ some c
    → let t = (run initial es).tracker in
      let n = (run initial es).callers k in
      ((leave t k).called ≡ (if n == 1 then c ∷ t.called else t.called))
      × (lookup k (leave t k).waiters ≡ entry (n - 1))
      × (lookup k (leave t k).cancels ≡ (if n == 1 then none else some c))
leave_last es k c h = leave_last_at (run initial es) (run_counts_callers es) k c h
