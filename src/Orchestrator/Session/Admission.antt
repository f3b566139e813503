-- ===== src/Orchestrator/Session/Admission.antt =====
-- What the limiter and the breaker see of a race session (internal/orchestrator/race.go).
use lyrics_plus.Common.{
  ℕ, ◌+◌, ◌-◌, ◌≤◌, ◌≡◌, refl, sym, subst, Bool, true, false, Option, none, some, String, eq_iff,
  lookup, Bool-cases, Option-cases, inl, inr, arith,
}
use lyrics_plus.Orchestrator.Breaker.{allow}
use lyrics_plus.Orchestrator.Limiter
use lyrics_plus.Orchestrator.Limiter.{Semaphore}
use lyrics_plus.Orchestrator.Limiter.Permits
use lyrics_plus.Orchestrator.Session
use lyrics_plus.Orchestrator.Session.{Fetch, counts_as_failure, classify}

false-true : false ≡ true → ⊥
false-true e = cc

module _ (S : Semaphore) (m n : ℕ) where
  -- The permits out of a limiter that need not be there.
  abbrev pub Books : ℕ → (String → ℕ) → Option (Limiter.Limiter S) → Type 0
  Books g src none = Unit
  Books g src (some l) = Permits.Counts S m n g src l

  -- What a call of `Acquire` or `TryAcquire` does to the books: one more permit of each kind if it
  -- is admitted, and nothing if it is refused, on whichever semaphore.
  abbrev Acquired : ℕ → (String → ℕ) → String → Option (Limiter.Limiter S) × Bool → Type 0
  Acquired g src k (o, true) = Books (g + 1) (Permits.plus_one S k src) o
  Acquired g src k (o, false) = Books g src o

  plus_minus :
      (k : String) (src : String → ℕ) (j : String)
      → src j ≡ Permits.minus_one S k (Permits.plus_one S k src) j
  unfolding Permits.minus_one Permits.plus_one
  plus_minus k src j = ground arith

  own_plus : (k : String) (src : String → ℕ) → 1 ≤ Permits.plus_one S k src k
  unfolding Permits.plus_one
  own_plus k src = rw ((eq_iff k k).1 refl) (omega arith)

  pub acquire_permits-Books :
      (g : ℕ) (src : String → ℕ) (o : Option (Limiter.Limiter S)) (k : String)
      (a b : Limiter.Attempt S)
      → Books g src o
      → Acquired g src k (Limiter.acquire_permits S a b o k)
  unfolding Limiter.acquire_permits
  acquire_permits-Books g src none k a b c = tt
  acquire_permits-Books g src (some l) k a b c =
      let t = Permits.take_source-Counts S m n g src l k c a in
      elim (Bool-cases (Limiter.take_source S a l k).1) [
        | inr lost ↦ rw lost (rw lost at t)
        | inl got ↦
            let l' = (Limiter.take_source S a l k).0 in
            let u =
              Permits.take_global-Counts S m n g (Permits.plus_one S k src) l' k b (rw got at t)
                (own_plus k src) in
            elim (Bool-cases (Limiter.take_global S b l' k).1) [
              | inl whole ↦ rw (got, whole) (rw whole at u)
              | inr half ↦
                  rw (got, half)
                    (Permits.Counts-cong S m n _ (rw half at u) refl (plus_minus k src))
            ]
      ]

  release_permits-Books :
      (g : ℕ) (src : String → ℕ) (o : Option (Limiter.Limiter S)) (k : String)
      → 1 ≤ g
      → 1 ≤ src k
      → Books g src o
      → Books (g - 1) (Permits.minus_one S k src) (Limiter.release_permits S o k)
  unfolding Limiter.release_permits
  release_permits-Books g src none k h e c = tt
  release_permits-Books g src (some l) k h e c =
      Permits.release_source-Counts S m n (g - 1) src _ k
        (Permits.release_global-Counts S m n g src l k c h) e

  -- The books of a session.
  abbrev pub Admitted : ℕ → (String → ℕ) → String → Session.Session S × Bool → Type 0
  Admitted g src k (s, true) = Books (g + 1) (Permits.plus_one S k src) s.limiter
  Admitted g src k (s, false) = Books g src s.limiter

  Acquired-yes :
      (g : ℕ) (src : String → ℕ) (k : String) (r : Option (Limiter.Limiter S) × Bool)
      → r.1 ≡ true
      → Acquired g src k r
      → Books (g + 1) (Permits.plus_one S k src) r.0
  Acquired-yes g src k (o, true) e h = h
  Acquired-yes g src k (o, false) e h = absurd (false-true e)

  Acquired-no :
      (g : ℕ) (src : String → ℕ) (k : String) (r : Option (Limiter.Limiter S) × Bool)
      → r.1 ≡ false
      → Acquired g src k r
      → Books g src r.0
  Acquired-no g src k (o, false) e h = h
  Acquired-no g src k (o, true) e h = absurd (false-true (sym e))

  limiter_allows-Admitted :
      (g : ℕ) (src : String → ℕ) (s : Session.Session S) (k : String)
      → Books g src s.limiter
      → Admitted g src k (Session.limiter_allows S s k)
  unfolding Session.limiter_allows Session.note Session.degrade
  limiter_allows-Admitted g src s k c =
      let r = Limiter.acquire_permits S Limiter.trying Limiter.trying s.limiter k in
      let t = acquire_permits-Books g src s.limiter k Limiter.trying Limiter.trying c in
      elim (Bool-cases r.1) [
        | inl e ↦ rw e (Acquired-yes g src k r e t)
        | inr e ↦ rw e (Acquired-no g src k r e t)
      ]

  breaker_allows-limiter :
      (s : Session.Session S) (k : String) (now : ℕ)
      → (Session.breaker_allows S s k now).0.limiter ≡ s.limiter
  unfolding Session.breaker_allows Session.note Session.degrade
  breaker_allows-limiter s k now = elim (Bool-cases (allow s.breaker k now).1) [
    | inl e ↦ rw e
    | inr e ↦ rw e
  ]

  -- With a limiter whose permits are booked: a source that a phase launches takes one permit of
  -- each kind, and one that it does not launch takes none, whatever the reason.
  pub admit-Admitted :
      (g : ℕ) (src : String → ℕ) (s : Session.Session S) (k : String) (now : ℕ)
      → Books g src s.limiter
      → Admitted g src k (Session.admit S s k now)
  unfolding Session.admit Session.note
  admit-Admitted g src s k now c = elim (Option-cases (lookup k s.sources)) [
    | inl e ↦ rw (e, Session.admit) c
    | inr (x, e) ↦
        rw (e, Session.admit)
          (elim (Bool-cases x.configured) [
            | inr off ↦ rw off c
            | inl on ↦
                let c' = subst (Books g src) (sym (breaker_allows-limiter s k now)) c in
                elim (Bool-cases (Session.breaker_allows S s k now).1) [
                  | inl yes' ↦
                      rw (on, yes')
                        (limiter_allows-Admitted g src (Session.breaker_allows S s k now).0 k c')
                  | inr no' ↦ rw (on, no') c'
                ]
          ])
  ]

  settle-limiter :
      (s : Session.Session S) (k : String) (f : Fetch)
      → (Session.settle S s k f).limiter ≡ Limiter.release_permits S s.limiter k
  unfolding Session.settle Session.note Session.degrade
  settle-limiter s k f = elim (Bool-cases (counts_as_failure f)) [ inl e ↦ rw e | inr e ↦ rw e ]

  -- With a limiter whose permits are booked, one of each kind to the source: however its fetch
  -- ends, the source gives both permits back.
  pub settle-Books :
      (g : ℕ) (src : String → ℕ) (s : Session.Session S) (k : String) (f : Fetch)
      → 1 ≤ g
      → 1 ≤ src k
      → Books g src s.limiter
      → Books (g - 1) (Permits.minus_one S k src) (Session.settle S s k f).limiter
  settle-Books g src s k f h e c =
      subst (Books (g - 1) (Permits.minus_one S k src)) (sym (settle-limiter s k f))
        (release_permits-Books g src s.limiter k h e c)
