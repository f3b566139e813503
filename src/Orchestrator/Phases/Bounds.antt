-- ===== src/Orchestrator/Phases/Bounds.antt =====
-- What a race returns (internal/orchestrator/race.go), whatever the order of the events.
use lyrics_plus.Common.{
  ℕ, zero, suc, ◌≤◌, ◌<◌, ◌≡◌, refl, subst, ◌||◌, Bool, Option, none, some, List, [], ◌∷◌, String,
  leb, ◌==◌, Bool-cases, Option-cases, inl, inr, ◌⊎◌, length, take, drop, leb→le, arith,
}
use lyrics_plus.Domain.Query.{is_empty}
use lyrics_plus.Orchestrator.Limiter.{Semaphore}
use lyrics_plus.Orchestrator.Race.{Result}
use lyrics_plus.Orchestrator.Session
use lyrics_plus.Orchestrator.Session.{Fetch, fetch_result}
use lyrics_plus.Orchestrator.Phases
use lyrics_plus.Orchestrator.Phases.{better_of, priority_of, word_sources}

better_of-le :
    (p q : Option Result)
    → (priority_of p ≤ priority_of (better_of p q)) × (priority_of q ≤ priority_of (better_of p q))
unfolding better_of
better_of-le none none = omega arith
better_of-le (some r) none = omega arith
better_of-le none (some r) = omega arith
better_of-le (some r) (some t) = ground arith

module _ (S : Semaphore) where
  finalize-priority :
      (p : Option Result) (s : Session.Session S)
      → (Phases.finalize S p s).0.priority ≡ priority_of p
  unfolding Phases.finalize
  finalize-priority none s = refl
  finalize-priority (some r) s = refl

  -- Among the events, those that bring a result of the running phase, or end it.
  unfoldable pub results_in : List (Phases.Event S) → ℕ
  results_in [] = 0
  results_in (Phases.fetched n f ∷ es) = suc (results_in es)
  results_in (Phases.late n f ∷ es) = results_in es
  results_in (Phases.caller_done ∷ es) = suc (results_in es)

  collect_ends :
      (names : List String) (n : ℕ) (results : List (Option Result)) (s : Session.Session S)
      (es : List (Phases.Event S))
      → n ≤ results_in es
      → (e : Phases.PhaseEnd S) × (Phases.collect S names n results s es ≡ some e)
  unfolding Phases.collect results_in
  collect_ends names zero results s es h = (_, refl)
  collect_ends names (suc n) results s [] h = absurd (omega arith)
  collect_ends names (suc n) results s (Phases.caller_done ∷ es) h = (_, refl)
  collect_ends names (suc n) results s (Phases.late k f ∷ es) h =
      collect_ends names (suc n) results (Session.settle S s k f) es h
  collect_ends names (suc n) results s (Phases.fetched k f ∷ es) h =
      elim (Bool-cases (leb 3 (fetch_result k f).priority)) [
        | inl e ↦ rw (e, Phases.collect) (_, refl)
        | inr e ↦ rw (e, Phases.collect) (collect_ends names n _ _ es (omega arith))
      ]

  await_phase_ends :
      (names launched : List String) (s : Session.Session S) (es : List (Phases.Event S))
      → length launched ≤ results_in es
      → (e : Phases.PhaseEnd S) × (Phases.await_phase S names launched s es ≡ some e)
  unfolding Phases.await_phase
  await_phase_ends names [] s es h = (_, refl)
  await_phase_ends names (n ∷ ns) s es h = collect_ends names (length (n ∷ ns)) _ _ es h

  await_priority_ends :
      (want n : ℕ) (s : Session.Session S) (es : List (Phases.Event S))
      → n ≤ results_in es
      → (e : Phases.PhaseEnd S) × (Phases.await_priority S want n s es ≡ some e)
  unfolding Phases.await_priority results_in
  await_priority_ends want zero s es h = (_, refl)
  await_priority_ends want (suc n) s [] h = absurd (omega arith)
  await_priority_ends want (suc n) s (Phases.caller_done ∷ es) h = (_, refl)
  await_priority_ends want (suc n) s (Phases.late k f ∷ es) h =
      await_priority_ends want (suc n) (Session.settle S s k f) es h
  await_priority_ends want (suc n) s (Phases.fetched k f ∷ es) h =
      elim (Bool-cases (leb want (fetch_result k f).priority)) [
        | inl e ↦ rw (e, Phases.await_priority) (_, refl)
        | inr e ↦ rw (e, Phases.await_priority) (await_priority_ends want n _ es (omega arith))
      ]

  await_word_ends :
      (launched : List String) (want : ℕ) (s : Session.Session S) (es : List (Phases.Event S))
      → length launched ≤ results_in es
      → (e : Phases.PhaseEnd S) × (Phases.await_word S launched want s es ≡ some e)
  unfolding Phases.await_word
  await_word_ends [] want s es h = (_, refl)
  await_word_ends (n ∷ ns) want s es h = await_priority_ends want (length (n ∷ ns)) _ es h

  -- Neither kind of phase waits forever: it returns at the latest when as many results have come
  -- as it has launched fetches, the leaving of the caller counted as one.
  pub phases_end :
      (s : Session.Session S) (names : List (String × ℕ)) (want : ℕ) (es : List (Phases.Event S))
      → length (Session.launch S s names).1 ≤ results_in es
      → ((e : Phases.PhaseEnd S) × (Phases.run_phase S s names es ≡ some e))
        × ((e : Phases.PhaseEnd S) × (Phases.race_for_priority S s names want es ≡ some e))
  unfolding Phases.run_phase Phases.race_for_priority
  phases_end s names want es h = (
    await_phase_ends _ (Session.launch S s names).1 _ es h,
    await_word_ends (Session.launch S s names).1 want _ es h,
  )

  -- A phase that races for a priority has no outcome below it.
  abbrev AtLeast : ℕ → Option Result → Type 0
  AtLeast want none = Unit
  AtLeast want (some r) = want ≤ r.priority

  abbrev EndsAtLeast : ℕ → Option (Phases.PhaseEnd S) → Type 0
  EndsAtLeast want none = Unit
  EndsAtLeast want (some e) = AtLeast want e.outcome

  await_priority-EndsAtLeast :
      (want n : ℕ) (s : Session.Session S) (es : List (Phases.Event S))
      → EndsAtLeast want (Phases.await_priority S want n s es)
  unfolding Phases.await_priority
  await_priority-EndsAtLeast want zero s es = tt
  await_priority-EndsAtLeast want (suc n) s [] = tt
  await_priority-EndsAtLeast want (suc n) s (Phases.caller_done ∷ es) = tt
  await_priority-EndsAtLeast want (suc n) s (Phases.late k f ∷ es) =
      await_priority-EndsAtLeast want (suc n) (Session.settle S s k f) es
  await_priority-EndsAtLeast want (suc n) s (Phases.fetched k f ∷ es) =
      elim (Bool-cases (leb want (fetch_result k f).priority)) [
        | inl e ↦ rw (e, Phases.await_priority) (leb→le _ _ e)
        | inr e ↦ rw (e, Phases.await_priority) (await_priority-EndsAtLeast want n _ es)
      ]

  await_word-EndsAtLeast :
      (launched : List String) (want : ℕ) (s : Session.Session S) (es : List (Phases.Event S))
      → EndsAtLeast want (Phases.await_word S launched want s es)
  unfolding Phases.await_word
  await_word-EndsAtLeast [] want s es = tt
  await_word-EndsAtLeast (n ∷ ns) want s es = await_priority-EndsAtLeast want (length (n ∷ ns)) _ es

  race_for_priority-EndsAtLeast :
      (s : Session.Session S) (names : List (String × ℕ)) (want : ℕ) (es : List (Phases.Event S))
      → EndsAtLeast want (Phases.race_for_priority S s names want es)
  unfolding Phases.race_for_priority
  race_for_priority-EndsAtLeast s names want es =
      await_word-EndsAtLeast (Session.launch S s names).1 want _ es

  -- A race that returns, returns a result of at least this priority.
  abbrev Reaches : ℕ → Option (Result × Session.Session S) → Type 0
  Reaches p none = Unit
  Reaches p (some r) = p ≤ r.0.priority

  finalize-Reaches :
      (n : ℕ) (p : Option Result) (s : Session.Session S)
      → n ≤ priority_of p
      → Reaches n (some (Phases.finalize S p s))
  finalize-Reaches n p s h = omega (arith, finalize-priority p s)

  choose_word :
      (p1 p3 : Option Result)
      → priority_of p1 ≤ 3
      → AtLeast 3 p3
      → priority_of p1 ≤ priority_of (elim p3 [ none ↦ p1 | some r ↦ some r ])
  choose_word p1 none h k = omega arith
  choose_word p1 (some r) h k = omega arith

  word_phase-Reaches :
      (p1 : Option Result) (s : Session.Session S) (names : List (String × ℕ))
      (es : List (Phases.Event S))
      → priority_of p1 ≤ 3
      → Reaches (priority_of p1) (Phases.word_phase S p1 s names es)
  unfolding Phases.word_phase
  word_phase-Reaches p1 s [] es h = finalize-Reaches (priority_of p1) p1 s (omega arith)
  word_phase-Reaches p1 s (n ∷ ns) es h =
      elim (Option-cases (Phases.race_for_priority S s (n ∷ ns) 3 es)) [
        | inl e ↦ rw (e, Phases.word_phase) tt
        | inr (e3, e) ↦
            rw (e, Phases.word_phase)
              (finalize-Reaches (priority_of p1) _ e3.session (
                choose_word p1 e3.outcome h
                  (rw e at (race_for_priority-EndsAtLeast s (n ∷ ns) 3 es))))
      ]

  second_phase-Reaches :
      (p1 : Option Result) (s : Session.Session S) (names : List (String × ℕ))
      (es : List (Phases.Event S))
      → Reaches (priority_of p1) (Phases.second_phase S p1 s names es)
  unfolding Phases.second_phase
  second_phase-Reaches p1 s names es = elim (Option-cases (Phases.run_phase S s names es)) [
    | inl e ↦ rw (e, Phases.second_phase) tt
    | inr (e2, e) ↦
        rw (e, Phases.second_phase)
          (finalize-Reaches (priority_of p1) _ e2.session (better_of-le p1 e2.outcome).0)
  ]

  after_first-Reaches :
      (is_done : Bool) (e1 : Phases.PhaseEnd S) (remaining : List (String × ℕ))
      → Reaches (priority_of e1.outcome) (Phases.after_first S is_done e1 remaining)
  unfolding Phases.after_first
  after_first-Reaches is_done e1 remaining =
      let p = priority_of e1.outcome in
      let kept = finalize-Reaches p e1.outcome e1.session (omega arith) in
      elim (Bool-cases (leb 3 p)) [
        | inl a ↦ rw a kept
        | inr a ↦ elim (Bool-cases (is_empty remaining || (e1.caller_gone || is_done))) [
          | inl b ↦ rw (a, b) kept
          | inr b ↦ elim (Bool-cases (p == 2)) [
            | inl c ↦
                rw (a, b, c)
                  (word_phase-Reaches e1.outcome e1.session (word_sources remaining) e1.events
                    (ground arith))
            | inr c ↦ rw (a, b, c) (second_phase-Reaches e1.outcome e1.session remaining e1.events)
          ]
        ]
      ]

  finalize-some :
      (p : Option Result) (s : Session.Session S) (r : Result) (s' : Session.Session S)
      → 3 ≤ priority_of p
      → some (Phases.finalize S p s) ≡ some (r, s')
      → (some r ≡ p) × (s' ≡ s)
  unfolding Phases.finalize
  finalize-some none s r s' h e = absurd (omega arith)
  finalize-some (some x) s r s' h e = ground arith

  first_wins :
      (is_done : Bool) (e1 : Phases.PhaseEnd S) (remaining : List (String × ℕ)) (r : Result)
      (s : Session.Session S)
      → Phases.after_first S is_done e1 remaining ≡ some (r, s)
      → (priority_of e1.outcome < 3) ⊎ ((some r ≡ e1.outcome) × (s ≡ e1.session))
  unfolding Phases.after_first
  first_wins is_done e1 remaining r s h = elim (Bool-cases (leb 3 (priority_of e1.outcome))) [
    | inl a ↦ inr (finalize-some e1.outcome e1.session r s (leb→le _ _ a) (rw a at h))
    | inr a ↦ inl (ground arith)
  ]

  -- Whatever the events: a race that returns never returns less than its first phase found, and a
  -- first phase that found word-synced lyrics ends the race with them, with no further source
  -- asked.
  pub race_order-first_phase :
      (s : Session.Session S) (order : List (String × ℕ)) (is_done : Bool)
      (es : List (Phases.Event S)) (e1 : Phases.PhaseEnd S) (r : Result) (s' : Session.Session S)
      → Phases.run_phase S s (take 2 order) es ≡ some e1
      → Phases.race_order S s order is_done es ≡ some (r, s')
      → (priority_of e1.outcome ≤ r.priority)
        × ((priority_of e1.outcome < 3) ⊎ ((some r ≡ e1.outcome) × (s' ≡ e1.session)))
  unfolding Phases.race_order
  race_order-first_phase s order is_done es e1 r s' h k =
      let after : Phases.after_first S is_done e1 (drop 2 order) ≡ some (r, s') =
        rw (h, Phases.race_order) at k in
      (
        subst (Reaches (priority_of e1.outcome)) after
            (after_first-Reaches is_done e1 (drop 2 order)),
        first_wins is_done e1 (drop 2 order) r s' after,
      )
