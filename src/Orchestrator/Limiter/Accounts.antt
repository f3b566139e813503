-- ===== src/Orchestrator/Limiter/Accounts.antt =====
-- The books of the limiter (internal/orchestrator/limiter.go).
use lyrics_plus.Common.{
  ℕ, zero, suc, ◌+◌, ◌≤◌, ◌≡◌, refl, some, List, [], ◌∷◌, String, str_eq, positive_or, Option-cases,
  Bool-cases, inl, inr, eq_iff, if◌then◌else◌, lookup, get_elem?, set, arith,
}
use lyrics_plus.Orchestrator.Limiter
use lyrics_plus.Orchestrator.Limiter.Permits
use lyrics_plus.Orchestrator.Limiter.{
  LimiterConfig, default_limiter_config, Semaphore, Phase, has_source, holding, releasing, finished,
  Task,
}

unfoldable pub weight_sum : (Task → ℕ) → List Task → ℕ
weight_sum f [] = 0
weight_sum f (t ∷ ts) = f t + weight_sum f ts

weight_sum-set :
    (f : Task → ℕ) (ts : List Task) (i : ℕ) (t u : Task)
    → get_elem? ts i ≡ some t
    → weight_sum f (set ts i u) + f t ≡ weight_sum f ts + f u
unfolding weight_sum
weight_sum-set f [] i t u h = ground arith
weight_sum-set f (x ∷ ts) zero t u h = ground arith
weight_sum-set f (x ∷ ts) (suc i) t u h = omega (arith, weight_sum-set f ts i t u h)

unfoldable pub holds_global : Task → ℕ
holds_global t = elim t.phase [ holding ↦ 1 | _ ↦ 0 ]

unfoldable pub holds_source : String → Task → ℕ
holds_source k t = if str_eq t.name k then elim t.phase [ finished ↦ 0 | _ ↦ 1 ] else 0

unfoldable pub global_count : List Task → ℕ
global_count ts = weight_sum holds_global ts

unfoldable pub source_count : List Task → String → ℕ
source_count ts k = weight_sum (holds_source k) ts

-- A task of the list has at most its share of the count.
weight-le :
    (f : Task → ℕ) (ts : List Task) (i : ℕ) (t : Task)
    → get_elem? ts i ≡ some t
    → f t ≤ weight_sum f ts
unfolding weight_sum
weight-le f [] i t h = ground arith
weight-le f (x ∷ ts) zero t h = ground arith
weight-le f (x ∷ ts) (suc i) t h = omega (arith, weight-le f ts i t h)

own_share :
    (k : String) (p : Phase)
    → holds_source k (record { name = k; phase = p }) ≡ (elim p [ finished ↦ 0 | _ ↦ 1 ])
unfolding holds_source
own_share k p = rw ((eq_iff k k).1 refl)

module _ (S : Semaphore) (m n : ℕ) where
  -- The permits out of each semaphore are those that the tasks hold.
  abbrev pub IsSound : Limiter.World S → Type 0
  IsSound w = Permits.Counts S m n (global_count w.tasks) (source_count w.tasks) w.limiter

  start-IsSound :
      (w : Limiter.World S) (a : Limiter.Attempt S) (k : String)
      → IsSound w
      → IsSound (Limiter.step S w (Limiter.start a k))
  unfolding Limiter.step global_count source_count weight_sum holds_global holds_source
      Permits.plus_one
  start-IsSound w a k v =
      let c =
        Permits.take_source-Counts S m n (global_count w.tasks) (source_count w.tasks) w.limiter k v
          a in
      elim (Bool-cases (Limiter.take_source S a w.limiter k).1) [
        | inl got ↦
            rw got (Permits.Counts-cong S m n _ (rw got at c) (omega arith) (λ j. ground arith))
        | inr lost ↦ rw lost (rw lost at c)
      ]

  module _ (w : Limiter.World S) (i : ℕ) (k : String) (v : IsSound w) where
    global_moves :
        (t u : Task)
        → get_elem? w.tasks i ≡ some t
        → weight_sum holds_global (set w.tasks i u) + holds_global t
          ≡ weight_sum holds_global w.tasks + holds_global u
    global_moves = weight_sum-set holds_global w.tasks i

    source_moves :
        (j : String) (t u : Task)
        → get_elem? w.tasks i ≡ some t
        → weight_sum (holds_source j) (set w.tasks i u) + holds_source j t
          ≡ weight_sum (holds_source j) w.tasks + holds_source j u
    source_moves j = weight_sum-set (holds_source j) w.tasks i

    own_permit :
        (p : Phase)
        → get_elem? w.tasks i ≡ some (record { name = k; phase = p })
        → holds_source k (record { name = k; phase = p }) ≡ 1
        → 1 ≤ source_count w.tasks k
    unfolding source_count
    own_permit p h e =
        omega (arith, weight-le (holds_source k) w.tasks i (record { name = k; phase = p }) h)

    proceed_task-IsSound :
        (a : Limiter.Attempt S) (p : Phase)
        → get_elem? w.tasks i ≡ some (record { name = k; phase = p })
        → IsSound (Limiter.proceed_task S a w i (record { name = k; phase = p }))
    unfolding Limiter.proceed_task global_count source_count holds_global holds_source
        Permits.minus_one
    proceed_task-IsSound a holding h = v
    proceed_task-IsSound a releasing h = v
    proceed_task-IsSound a finished h = v
    proceed_task-IsSound a has_source h =
        let t : Task = record { name = k; phase = has_source } in
        let c =
          Permits.take_global-Counts S m n (global_count w.tasks) (source_count w.tasks) w.limiter k
            a v (own_permit has_source h (own_share k has_source)) in
        elim (Bool-cases (Limiter.take_global S a w.limiter k).1) [
          | inl got ↦ rw got (
              Permits.Counts-cong S m n _ (rw got at c)
                (ground (arith, global_moves t (record { name = k; phase = holding }) h))
                (λ j. ground (arith, source_moves j t (record { name = k; phase = holding }) h)))
          | inr lost ↦ rw lost (
              Permits.Counts-cong S m n _ (rw lost at c)
                (ground (arith, global_moves t (record { name = k; phase = finished }) h))
                (λ j. ground (arith, source_moves j t (record { name = k; phase = finished }) h)))
        ]

    release_task-IsSound :
        (p : Phase)
        → get_elem? w.tasks i ≡ some (record { name = k; phase = p })
        → IsSound (Limiter.release_task S w i (record { name = k; phase = p }))
    unfolding Limiter.release_task global_count source_count holds_global holds_source
    release_task-IsSound has_source h = v
    release_task-IsSound releasing h = v
    release_task-IsSound finished h = v
    release_task-IsSound holding h =
        let t : Task = record { name = k; phase = holding } in
        let u : Task = record { name = k; phase = releasing } in
        Permits.Counts-cong S m n _
          (Permits.release_global-Counts S m n _ _ w.limiter k v
            (weight-le holds_global w.tasks i t h))
          (ground (arith, global_moves t u h)) (λ j. ground (arith, source_moves j t u h))

    finish_task-IsSound :
        (p : Phase)
        → get_elem? w.tasks i ≡ some (record { name = k; phase = p })
        → IsSound (Limiter.finish_task S w i (record { name = k; phase = p }))
    unfolding Limiter.finish_task global_count source_count holds_global holds_source
        Permits.minus_one
    finish_task-IsSound has_source h = v
    finish_task-IsSound holding h = v
    finish_task-IsSound finished h = v
    finish_task-IsSound releasing h =
        let t : Task = record { name = k; phase = releasing } in
        let u : Task = record { name = k; phase = finished } in
        Permits.Counts-cong S m n _
          (Permits.release_source-Counts S m n _ _ w.limiter k v
            (own_permit releasing h (own_share k releasing)))
          (ground (arith, global_moves t u h)) (λ j. ground (arith, source_moves j t u h))

  step-IsSound :
      (w : Limiter.World S) (e : Limiter.Event S) → IsSound w → IsSound (Limiter.step S w e)
  unfolding Limiter.step
  step-IsSound w (Limiter.start a k) v = start-IsSound w a k v
  step-IsSound w (Limiter.proceed a i) v = elim (Option-cases (get_elem? w.tasks i)) [
    | inl e ↦ rw (e, Limiter.step) v
    | inr (t, e) ↦ rw (e, Limiter.step) (proceed_task-IsSound w i t.name v a t.phase e)
  ]
  step-IsSound w (Limiter.release_first i) v = elim (Option-cases (get_elem? w.tasks i)) [
    | inl e ↦ rw (e, Limiter.step) v
    | inr (t, e) ↦ rw (e, Limiter.step) (release_task-IsSound w i t.name v t.phase e)
  ]
  step-IsSound w (Limiter.release_second i) v = elim (Option-cases (get_elem? w.tasks i)) [
    | inl e ↦ rw (e, Limiter.step) v
    | inr (t, e) ↦ rw (e, Limiter.step) (finish_task-IsSound w i t.name v t.phase e)
  ]

  run_keeps_permits_from :
      (w : Limiter.World S) (es : List (Limiter.Event S)) → IsSound w → IsSound (Limiter.run S w es)
  unfolding Limiter.run
  run_keeps_permits_from w [] v = v
  run_keeps_permits_from w (e ∷ es) v =
      run_keeps_permits_from (Limiter.step S w e) es (step-IsSound w e v)

abbrev pub initial : (S : Semaphore) → LimiterConfig → Limiter.World S
initial S cfg = record { limiter = Limiter.new_limiter S cfg; tasks = [] }

module _ (S : Semaphore) (cfg : LimiterConfig) where
  pub new_limiter-Counts :
      Permits.Counts S
        (positive_or cfg.global 256)
        (positive_or cfg.per_source 64)
        0
        (λ k. 0)
        (Limiter.new_limiter S cfg)
  unfolding Limiter.new_limiter Limiter.source_sem lookup default_limiter_config
  new_limiter-Counts = record {
    limit = refl;
    global_book = (S.size-new _, S.held-new _, omega arith);
    source_book = λ k. (S.size-new _, S.held-new _, omega arith);
  }

  initial-IsSound :
      IsSound S (positive_or cfg.global 256) (positive_or cfg.per_source 64) (initial S cfg)
  unfolding global_count source_count weight_sum
  initial-IsSound = new_limiter-Counts

  -- Whatever the schedule of calls, waits and releases: the permits out of the global semaphore
  -- are the tasks that hold it, those out of a source's are the tasks that hold that source's, and
  -- neither number passes its limit. So no path leaks a permit, failures included.
  pub run_keeps_permits :
      (es : List (Limiter.Event S)) (k : String)
      → let w = Limiter.run S (initial S cfg) es in
        (S.held w.limiter.global ≡ global_count w.tasks)
        × (global_count w.tasks ≤ positive_or cfg.global 256)
        × (S.held (Limiter.source_sem S w.limiter k) ≡ source_count w.tasks k)
        × (source_count w.tasks k ≤ positive_or cfg.per_source 64)
  run_keeps_permits es k =
      let c = run_keeps_permits_from S _ _ (initial S cfg) es initial-IsSound in
      (c.global_book.1, c.global_book.2, (c.source_book k).1, (c.source_book k).2)
