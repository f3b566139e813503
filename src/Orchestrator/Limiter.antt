-- ===== src/Orchestrator/Limiter.antt =====
-- internal/orchestrator/limiter.go: concurrency limits, one semaphore for all providers and one for
-- each. The semaphore is golang.org/x/sync/semaphore, so it is a parameter with its documented
-- laws. A goroutine between two semaphore operations is a task, and a schedule is a list of events.
pub mod Permits
pub mod Accounts
use lyrics_plus.Common.{
  ℕ, ◌+◌, ◌*◌, ◌≤◌, ◌≡◌, Bool, true, false, Option, none, some, List, [], ◌∷◌, String, str_eq,
  if◌then◌else◌, Dict, lookup, insert, get_elem?, set, lt_i64, positive_or,
}

-- `semaphore.Weighted`. `acquire w` is the outcome of a blocking `Acquire` that the context and the
-- other goroutines decide; `held` is what its documentation calls the acquired weight.
pub record Semaphore : Type 1 where
  pub Weighted : Type 0
  pub Wait : Type 0
  pub new_weighted : ℕ → Weighted
  pub acquire : Wait → Weighted → ℕ → Weighted × Bool
  pub try_acquire : Weighted → ℕ → Weighted × Bool
  pub release : Weighted → ℕ → Weighted
  pub held : Weighted → ℕ
  pub size : Weighted → ℕ
  pub held-new : (n : ℕ) → held (new_weighted n) ≡ 0
  pub size-new : (n : ℕ) → size (new_weighted n) ≡ n
  -- On failure an acquisition leaves the semaphore unchanged.
  pub acquire_fails :
      (w : Wait) (s : Weighted) (n : ℕ) → (acquire w s n).1 ≡ false → (acquire w s n).0 ≡ s
  pub try_acquire_fails :
      (s : Weighted) (n : ℕ) → (try_acquire s n).1 ≡ false → (try_acquire s n).0 ≡ s
  -- On success it adds its weight, within the size.
  pub acquire-held :
      (w : Wait) (s : Weighted) (n : ℕ)
      → (acquire w s n).1 ≡ true
      → held (acquire w s n).0 ≡ held s + n
  pub acquire-fits :
      (w : Wait) (s : Weighted) (n : ℕ) → (acquire w s n).1 ≡ true → held (acquire w s n).0 ≤ size s
  pub acquire-size : (w : Wait) (s : Weighted) (n : ℕ) → size (acquire w s n).0 ≡ size s
  pub try_acquire-held :
      (s : Weighted) (n : ℕ) → (try_acquire s n).1 ≡ true → held (try_acquire s n).0 ≡ held s + n
  pub try_acquire-fits :
      (s : Weighted) (n : ℕ) → (try_acquire s n).1 ≡ true → held (try_acquire s n).0 ≤ size s
  pub try_acquire-size : (s : Weighted) (n : ℕ) → size (try_acquire s n).0 ≡ size s
  -- A release of what is held takes it off. (A release of more panics.)
  pub release-held : (s : Weighted) (n : ℕ) → n ≤ held s → held (release s n) + n ≡ held s
  pub release-size : (s : Weighted) (n : ℕ) → size (release s n) ≡ size s

pub record LimiterConfig : Type 0 where
  pub global : ℕ
  pub per_source : ℕ
  pub wait : ℕ
  pub default_per_source : ℕ

abbrev millisecond : ℕ
millisecond = 1_000_000

unfoldable pub default_limiter_config : LimiterConfig
default_limiter_config = record {
  global = 256;
  per_source = 64;
  wait = 500 * millisecond;
  default_per_source = 64;
}

-- `wait` of `Acquire`: the configured one, cut at what is left until the deadline, and at least
-- a millisecond.
unfoldable pub wait_budget : ℕ → Option ℕ → ℕ
wait_budget wait deadline =
    let cut : ℕ = elim deadline [
      | none ↦ wait
      | some rem ↦ if lt_i64 rem wait then rem else wait
    ] in
    positive_or cut millisecond

-- What a goroutine holds between two operations of the limiter.
pub data Phase : Type 0 where
  has_source : Phase
  holding : Phase
  releasing : Phase
  finished : Phase

pub record Task : Type 0 where
  pub name : String
  pub phase : Phase

module _ (S : Semaphore) where
  open S use {Weighted, Wait, new_weighted, acquire, try_acquire, release}

  pub record Limiter : Type 0 where
    pub global : Weighted
    pub per_source : Dict Weighted
    pub per_source_limit : ℕ
    pub wait : ℕ
    pub rejected : Dict ℕ

  unfoldable pub new_limiter : LimiterConfig → Limiter
  unfolding default_limiter_config
  new_limiter cfg = record {
    global = new_weighted (positive_or cfg.global default_limiter_config.global);
    per_source = [];
    per_source_limit = positive_or cfg.per_source default_limiter_config.per_source;
    wait = positive_or cfg.wait default_limiter_config.wait;
    rejected = [];
  }

  -- The semaphore of a source, a new one if there is none yet.
  unfoldable pub source_sem : Limiter → String → Weighted
  source_sem l name = elim (lookup name l.per_source) [
    | none ↦ new_weighted l.per_source_limit
    | some s ↦ s
  ]

  unfoldable pub put_source : Limiter → String → Weighted → Limiter
  put_source l name s = record l { per_source = insert name s l.per_source }

  unfoldable pub rejected_of : Limiter → String → ℕ
  rejected_of l name = elim (lookup name l.rejected) [ none ↦ 0 | some n ↦ n ]

  unfoldable pub note_reject : Limiter → String → Limiter
  note_reject l name = record l { rejected = insert name (rejected_of l name + 1) l.rejected }

  -- How a call asks: `TryAcquire`, or `Acquire` and what becomes of its wait.
  pub data Attempt : Type 0 where
    trying : Attempt
    waiting : Wait → Attempt

  unfoldable pub attempt : Attempt → Weighted → Weighted × Bool
  attempt trying s = try_acquire s 1
  attempt (waiting w) s = acquire w s 1

  -- The first half of `Acquire` and `TryAcquire`: the source's semaphore.
  unfoldable pub take_source : Attempt → Limiter → String → Limiter × Bool
  take_source a l name =
      let (s, ok) = attempt a (source_sem l name) in
      let l' = put_source l name s in if ok then (l', true) else (note_reject l' name, false)

  -- `src.Release(1)`
  unfoldable pub release_source : Limiter → String → Limiter
  release_source l name = put_source l name (release (source_sem l name) 1)

  -- `l.global.Release(1)`
  unfoldable pub release_global : Limiter → Limiter
  release_global l = record l { global = release l.global 1 }

  -- The second half: the global semaphore; a failure gives the source's permit back.
  unfoldable pub take_global : Attempt → Limiter → String → Limiter × Bool
  take_global a l name =
      let (g, ok) = attempt a l.global in
      let l' = record l { global = g } in
      if ok then (l', true) else (note_reject (release_source l' name) name, false)

  -- Events of a schedule: a call begins, a task goes on to the global semaphore, and a release
  -- closure runs its two halves. What does not fit the task's phase changes nothing, as the
  -- `sync.Once` of the closure has it for a second release.
  pub data Event : Type 0 where
    start : Attempt → String → Event
    proceed : Attempt → ℕ → Event
    release_first : ℕ → Event
    release_second : ℕ → Event

  pub record World : Type 0 where
    pub limiter : Limiter
    pub tasks : List Task

  unfoldable pub proceed_task : Attempt → World → ℕ → Task → World
  proceed_task a w i t = elim t.phase [
    | has_source ↦
        let (l, ok) = take_global a w.limiter t.name in
        record {
          limiter = l;
          tasks = set w.tasks i (record t { phase = if ok then holding else finished });
        }
    | _ ↦ w
  ]

  unfoldable pub release_task : World → ℕ → Task → World
  release_task w i t = elim t.phase [
    | holding ↦ record {
      limiter = release_global w.limiter;
      tasks = set w.tasks i (record t { phase = releasing });
    }
    | _ ↦ w
  ]

  unfoldable pub finish_task : World → ℕ → Task → World
  finish_task w i t = elim t.phase [
    | releasing ↦ record {
      limiter = release_source w.limiter t.name;
      tasks = set w.tasks i (record t { phase = finished });
    }
    | _ ↦ w
  ]

  unfoldable pub step : World → Event → World
  step w (start a name) =
      let (l, ok) = take_source a w.limiter name in
      record {
        limiter = l;
        tasks = if ok then record { name = name; phase = has_source } ∷ w.tasks else w.tasks;
      }
  step w (proceed a i) = elim (get_elem? w.tasks i) [ none ↦ w | some t ↦ proceed_task a w i t ]
  step w (release_first i) = elim (get_elem? w.tasks i) [ none ↦ w | some t ↦ release_task w i t ]
  step w (release_second i) = elim (get_elem? w.tasks i) [ none ↦ w | some t ↦ finish_task w i t ]

  unfoldable pub run : World → List Event → World
  run w [] = w
  run w (e ∷ es) = run (step w e) es

  -- `Acquire` and `TryAcquire` as a whole, by how each half asks. A nil limiter admits every call.
  unfoldable pub acquire_both : Attempt → Attempt → Limiter → String → Limiter × Bool
  acquire_both a b l name =
      let (l', ok) = take_source a l name in if ok then take_global b l' name else (l', false)

  unfoldable pub acquire_permits :
      Attempt → Attempt → Option Limiter → String → Option Limiter × Bool
  unfolding acquire_both
  acquire_permits a b none name = (none, true)
  acquire_permits a b (some l) name = let (l', ok) = acquire_both a b l name in (some l', ok)

  -- The closure that a successful call returns, at its first run.
  unfoldable pub release_permits : Option Limiter → String → Option Limiter
  release_permits none name = none
  release_permits (some l) name = some (release_source (release_global l) name)
