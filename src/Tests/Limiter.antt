-- ===== src/Tests/Limiter.antt =====
-- The limiter of internal/orchestrator/limiter.go over a counting semaphore.
use lyrics_plus.Common.{
  ℕ, ◌+◌, ◌-◌, ◌≤◌, ◌≡◌, refl, Bool, true, false, List, [], ◌∷◌, leb, if◌then◌else◌, lookup, insert,
  lt_i64, positive_or, arith,
}
use lyrics_plus.Orchestrator.Limiter
use lyrics_plus.Orchestrator.Limiter.{Semaphore, LimiterConfig}
use lyrics_plus.Orchestrator.Limiter.Accounts.{
  initial, global_count, source_count, weight_sum, holds_global, run_keeps_permits,
}

abbrev pub Counter : Type 0
Counter = record { size : ℕ; held : ℕ }

abbrev pub take_permits : Counter → ℕ → Counter × Bool
take_permits s n =
    if leb (s.held + n) s.size
    then (record { size = s.size; held = s.held + n }, true)
    else (s, false)

pub take_fails : (s : Counter) (n : ℕ) → (take_permits s n).1 ≡ false → (take_permits s n).0 ≡ s
take_fails s n h = ground arith

pub take_held :
    (s : Counter) (n : ℕ) → (take_permits s n).1 ≡ true → (take_permits s n).0.held ≡ s.held + n
take_held s n h = ground arith

pub take_fits :
    (s : Counter) (n : ℕ) → (take_permits s n).1 ≡ true → (take_permits s n).0.held ≤ s.size
take_fits s n h = ground arith

pub take_size : (s : Counter) (n : ℕ) → (take_permits s n).0.size ≡ s.size
take_size s n = ground arith

pub put_back : (s : Counter) (n : ℕ) → n ≤ s.held → s.held - n + n ≡ s.held
put_back s n h = omega arith

-- A wait that succeeds if the permits are there when it is asked.
abbrev pub counting : Semaphore
counting = record {
  Weighted = Counter;
  Wait = Unit;
  new_weighted = λ n. record { size = n; held = 0 };
  acquire = λ w s n. take_permits s n;
  try_acquire = take_permits;
  release = λ s n. record { size = s.size; held = s.held - n };
  held = λ s. s.held;
  size = λ s. s.size;
  held-new = λ n. refl;
  size-new = λ n. refl;
  acquire_fails = λ w s n h. take_fails s n h;
  try_acquire_fails = take_fails;
  acquire-held = λ w s n h. take_held s n h;
  acquire-fits = λ w s n h. take_fits s n h;
  acquire-size = λ w s n. take_size s n;
  try_acquire-held = take_held;
  try_acquire-fits = take_fits;
  try_acquire-size = take_size;
  release-held = put_back;
  release-size = λ s n. refl;
}

abbrev config : LimiterConfig
config = record { global = 2; per_source = 1; wait = 0; default_per_source = 0 }

-- Two sources fill the limiter; a third and a second "qq" are refused, and a release lets "deezer"
-- in.
abbrev schedule : List (Limiter.Event counting)
schedule =
    Limiter.start Limiter.trying "qq"
    ∷ Limiter.proceed Limiter.trying 0
    ∷ Limiter.start (Limiter.waiting tt) "apple"
    ∷ Limiter.proceed Limiter.trying 0
    ∷ Limiter.start Limiter.trying "qq"
    ∷ Limiter.start Limiter.trying "deezer"
    ∷ Limiter.proceed Limiter.trying 0
    ∷ Limiter.release_first 2
    ∷ Limiter.release_second 2
    ∷ Limiter.start Limiter.trying "deezer"
    ∷ Limiter.proceed Limiter.trying 0
    ∷ []

schedule_holds : global_count (Limiter.run counting (initial counting config) schedule).tasks ≡ 2
unfolding Limiter.run Limiter.step Limiter.new_limiter Limiter.take_source Limiter.take_global
    Limiter.source_sem Limiter.put_source Limiter.note_reject Limiter.rejected_of Limiter.attempt
    Limiter.release_source Limiter.release_global Limiter.proceed_task Limiter.release_task
    Limiter.finish_task lookup insert positive_or lt_i64 global_count weight_sum holds_global
schedule_holds = refl

run_keeps_permits_example :
    let w = Limiter.run counting (initial counting config) schedule in
    (w.limiter.global.held ≡ global_count w.tasks)
    × (global_count w.tasks ≤ positive_or 2 256)
    × ((Limiter.source_sem counting w.limiter "qq").held ≡ source_count w.tasks "qq")
    × (source_count w.tasks "qq" ≤ positive_or 1 64)
run_keeps_permits_example = run_keeps_permits counting config schedule "qq"
