-- ===== src/Storage/WriteQueue.antt =====
-- internal/storage/writequeue.go: a bounded queue of jobs that drops the oldest when it is full.
-- The channel is a list from the oldest to the newest; a worker's receive, the start and the end of
-- its job are calls of their own. A `Submit` here runs with no other goroutine between its rounds.
pub mod Newest
use lyrics_plus.Common.{
  ℕ, zero, suc, ◌+◌, ◌-◌, Bool, true, false, Option, none, some, List, [], ◌∷◌, ◌++◌, ltb,
  if◌then◌else◌, length, positive_or,
}

pub record WriteQueue {ℓ} (A : Type ℓ) : Type ℓ where
  pub jobs : List A
  pub capacity : ℕ
  pub workers : ℕ
  pub shed : ℕ
  pub inflight : ℕ
  pub closed : Bool

module _ {ℓ} {A : Type ℓ} where
  unfoldable pub new_write_queue : ℕ → ℕ → WriteQueue A
  new_write_queue workers capacity = record {
    jobs = [];
    capacity = positive_or capacity 1024;
    workers = positive_or workers 1;
    shed = 0;
    inflight = 0;
    closed = false;
  }

  -- The loop of `Submit`, on fuel for its rounds; `is_done` is whether the context is done.
  unfoldable pub submit_loop : ℕ → Bool → WriteQueue A → A → Option (WriteQueue A)
  submit_loop zero is_done q job = none
  submit_loop (suc rounds) is_done q job = elim (ltb (length q.jobs) q.capacity) [
    | true ↦ some (record q { jobs = q.jobs ++ (job ∷ []) })
    | false ↦ elim q.jobs [
      | [] ↦ let again = submit_loop rounds is_done q job in if is_done then some q else again
      | victim ∷ rest ↦ submit_loop rounds is_done (record q { jobs = rest; shed = q.shed + 1 }) job
    ]
  ]

  unfoldable pub submit : ℕ → Bool → WriteQueue A → A → Option (WriteQueue A)
  submit rounds is_done q job = if q.closed then some q else submit_loop rounds is_done q job

  -- A worker receives a job, and the two ends of `execute`.
  unfoldable pub receive : WriteQueue A → WriteQueue A × Option A
  receive q = elim q.jobs [ [] ↦ (q, none) | job ∷ rest ↦ (record q { jobs = rest }, some job) ]

  unfoldable pub begin_job : WriteQueue A → WriteQueue A
  begin_job q = record q { inflight = q.inflight + 1 }

  unfoldable pub end_job : WriteQueue A → WriteQueue A
  end_job q = record q { inflight = q.inflight - 1 }

  unfoldable pub close : WriteQueue A → WriteQueue A
  close q = record q { closed = true }

  unfoldable pub stats : WriteQueue A → ℕ × (ℕ × ℕ)
  stats q = (q.shed, (q.inflight, length q.jobs))
