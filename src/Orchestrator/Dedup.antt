-- ===== src/Orchestrator/Dedup.antt =====
-- internal/orchestrator/singleflight.go: the key tracker, which counts the callers that wait for a
-- key and cancels the shared fetch when the last one leaves. A cancel function is a number of its
-- own; the tracker logs those that it calls. (The deduplication itself is
-- golang.org/x/sync/singleflight.)
pub mod Schedule
use lyrics_plus.Common.{
  ℕ, ◌+◌, ◌-◌, ◌≤◌, ◌≡◌, Bool, true, false, Option, none, some, List, [], ◌∷◌, String, leb,
  if◌then◌else◌, Dict, lookup, insert, delete, length,
}

pub record KeyTracker : Type 0 where
  pub waiters : Dict ℕ
  pub cancels : Dict ℕ
  pub called : List ℕ

unfoldable pub new_key_tracker : KeyTracker
new_key_tracker = record { waiters = []; cancels = []; called = [] }

-- A read of a missing key of `map[string]int` gives 0.
unfoldable pub count_of : Dict ℕ → String → ℕ
count_of m k = elim (lookup k m) [ none ↦ 0 | some n ↦ n ]

unfoldable pub enter : KeyTracker → String → KeyTracker
unfolding count_of
enter t key = record t { waiters = insert key (count_of t.waiters key + 1) t.waiters }

-- `n := t.waiters[key] - 1; if n <= 0`: the count is at most 1.
unfoldable pub leave : KeyTracker → String → KeyTracker
unfolding count_of
leave t key =
    if leb (count_of t.waiters key) 1
    then elim (lookup key t.cancels) [
      | none ↦ record t { waiters = delete key t.waiters }
      | some c ↦ record {
        waiters = delete key t.waiters;
        cancels = delete key t.cancels;
        called = c ∷ t.called;
      }
    ]
    else record t { waiters = insert key (count_of t.waiters key - 1) t.waiters }

unfoldable pub register_cancel : KeyTracker → String → ℕ → KeyTracker
register_cancel t key cancel = elim (lookup key t.waiters) [
  | none ↦ record t { called = cancel ∷ t.called }
  | some n ↦ record t { cancels = insert key cancel t.cancels }
]

unfoldable pub clear_cancel : KeyTracker → String → KeyTracker
clear_cancel t key = record t { cancels = delete key t.cancels }

unfoldable pub inflight : KeyTracker → ℕ
inflight t = length t.waiters
