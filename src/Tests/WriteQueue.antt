-- ===== src/Tests/WriteQueue.antt =====
-- A full queue of two jobs (internal/storage/writequeue.go).
use lyrics_plus.Common.{ℕ, ◌≡◌, refl, false, some, [], ◌∷◌, arith}
use lyrics_plus.Storage.WriteQueue.{WriteQueue, submit, submit_loop}
use lyrics_plus.Storage.WriteQueue.Newest.{newest, submit_all, submit_all-newest}

abbrev full_queue : WriteQueue ℕ
full_queue = record {
  jobs = 1 ∷ 2 ∷ [];
  capacity = 2;
  workers = 1;
  shed = 5;
  inflight = 1;
  closed = false;
}

third_kept : submit 2 false full_queue 3 ≡ some (record full_queue { jobs = 2 ∷ 3 ∷ []; shed = 6 })
unfolding submit submit_loop
third_kept = refl

submit_all-newest_example :
    submit_all false full_queue (3 ∷ 4 ∷ 5 ∷ [])
    ≡ some (record full_queue { jobs = newest 2 (1 ∷ 2 ∷ 3 ∷ 4 ∷ 5 ∷ []); shed = 8 })
submit_all-newest_example =
    submit_all-newest false full_queue (3 ∷ 4 ∷ 5 ∷ []) refl (omega arith) (omega arith)
