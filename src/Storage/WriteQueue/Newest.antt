-- ===== src/Storage/WriteQueue/Newest.antt =====
-- What internal/storage/writequeue.go keeps of the jobs that are submitted to it.
use lyrics_plus.Common.{
  ℕ, zero, suc, ◌+◌, ◌-◌, ◌≤◌, ◌<◌, ◌≡◌, refl, ◌∙◌, ap, Bool, true, false, Option, none, some, List,
  [], ◌∷◌, ◌++◌, ◌⊎◌, ltb, if◌then◌else◌, length, length-append, drop, Bool-cases, inl, inr, arith,
}
use lyrics_plus.Storage.WriteQueue.{WriteQueue, submit, submit_loop}

module _ {ℓ} {A : Type ℓ} where
  -- The newest `n` entries of a list.
  unfoldable pub newest : ℕ → List A → List A
  newest n xs = drop (length xs - n) xs

  append-nil : (xs : List A) → xs ++ [] ≡ xs
  append-nil [] = refl
  append-nil (x ∷ xs) = ap (◌∷◌ x) (append-nil xs)

  append-cons : (xs : List A) (y : A) (zs : List A) → (xs ++ (y ∷ [])) ++ zs ≡ xs ++ (y ∷ zs)
  append-cons [] y zs = refl
  append-cons (x ∷ xs) y zs = ap (◌∷◌ x) (append-cons xs y zs)

  drop-append : (k : ℕ) (xs ys : List A) → k ≤ length xs → drop k xs ++ ys ≡ drop k (xs ++ ys)
  drop-append zero xs ys h = refl
  drop-append (suc k) [] ys h = absurd (omega arith)
  drop-append (suc k) (x ∷ xs) ys h = drop-append k xs ys (omega arith)

  drop-drop : (a b : ℕ) (zs : List A) → drop a (drop b zs) ≡ drop (b + a) zs
  drop-drop a zero zs = let e : 0 + a ≡ a = omega arith in rw e refl
  drop-drop zero (suc b) [] = let e : suc b + 0 ≡ suc b = omega arith in rw e refl
  drop-drop (suc a) (suc b) [] =
      let e : suc b + suc a ≡ suc (suc (b + a)) = omega arith in rw e refl
  drop-drop a (suc b) (z ∷ zs) =
      let e : suc b + a ≡ suc (b + a) = omega arith in rw e (drop-drop a b zs)

  length-drop : (k : ℕ) (xs : List A) → length (drop k xs) ≡ length xs - k
  length-drop zero xs = omega arith
  length-drop (suc k) [] = omega arith
  length-drop (suc k) (x ∷ xs) = length-drop k xs ∙ omega arith

  length-newest : (n : ℕ) (xs : List A) → length (newest n xs) ≡ length xs - (length xs - n)
  unfolding newest
  length-newest n xs = length-drop (length xs - n) xs

  -- To keep the newest twice is to keep the newest of all.
  newest-append : (n : ℕ) (xs ys : List A) → newest n (newest n xs ++ ys) ≡ newest n (xs ++ ys)
  unfolding newest
  newest-append n xs ys =
      let k = length xs - n in
      let size = length-append xs ys in
      let cut = length-drop k (xs ++ ys) in
      let same : k + (length (drop k (xs ++ ys)) - n) ≡ length (xs ++ ys) - n =
        omega (arith, size, cut) in
      rw
        (
          drop-append k xs ys (omega arith),
          drop-drop (length (drop k (xs ++ ys)) - n) k (xs ++ ys),
          same,
        )
        refl

  -- The queue with one job more, the oldest gone if it was full.
  abbrev pub with_job : WriteQueue A → A → WriteQueue A
  with_job q job = record q {
    jobs = newest q.capacity (q.jobs ++ (job ∷ []));
    shed = q.shed + (length q.jobs + 1 - q.capacity);
  }

  newest_short : (n : ℕ) (xs : List A) → length xs ≤ n → newest n xs ≡ xs
  unfolding newest
  newest_short n xs h = let e : length xs - n ≡ 0 = omega arith in rw e refl

  newest-cons : (n : ℕ) (x : A) (xs : List A) → length xs ≡ n → newest n (x ∷ xs) ≡ xs
  unfolding newest
  newest-cons n x xs h = let e : suc (length xs) - n ≡ 1 = omega arith in rw e refl

  List-cases : (xs : List A) → (xs ≡ []) ⊎ ((x : A) × (rest : List A) × (xs ≡ x ∷ rest))
  List-cases [] = inl refl
  List-cases (x ∷ rest) = inr (x, rest, refl)

  push_room :
      (q : WriteQueue A) (job : A)
      → length q.jobs < q.capacity
      → record q { jobs = q.jobs ++ (job ∷ []) } ≡ with_job q job
  push_room q job room =
      let more = length-append q.jobs (job ∷ []) in
      let kept = newest_short q.capacity (q.jobs ++ (job ∷ [])) (omega (arith, more)) in
      let counted : q.shed + (length q.jobs + 1 - q.capacity) ≡ q.shed = omega arith in
      rw (kept, counted) refl

  push_full :
      (q : WriteQueue A) (job victim : A) (rest : List A)
      → q.jobs ≡ victim ∷ rest
      → length q.jobs ≡ q.capacity
      → record q { jobs = rest ++ (job ∷ []); shed = q.shed + 1 } ≡ with_job q job
  push_full q job victim rest e full =
      let more = length-append rest (job ∷ []) in
      let size : length (rest ++ (job ∷ [])) ≡ q.capacity = omega (arith, more, ap length e) in
      let counted : length q.jobs + 1 - q.capacity ≡ 1 = omega arith in
      rw (counted, e, newest-cons q.capacity victim (rest ++ (job ∷ [])) size) refl

  submit_opened :
      (rounds : ℕ) (is_done : Bool) (q : WriteQueue A) (job : A)
      → q.closed ≡ false
      → submit rounds is_done q job ≡ submit_loop rounds is_done q job
  unfolding submit
  submit_opened rounds is_done q job Opened =
      ap (λ b. if b then some q else submit_loop rounds is_done q job) Opened

  loop_room :
      (rounds : ℕ) (is_done : Bool) (q : WriteQueue A) (job : A)
      → ltb (length q.jobs) q.capacity ≡ true
      → submit_loop (suc rounds) is_done q job ≡ some (record q { jobs = q.jobs ++ (job ∷ []) })
  unfolding submit_loop
  loop_room rounds is_done q job room = rw (room, submit_loop) refl

  loop_full :
      (rounds : ℕ) (is_done : Bool) (q : WriteQueue A) (job victim : A) (rest : List A)
      → ltb (length q.jobs) q.capacity ≡ false
      → q.jobs ≡ victim ∷ rest
      → submit_loop (suc rounds) is_done q job
        ≡ submit_loop rounds is_done (record q { jobs = rest; shed = q.shed + 1 }) job
  unfolding submit_loop
  loop_full rounds is_done q job victim rest full e = rw (full, e, submit_loop) refl

  -- `Submit` on an open queue of positive capacity, not filled over it, comes back in two rounds,
  -- whatever the context: the job stands last, the queue holds the newest jobs up to its capacity,
  -- and the drop, if any, is counted.
  pub submit-with_job :
      (is_done : Bool) (q : WriteQueue A) (job : A)
      → q.closed ≡ false
      → 0 < q.capacity
      → length q.jobs ≤ q.capacity
      → submit 2 is_done q job ≡ some (with_job q job)
  submit-with_job is_done q job Opened pos le =
      submit_opened 2 is_done q job Opened ∙ elim (Bool-cases (ltb (length q.jobs) q.capacity)) [
        | inl room ↦ loop_room 1 is_done q job room ∙ ap some (push_room q job (ground arith))
        | inr full ↦ elim (List-cases q.jobs) [
          | inl e ↦ absurd (ground (arith, ap length e))
          | inr (victim, rest, e) ↦
              let some_room : ltb (length rest) q.capacity ≡ true = ground (arith, ap length e) in
              loop_full 1 is_done q job victim rest full e
              ∙ (loop_room 0 is_done (record q { jobs = rest; shed = q.shed + 1 }) job some_room
                  ∙ ap some (push_full q job victim rest e (ground arith)))
        ]
      ]

  -- Jobs submitted one after the other.
  unfoldable pub submit_all : Bool → WriteQueue A → List A → Option (WriteQueue A)
  submit_all is_done q [] = some q
  submit_all is_done q (job ∷ js) = elim (submit 2 is_done q job) [
    | none ↦ none
    | some q' ↦ submit_all is_done q' js
  ]

  -- Submitting a list of jobs to an open queue of positive capacity, not filled over it, while no
  -- worker receives: it comes back, holds the newest of the old and the new jobs in their order, up to its capacity, and has counted every
  -- job that it dropped.
  pub submit_all-newest :
      (is_done : Bool) (q : WriteQueue A) (js : List A)
      → q.closed ≡ false
      → 0 < q.capacity
      → length q.jobs ≤ q.capacity
      → submit_all is_done q js
        ≡ some (record q {
          jobs = newest q.capacity (q.jobs ++ js);
          shed = q.shed + (length q.jobs + length js - q.capacity);
        })
  unfolding submit_all
  submit_all-newest is_done q [] Opened pos le =
      let all : q.jobs ++ [] ≡ q.jobs = append-nil q.jobs in
      let kept = newest_short q.capacity q.jobs le in
      let counted : q.shed + (length q.jobs + 0 - q.capacity) ≡ q.shed = omega arith in
      rw (all, kept, counted) refl
  submit_all-newest is_done q (job ∷ js) Opened pos le =
      let first = submit-with_job is_done q job Opened pos le in
      let size = length-newest q.capacity (q.jobs ++ (job ∷ [])) in
      let more = length-append q.jobs (job ∷ []) in
      let rest = submit_all-newest is_done (with_job q job) js Opened pos (omega (arith, size)) in
      let joined : newest q.capacity ((q.jobs ++ (job ∷ [])) ++ js)
          ≡ newest q.capacity (q.jobs ++ (job ∷ js)) =
        ap (newest q.capacity) (append-cons q.jobs job js) in
      let counted : q.shed
            + (length q.jobs + 1 - q.capacity)
            + (length (newest q.capacity (q.jobs ++ (job ∷ []))) + length js - q.capacity)
          ≡ q.shed + (length q.jobs + suc (length js) - q.capacity) =
        omega (arith, size, more) in
      rw (first, submit_all)
        (rest ∙ rw (newest-append q.capacity (q.jobs ++ (job ∷ [])) js, joined, counted) refl)
