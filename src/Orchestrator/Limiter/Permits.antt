-- ===== src/Orchestrator/Limiter/Permits.antt =====
-- What each operation of the limiter (internal/orchestrator/limiter.go) does to the permits that
-- are out.
use lyrics_plus.Common.{
  ℕ, ◌+◌, ◌≤◌, ◌≡◌, refl, Bool, true, false, String, str_eq, ap, Bool-cases, inl, inr, eq_iff,
  lookup-insert, ◌-◌, ◌∙◌, if◌then◌else◌, arith,
}
use lyrics_plus.Orchestrator.Limiter
use lyrics_plus.Orchestrator.Limiter.{
  Semaphore, Phase, has_source, holding, releasing, finished, Task,
}

module _ (S : Semaphore) where
  open S use {Weighted, held, size}

  -- What an acquisition of one permit does, however it is asked for.
  record Outcome (s : Weighted) (r : Weighted × Bool) : Type 0 where
    refused : r.1 ≡ false → held r.0 ≡ held s
    added : r.1 ≡ true → held r.0 ≡ held s + 1
    fits : r.1 ≡ true → held r.0 ≤ size s
    same_size : size r.0 ≡ size s

  attempt-Outcome : (a : Limiter.Attempt S) (s : Weighted) → Outcome s (Limiter.attempt S a s)
  unfolding Limiter.attempt
  attempt-Outcome Limiter.trying s = record {
    refused = λ h. ap held (S.try_acquire_fails s 1 h);
    added = S.try_acquire-held s 1;
    fits = S.try_acquire-fits s 1;
    same_size = S.try_acquire-size s 1;
  }
  attempt-Outcome (Limiter.waiting w) s = record {
    refused = λ h. ap held (S.acquire_fails w s 1 h);
    added = S.acquire-held w s 1;
    fits = S.acquire-fits w s 1;
    same_size = S.acquire-size w s 1;
  }

  source_sem-put_source :
      (l : Limiter.Limiter S) (k j : String) (s : Weighted)
      → Limiter.source_sem S (Limiter.put_source S l k s) j
        ≡ (if str_eq k j then s else Limiter.source_sem S l j)
  unfolding Limiter.source_sem Limiter.put_source
  source_sem-put_source l k j s =
      rw (Limiter.source_sem, lookup-insert k j s l.per_source) (ground arith)

  same_source :
      (l : Limiter.Limiter S) (k j : String)
      → str_eq k j ≡ true
      → Limiter.source_sem S l k ≡ Limiter.source_sem S l j
  same_source l k j e = ap (Limiter.source_sem S l) ((eq_iff k j).0 e)

  -- A semaphore of size `m` with `n` permits out.
  abbrev pub Book : ℕ → ℕ → Weighted → Type 0
  Book m n s = (size s ≡ m) × (held s ≡ n) × (n ≤ m)

  module _ (m n : ℕ) (s : Weighted) where
    attempt_refused :
        (a : Limiter.Attempt S)
        → Book m n s
        → (Limiter.attempt S a s).1 ≡ false
        → Book m n (Limiter.attempt S a s).0
    attempt_refused a b h =
        let o : Outcome s (Limiter.attempt S a s) = attempt-Outcome a s in
        (o.same_size ∙ b.0, o.refused h ∙ b.1, b.2)

    attempt_added :
        (a : Limiter.Attempt S)
        → Book m n s
        → (Limiter.attempt S a s).1 ≡ true
        → Book m (n + 1) (Limiter.attempt S a s).0
    attempt_added a b h =
        let o : Outcome s (Limiter.attempt S a s) = attempt-Outcome a s in
        (o.same_size ∙ b.0, omega (arith, o.added h), omega (arith, o.added h, o.fits h))

    release-Book : 1 ≤ n → Book m n s → Book m (n - 1) (S.release s 1)
    release-Book h b =
        (S.release-size s 1 ∙ b.0, omega (arith, S.release-held s 1 (omega arith)), omega arith)

  source_sem-note_reject :
      (l : Limiter.Limiter S) (k j : String)
      → Limiter.source_sem S (Limiter.note_reject S l k) j ≡ Limiter.source_sem S l j
  unfolding Limiter.source_sem Limiter.note_reject
  source_sem-note_reject l k j = refl

  -- A limiter whose source `k` has the semaphore `s`, over one that is sound.
  source_case :
      (P : String → Weighted → Type 0) (l : Limiter.Limiter S) (k : String) (s : Weighted)
      → ((j : String) → str_eq k j ≡ false → P j (Limiter.source_sem S l j))
      → ((j : String) → str_eq k j ≡ true → P j s)
      → (j : String) → P j (Limiter.source_sem S (Limiter.put_source S l k s) j)
  source_case P l k s old new j =
      rw (source_sem-put_source l k j s)
        (elim (Bool-cases (str_eq k j)) [ inl e ↦ rw e (new j e) | inr e ↦ rw e (old j e) ])

  -- `g` permits of the global semaphore are out, and `src k` of each source `k`.
  pub record Counts (m n g : ℕ) (src : String → ℕ) (l : Limiter.Limiter S) : Type 0 where
    pub limit : l.per_source_limit ≡ n
    pub global_book : Book m g l.global
    pub source_book : (k : String) → Book n (src k) (Limiter.source_sem S l k)

  unfoldable pub plus_one : String → (String → ℕ) → String → ℕ
  plus_one k src j = if str_eq k j then src j + 1 else src j

  unfoldable pub minus_one : String → (String → ℕ) → String → ℕ
  minus_one k src j = if str_eq k j then src j - 1 else src j

  note_reject-Counts :
      (m n g : ℕ) (src : String → ℕ) (l : Limiter.Limiter S) (k : String)
      → Counts m n g src l
      → Counts m n g src (Limiter.note_reject S l k)
  unfolding Limiter.note_reject
  note_reject-Counts m n g src l k c = record {
    limit = c.limit;
    global_book = c.global_book;
    source_book = λ j. rw (source_sem-note_reject l k j) (c.source_book j);
  }

  module _ (m n g : ℕ) (src : String → ℕ) (l : Limiter.Limiter S) (k : String)
      (c : Counts m n g src l) where
    put_source-Counts :
        (s : Weighted) (src' : String → ℕ)
        → ((j : String) → str_eq k j ≡ false → src' j ≡ src j)
        → ((j : String) → str_eq k j ≡ true → Book n (src' j) s)
        → Counts m n g src' (Limiter.put_source S l k s)
    unfolding Limiter.put_source
    put_source-Counts s src' old new = record {
      limit = c.limit;
      global_book = c.global_book;
      source_book =
          source_case (λ j. Book n (src' j)) l k s (λ j e. rw (old j e) (c.source_book j)) new;
    }

    same_count : (j : String) → str_eq k j ≡ true → src k ≡ src j
    same_count j e = ap src ((eq_iff k j).0 e)

    -- The refused source's semaphore is put back as it was.
    refused-Counts :
        (s : Weighted) → Book n (src k) s → Counts m n g src (Limiter.put_source S l k s)
    refused-Counts s b = put_source-Counts s src (λ j e. refl) (λ j e. rw (← same_count j e) b)

    pub take_source-Counts :
        (a : Limiter.Attempt S)
        → Counts m n g
            (if (Limiter.take_source S a l k).1 then plus_one k src else src)
            (Limiter.take_source S a l k).0
    unfolding Limiter.take_source plus_one
    take_source-Counts a =
        let s = Limiter.source_sem S l k in
        elim (Bool-cases (Limiter.attempt S a s).1) [
          | inl got ↦ rw got (
              put_source-Counts (Limiter.attempt S a s).0 _ (λ j e. rw e)
                (λ j e.
                  rw (e, ← same_count j e) (attempt_added n (src k) s a (c.source_book k) got)))
          | inr lost ↦ rw lost (
              note_reject-Counts m n g src _ k (
                refused-Counts (Limiter.attempt S a s).0
                  (attempt_refused n (src k) s a (c.source_book k) lost)))
        ]

    pub release_source-Counts :
        1 ≤ src k → Counts m n g (minus_one k src) (Limiter.release_source S l k)
    unfolding Limiter.release_source minus_one
    release_source-Counts h =
        put_source-Counts (S.release (Limiter.source_sem S l k) 1) _ (λ j e. rw e)
          (λ j e. rw (e, ← same_count j e) (release-Book n (src k) _ h (c.source_book k)))

    pub release_global-Counts : 1 ≤ g → Counts m n (g - 1) src (Limiter.release_global S l)
    unfolding Limiter.release_global Limiter.source_sem
    release_global-Counts h = record {
      limit = c.limit;
      global_book = release-Book m g l.global h c.global_book;
      source_book = c.source_book;
    }

    put_global-Counts :
        (g' : ℕ) (s : Weighted) → Book m g' s → Counts m n g' src (record l { global = s })
    put_global-Counts g' s b = record {
      limit = c.limit;
      global_book = b;
      source_book = unfold Limiter.source_sem in c.source_book;
    }

  -- A call that fails on the global semaphore gives the source's permit back.
  pub take_global-Counts :
      (m n g : ℕ) (src : String → ℕ) (l : Limiter.Limiter S) (k : String) (a : Limiter.Attempt S)
      → Counts m n g src l
      → 1 ≤ src k
      → Counts m n
          (if (Limiter.take_global S a l k).1 then g + 1 else g)
          (if (Limiter.take_global S a l k).1 then src else minus_one k src)
          (Limiter.take_global S a l k).0
  unfolding Limiter.take_global
  take_global-Counts m n g src l k a c h = elim (Bool-cases (Limiter.attempt S a l.global).1) [
    | inl got ↦ rw got (
        put_global-Counts m n g src l k c (g + 1) _
          (attempt_added m g l.global a c.global_book got))
    | inr lost ↦ rw lost (
        note_reject-Counts m n g _ _ k (
          release_source-Counts m n g src _ k
            (put_global-Counts m n g src l k c g _
              (attempt_refused m g l.global a c.global_book lost))
            h))
  ]

  pub Counts-cong :
      (m n : ℕ) {g g' : ℕ} {src src' : String → ℕ} (l : Limiter.Limiter S)
      → Counts m n g src l
      → g' ≡ g
      → ((k : String) → src' k ≡ src k)
      → Counts m n g' src' l
  Counts-cong m n l c e f = record {
    limit = c.limit;
    global_book = rw e c.global_book;
    source_book = λ k. rw (f k) (c.source_book k);
  }
