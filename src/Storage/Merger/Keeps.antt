-- ===== src/Storage/Merger/Keeps.antt =====
-- internal/storage/merger.go: a merge never replaces lyrics by worse ones.
use lyrics_plus.Common.{
  ℕ, ◌+◌, ◌≤◌, ◌<◌, ◌≡◌, ◌≢◌, ◌⊎◌, refl, sym, ap, ◌∙◌, subst, Bool, true, false, inl, inr, Option,
  some, List, [], ◌∷◌, map, All, Bool-cases, ◌==◌, if◌then◌else◌, length, arith,
}
use lyrics_plus.Common.Text.{Text, text_eq, text_eq_iff}
use lyrics_plus.Storage.Codec.{Codecs}
use lyrics_plus.Storage.Quality.{JsonLyrics}
use lyrics_plus.Storage.Merger.{
  Decision, upgrade, skip_same, skip_lower, LyricsRow, ConflictCandidate, MergeStats, Table,
  find_row, update_row, newer_or_same, rank_of, decide, evaluate_single_candidate, worker_count,
  apply_upgrade, apply_decision, apply_decisions, resolve_candidates,
}
use lyrics_plus.Storage.Merger.Workers.{has, evaluate_quality_conflicts_parallel-map}

find_row-update_row :
    (id key : ℕ) (new : LyricsRow) (t : Table) (row : LyricsRow)
    → find_row key t ≡ some row
    → find_row key (update_row id new t) ≡ some (if id == key then new else row)
unfolding find_row update_row
find_row-update_row id key new [] row h = absurd (ground arith)
find_row-update_row id key new ((first, r) ∷ rest) row h =
    ground (arith, find_row-update_row id key new rest row)

Decision-cases : (d : Decision) → (d ≡ upgrade) ⊎ ((d ≡ skip_same) ⊎ (d ≡ skip_lower))
Decision-cases upgrade = inl refl
Decision-cases skip_same = inr (inl refl)
Decision-cases skip_lower = inr (inr refl)

-- Each candidate was read from the row that it is about, and no two are about one row.
abbrev pub Matches : Table → ConflictCandidate → Type 0
Matches t c =
    (row : LyricsRow) × (find_row c.target_id t ≡ some row) × (row.content ≡ c.tgt_content)

abbrev pub AreDistinct : List ConflictCandidate → Type 0
AreDistinct [] = Unit
AreDistinct (c ∷ cs) = All (λ d. d.target_id ≢ c.target_id) cs × AreDistinct cs

applied :
    (fails : ℕ → Bool) (c : ConflictCandidate) (t : Table) (stats : MergeStats)
    → ((apply_decision fails c (t, stats)).0 ≡ t)
      ⊎ ((c.decision ≡ upgrade)
          × ((apply_decision fails c (t, stats)).0 ≡ update_row c.target_id c.src t))
unfolding apply_decision apply_upgrade
applied fails c t stats = elim (Decision-cases c.decision) [
  | inl e ↦ elim (Bool-cases (fails c.target_id)) [
    | inl bad ↦ inl (rw (e, apply_decision, bad, apply_upgrade) refl)
    | inr good ↦ inr (e, rw (e, apply_decision, good, apply_upgrade) refl)
  ]
  | inr (inl e) ↦ inl (rw (e, apply_decision) refl)
  | inr (inr e) ↦ inl (rw (e, apply_decision) refl)
]

module _ (codecs : Codecs) (unmarshal : Text → Option JsonLyrics) where
  -- Every row is still there, with lyrics that are as good as before or better.
  abbrev pub Keeps : Table → Table → Type 0
  Keeps t t' =
      (id : ℕ) (row : LyricsRow)
      → find_row id t ≡ some row
      → (row' : LyricsRow) × (find_row id t' ≡ some row')
        × (rank_of codecs unmarshal row.content ≤ rank_of codecs unmarshal row'.content)

  -- Only what is as good is put in place of something.
  decide-upgrade :
      (c : ConflictCandidate)
      → decide codecs unmarshal c ≡ upgrade
      → rank_of codecs unmarshal c.tgt_content ≤ rank_of codecs unmarshal c.src.content
  unfolding decide newer_or_same
  decide-upgrade c h = elim (Bool-cases (text_eq c.src.content c.tgt_content)) [
    | inl same ↦
        subst (λ x. rank_of codecs unmarshal c.tgt_content ≤ rank_of codecs unmarshal x)
          (sym ((text_eq_iff c.src.content c.tgt_content).0 same)) (omega arith)
    | inr differ ↦ ground arith
  ]

  update-Keeps :
      (c : ConflictCandidate) (t : Table)
      → Matches t c
      → rank_of codecs unmarshal c.tgt_content ≤ rank_of codecs unmarshal c.src.content
      → Keeps t (update_row c.target_id c.src t)
  update-Keeps c t m h id row found = elim (Bool-cases (c.target_id == id)) [
    | inl same ↦
        let (held, at, content) = m in
        let this : c.target_id ≡ id = ground arith in
        let there : find_row id t ≡ some held = ap (λ i. find_row i t) (sym this) ∙ at in
        let one : row ≡ held = ground arith in
        (
          c.src,
          subst
              (λ b. find_row id (update_row c.target_id c.src t) ≡ some (if b then c.src else row))
              same (find_row-update_row c.target_id id c.src t row found),
          subst (λ x. rank_of codecs unmarshal x ≤ rank_of codecs unmarshal c.src.content)
              (sym (ap (λ r. r.content) one ∙ content)) h,
        )
    | inr other ↦ (
      row,
      subst (λ b. find_row id (update_row c.target_id c.src t) ≡ some (if b then c.src else row))
          other (find_row-update_row c.target_id id c.src t row found),
      omega arith,
    )
  ]

  Keeps-refl : (t : Table) → Keeps t t
  Keeps-refl t id row found = (row, found, omega arith)

  Keeps-trans : (t u v : Table) → Keeps t u → Keeps u v → Keeps t v
  Keeps-trans t u v h k id row found =
      let (row', found', better) = h id row found in
      let (row'', found'', better') = k id row' found' in (row'', found'', omega arith)

  abbrev after : (ℕ → Bool) → ConflictCandidate → Table × MergeStats → Table
  after fails c s = (apply_decision fails (evaluate_single_candidate codecs unmarshal c) s).0

  after_cases :
      (fails : ℕ → Bool) (c : ConflictCandidate) (t : Table) (stats : MergeStats)
      → (after fails c (t, stats) ≡ t)
        ⊎ ((decide codecs unmarshal c ≡ upgrade)
            × (after fails c (t, stats) ≡ update_row c.target_id c.src t))
  unfolding evaluate_single_candidate
  after_cases fails c t stats = applied fails (evaluate_single_candidate codecs unmarshal c) t stats

  after-Keeps :
      (fails : ℕ → Bool) (c : ConflictCandidate) (t : Table) (stats : MergeStats)
      → Matches t c
      → Keeps t (after fails c (t, stats))
  after-Keeps fails c t stats m = elim (after_cases fails c t stats) [
    | inl same ↦ subst (Keeps t) (sym same) (Keeps-refl t)
    | inr (e, new) ↦ subst (Keeps t) (sym new) (update-Keeps c t m (decide-upgrade c e))
  ]

  after-Matches :
      (fails : ℕ → Bool) (c d : ConflictCandidate) (t : Table) (stats : MergeStats)
      → d.target_id ≢ c.target_id
      → Matches t d
      → Matches (after fails c (t, stats)) d
  after-Matches fails c d t stats ne (row, found, content) = elim (after_cases fails c t stats) [
    | inl same ↦ subst (λ u. Matches u d) (sym same) (row, found, content)
    | inr (e, new) ↦
        let other : (c.target_id == d.target_id) ≡ false = ground arith in
        subst (λ u. Matches u d) (sym new)
          (
            row,
            subst
                (λ b.
                  find_row d.target_id (update_row c.target_id c.src t)
                  ≡ some (if b then c.src else row))
                other (find_row-update_row c.target_id d.target_id c.src t row found),
            content,
          )
  ]

  all-Matches :
      (fails : ℕ → Bool) (c : ConflictCandidate) (cs : List ConflictCandidate) (t : Table)
      (stats : MergeStats)
      → All (λ d. d.target_id ≢ c.target_id) cs
      → All (Matches t) cs
      → All (Matches (after fails c (t, stats))) cs
  all-Matches fails c [] t stats ne m = tt
  all-Matches fails c (d ∷ ds) t stats (n, ne) (m, ms) =
      (after-Matches fails c d t stats n m, all-Matches fails c ds t stats ne ms)

  apply_decisions-Keeps :
      (fails : ℕ → Bool) (cs : List ConflictCandidate) (s : Table × MergeStats)
      → AreDistinct cs
      → All (Matches s.0) cs
      → Keeps s.0 (apply_decisions fails (map (evaluate_single_candidate codecs unmarshal) cs) s).0
  unfolding apply_decisions
  apply_decisions-Keeps fails [] s apart ms = Keeps-refl s.0
  apply_decisions-Keeps fails (c ∷ cs) s (ne, apart) (m, ms) =
      let next = apply_decision fails (evaluate_single_candidate codecs unmarshal c) s in
      Keeps-trans s.0 next.0 _ (after-Keeps fails c s.0 s.1 m)
        (apply_decisions-Keeps fails cs next apart (all-Matches fails c cs s.0 s.1 ne ms))

  -- After the candidates of a range are resolved, every row of the target is still there and its
  -- lyrics have a quality as high as before or higher, provided that every goroutine ran, that each
  -- candidate was read from its row and that no two are about one row.
  pub resolve_candidates-Keeps :
      (fails : ℕ → Bool) (workers : ℕ) (order : List ℕ) (candidates : List ConflictCandidate)
      (t : Table) (stats : MergeStats)
      → ((w : ℕ) → w < worker_count workers (length candidates) → has order w ≡ true)
      → AreDistinct candidates
      → All (Matches t) candidates
      → Keeps t (resolve_candidates codecs unmarshal fails workers order candidates (t, stats)).0
  unfolding resolve_candidates
  resolve_candidates-Keeps fails workers order candidates t stats runs apart ms =
      rw (evaluate_quality_conflicts_parallel-map codecs unmarshal workers order candidates runs)
        (apply_decisions-Keeps fails candidates (t, stats) apart ms)

abbrev pub total : MergeStats → ℕ
total s = s.upgraded + s.skipped_same + s.skipped_lower + s.errors

counted :
    (fails : Bool) (c : ConflictCandidate) (t : Table) (s : MergeStats)
    → total (apply_upgrade fails c (t, s)).1 ≡ total s + 1
unfolding apply_upgrade
counted true c t s = omega arith
counted false c t s = omega arith

one_more :
    (fails : ℕ → Bool) (c : ConflictCandidate) (t : Table) (s : MergeStats)
    → total (apply_decision fails c (t, s)).1 ≡ total s + 1
unfolding apply_decision
one_more fails c t s = elim (Decision-cases c.decision) [
  | inl e ↦ rw (e, apply_decision) (counted (fails c.target_id) c t s)
  | inr (inl e) ↦ rw (e, apply_decision) (omega arith)
  | inr (inr e) ↦ rw (e, apply_decision) (omega arith)
]

-- Each candidate is counted once.
pub apply_decisions-total :
    (fails : ℕ → Bool) (cs : List ConflictCandidate) (s : Table × MergeStats)
    → total (apply_decisions fails cs s).1 ≡ total s.1 + length cs
unfolding apply_decisions
apply_decisions-total fails [] s = omega arith
apply_decisions-total fails (c ∷ cs) s =
    omega
      (arith, apply_decisions-total fails cs (apply_decision fails c s), one_more fails c s.0 s.1)
