-- ===== src/Storage/Merger/Workers.antt =====
-- internal/storage/merger.go: the candidates that are shared out to goroutines are each evaluated
-- as one goroutine would evaluate them, in whatever order the goroutines come to run.
use native.Mathlib.Nat.{lt-div-mul-add, div-lt_iff_lt-mul, div-mul-le_self, mul_comm, zero-mul}
use lyrics_plus.Common.{
  ℕ, zero, suc, ◌+◌, ◌-◌, ◌*◌, ◌/◌, ◌≤◌, ◌<◌, ◌≡◌, refl, sym, ◌∙◌, Bool, true, false, ◌&&◌, ◌||◌,
  inl, inr, List, [], ◌∷◌, map, Bool-cases, ltb, leb, ◌==◌, length, min, if◌then◌else◌, arith,
}
use lyrics_plus.Storage.Codec.{Codecs}
use lyrics_plus.Storage.Quality.{JsonLyrics}
use lyrics_plus.Common.Text.{Text}
use mathlib.Core.Option.{Option}
use lyrics_plus.Storage.Merger.{
  ConflictCandidate, decide, newer_or_same, evaluate_single_candidate, evaluate_slice, run_worker,
  run_workers, worker_count, evaluate_quality_conflicts_parallel,
}

-- A place is one of the worker's slice.
abbrev in_slice : ℕ → ℕ → ℕ → ℕ → Bool
in_slice n chunk w j = leb (w * chunk) j && ltb j (min (w * chunk + chunk) n)

abbrev covered : ℕ → ℕ → List ℕ → ℕ → Bool
covered n chunk [] j = false
covered n chunk (w ∷ order) j = in_slice n chunk w j || covered n chunk order j

abbrev pub has : List ℕ → ℕ → Bool
has [] w = false
has (v ∷ order) w = v == w || has order w

module _ (codecs : Codecs) (unmarshal : Text → Option JsonLyrics) where
  abbrev single : ConflictCandidate → ConflictCandidate
  single c = evaluate_single_candidate codecs unmarshal c

  evaluate_where : (ℕ → Bool) → ℕ → List ConflictCandidate → List ConflictCandidate
  evaluate_where test i [] = []
  evaluate_where test i (c ∷ cs) = (if test i then single c else c) ∷ evaluate_where test (suc i) cs

  single_twice : (c : ConflictCandidate) → single (single c) ≡ single c
  unfolding evaluate_single_candidate decide newer_or_same
  single_twice c = refl

  twice_or :
      (a b : Bool) (c : ConflictCandidate)
      → (let once : ConflictCandidate = if a then single c else c in
          (if b then single once else once) ≡ (if a || b then single c else c))
  twice_or true true c = single_twice c
  twice_or true false c = refl
  twice_or false true c = refl
  twice_or false false c = refl

  evaluate_where-or :
      (t u : ℕ → Bool) (i : ℕ) (cs : List ConflictCandidate)
      → evaluate_where u i (evaluate_where t i cs) ≡ evaluate_where (λ j. t j || u j) i cs
  unfolding evaluate_where
  evaluate_where-or t u i [] = refl
  evaluate_where-or t u i (c ∷ cs) =
      rw (twice_or (t i) (u i) c, evaluate_where-or t u (suc i) cs) refl

  evaluate_slice-where :
      (start end i : ℕ) (cs : List ConflictCandidate)
      → evaluate_slice codecs unmarshal start end i cs
        ≡ evaluate_where (λ j. leb start j && ltb j end) i cs
  unfolding evaluate_slice evaluate_where
  evaluate_slice-where start end i [] = refl
  evaluate_slice-where start end i (c ∷ cs) = elim (Bool-cases (leb start i && ltb i end)) [
    | inl e ↦ rw (e, evaluate_slice-where start end (suc i) cs) refl
    | inr e ↦ rw (e, evaluate_slice-where start end (suc i) cs) refl
  ]

  evaluate_where_none :
      (test : ℕ → Bool) (i : ℕ) (cs : List ConflictCandidate)
      → ((j : ℕ) → test j ≡ false)
      → evaluate_where test i cs ≡ cs
  unfolding evaluate_where
  evaluate_where_none test i [] h = refl
  evaluate_where_none test i (c ∷ cs) h = rw (h i, evaluate_where_none test (suc i) cs h) refl

  run_worker-where :
      (n chunk w : ℕ) (cs : List ConflictCandidate)
      → run_worker codecs unmarshal n chunk w cs ≡ evaluate_where (in_slice n chunk w) 0 cs
  unfolding run_worker
  run_worker-where n chunk w cs = elim (Bool-cases (leb n (w * chunk))) [
    | inl e ↦ rw e (sym (evaluate_where_none (in_slice n chunk w) 0 cs (λ j. ground arith)))
    | inr e ↦ rw e (evaluate_slice-where (w * chunk) (min (w * chunk + chunk) n) 0 cs)
  ]

  run_workers-where :
      (n chunk : ℕ) (order : List ℕ) (cs : List ConflictCandidate)
      → run_workers codecs unmarshal n chunk order cs ≡ evaluate_where (covered n chunk order) 0 cs
  unfolding run_workers
  run_workers-where n chunk [] cs = sym (evaluate_where_none (covered n chunk []) 0 cs (λ j. refl))
  run_workers-where n chunk (w ∷ order) cs = rw (run_worker-where n chunk w cs) (
      run_workers-where n chunk order (evaluate_where (in_slice n chunk w) 0 cs)
      ∙ evaluate_where-or (in_slice n chunk w) (covered n chunk order) 0 cs)

  evaluate_where_all :
      (test : ℕ → Bool) (i : ℕ) (cs : List ConflictCandidate)
      → ((j : ℕ) → j < i + length cs → test j ≡ true)
      → evaluate_where test i cs ≡ map single cs
  unfolding evaluate_where
  evaluate_where_all test i [] h = refl
  evaluate_where_all test i (c ∷ cs) h =
      rw (h i (omega arith), evaluate_where_all test (suc i) cs (λ j k. h j (omega arith))) refl

has-covered :
    (n chunk : ℕ) (order : List ℕ) (w j : ℕ)
    → has order w ≡ true
    → in_slice n chunk w j ≡ true
    → covered n chunk order j ≡ true
has-covered n chunk [] w j h e = absurd (ground arith)
has-covered n chunk (v ∷ order) w j h e = elim (Bool-cases (v == w)) [
  | inl same ↦ let at : v ≡ w = ground arith in rw (at, e) refl
  | inr other ↦ ground (arith, has-covered n chunk order w j)
]

pos_factor : (q w n : ℕ) → 0 < n → n ≤ q * w → 0 < q
pos_factor zero w n hn h = let none_left : zero * w ≡ 0 = zero-mul w in absurd (omega arith)
pos_factor (suc q) w n hn h = omega arith

-- Rounding up, the slices reach the end.
slices_reach : (n w : ℕ) → 0 < n → 0 < w → (n ≤ w * ((n + w - 1) / w)) × (0 < (n + w - 1) / w)
slices_reach n w hn hw =
    let q = (n + w - 1) / w in
    let up : n + w - 1 < q * w + w = lt-div-mul-add hw in
    let reach : n ≤ q * w = omega arith in (rw (mul_comm w q) reach, pos_factor q w n hn reach)

-- Each place below the end is one of a worker's slice.
place-in_slice :
    (n w chunk j : ℕ)
    → 0 < chunk
    → n ≤ w * chunk
    → j < n
    → (v : ℕ) × (v < w) × (in_slice n chunk v j ≡ true)
place-in_slice n w chunk j hc reach below =
    let v = j / chunk in
    let from : v * chunk ≤ j = div-mul-le_self j chunk in
    let to : j < v * chunk + chunk = lt-div-mul-add hc in
    let small : v < w = (div-lt_iff_lt-mul hc).1 (omega arith) in (v, small, ground arith)

-- However the candidates are shared out, and in whatever order the goroutines run, each candidate
-- gets the decision that it gets alone, provided that every goroutine runs.
pub evaluate_quality_conflicts_parallel-map :
    (codecs : Codecs) (unmarshal : Text → Option JsonLyrics) (workers : ℕ) (order : List ℕ)
    (candidates : List ConflictCandidate)
    → ((w : ℕ) → w < worker_count workers (length candidates) → has order w ≡ true)
    → evaluate_quality_conflicts_parallel codecs unmarshal workers order candidates
      ≡ map (evaluate_single_candidate codecs unmarshal) candidates
unfolding evaluate_quality_conflicts_parallel
evaluate_quality_conflicts_parallel-map codecs unmarshal workers order [] runs = refl
evaluate_quality_conflicts_parallel-map codecs unmarshal workers order (c ∷ cs) runs =
    let n = length (c ∷ cs) in
    let given : (n == 0) ≡ false = ground arith in
    elim (Bool-cases (ltb n 64 || leb workers 1)) [
      | inl few ↦ rw (given, few) refl
      | inr many ↦
          let w = worker_count workers n in
          let chunk = (n + w - 1) / w in
          let some_worker : 0 < w = ground arith in
          let (reach, pos) = slices_reach n w (omega arith) some_worker in
          rw (given, many)
            (run_workers-where codecs unmarshal n chunk order (c ∷ cs)
              ∙ evaluate_where_all codecs unmarshal (covered n chunk order) 0 (c ∷ cs) (λ j below.
                let (v, known, inside) = place-in_slice n w chunk j pos reach (omega arith) in
                has-covered n chunk order v j (runs v known) inside))
    ]
