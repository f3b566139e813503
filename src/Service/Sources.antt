-- ===== src/Service/Sources.antt =====
-- internal/service/service.go: the order of the allowed sources, and which results are remembered
-- as misses.
use lyrics_plus.Common.{
  ℕ, zero, suc, ◌+◌, ◌≤◌, ◌≡◌, ◌↔◌, ◌⊎◌, Bool, true, false, ◌||◌, some, List, [], ◌∷◌, All, arith,
}
use lyrics_plus.Common.Text.{Text, codes, text_eq}
use lyrics_plus.Service.{
  is_source, position_from, source_priority, SourceOutcome, is_unsettled, only_misses, FetchResult,
  should_cache_negative_result,
}

-- The entry is the first of the list that is the source.
abbrev pub IsFirst : Text → List Text → ℕ → Type 0
IsFirst candidate [] i = ⊥
IsFirst candidate (a ∷ allowed) zero = is_source candidate a ≡ true
IsFirst candidate (a ∷ allowed) (suc i) =
    (is_source candidate a ≡ false) × IsFirst candidate allowed i

position_from-le :
    (from : ℕ) (candidate : Text) (allowed : List Text) (p : ℕ)
    → position_from from candidate allowed ≡ some p
    → from ≤ p
unfolding position_from
position_from-le from candidate [] p h = absurd (ground arith)
position_from-le from candidate (a ∷ allowed) p h =
    ground (arith, position_from-le (suc from) candidate allowed p)

position_from-IsFirst :
    (from : ℕ) (candidate : Text) (allowed : List Text) (i p : ℕ)
    → p ≡ from + i
    → (position_from from candidate allowed ≡ some p) ↔ IsFirst candidate allowed i
unfolding position_from
position_from-IsFirst from candidate [] i p e = ground arith
position_from-IsFirst from candidate (a ∷ allowed) zero p e =
    ground (arith, position_from-le (suc from) candidate allowed p)
position_from-IsFirst from candidate (a ∷ allowed) (suc i) p e =
    ground (arith, position_from-IsFirst (suc from) candidate allowed i p (omega arith))

-- The priority of a source among those that are allowed is the place of the first that names it.
pub source_priority-IsFirst :
    (candidate a : Text) (allowed : List Text) (i : ℕ)
    → (source_priority candidate (a ∷ allowed) ≡ some i) ↔ IsFirst candidate (a ∷ allowed) i
unfolding source_priority
source_priority-IsFirst candidate a allowed i =
    position_from-IsFirst 0 candidate (a ∷ allowed) i i (omega arith)

abbrev pub AnyMiss : List SourceOutcome → Type 0
AnyMiss [] = ⊥
AnyMiss (st ∷ rest) = (text_eq st.status (codes "BAD") ≡ true) ⊎ AnyMiss rest

abbrev pub AreSettled : List SourceOutcome → Type 0
AreSettled sts = All (λ st. is_unsettled st ≡ false) sts

only_misses_iff :
    (saw : Bool) (sts : List SourceOutcome)
    → (only_misses saw sts ≡ true) ↔ (AreSettled sts × ((saw ≡ true) ⊎ AnyMiss sts))
unfolding only_misses
only_misses_iff saw [] = ground arith
only_misses_iff saw (st ∷ rest) =
    ground (arith, only_misses_iff (saw || text_eq st.status (codes "BAD")) rest)

-- A result is remembered as a miss exactly when some source had nothing and every source has
-- answered in full: none is degraded, timed out, cancelled or waiting.
pub should_cache_negative_result_iff :
    (res : FetchResult)
    → (should_cache_negative_result (some res) ≡ true)
      ↔ (AreSettled res.sources_status × AnyMiss res.sources_status)
unfolding should_cache_negative_result
should_cache_negative_result_iff res = ground (arith, only_misses_iff false res.sources_status)
