-- ===== src/Common/TextMaps.antt =====
-- Go's maps with keys that are texts, as association lists.
use lyrics_plus.Common.{◌≡◌, Option, none, some, List, [], ◌∷◌, if◌then◌else◌, arith}
use lyrics_plus.Common.Text.{Text, text_eq, text_eq_iff}

abbrev pub Dict {ℓ} : Type ℓ → Type ℓ
Dict V = List (Text × V)

module _ {ℓ} {V : Type ℓ} where
  -- `v, ok := m[k]`
  unfoldable pub lookup : Text → Dict V → Option V
  lookup key [] = none
  lookup key ((first, held) ∷ rest) = if text_eq first key then some held else lookup key rest

  -- `delete(m, k)`
  unfoldable pub delete : Text → Dict V → Dict V
  delete key [] = []
  delete key ((first, held) ∷ rest) =
      let kept = delete key rest in if text_eq first key then kept else (first, held) ∷ kept

  pub lookup-delete :
      (gone key : Text) (m : Dict V)
      → lookup key (delete gone m) ≡ (if text_eq gone key then none else lookup key m)
  unfolding lookup delete
  lookup-delete gone key [] = ground arith
  lookup-delete gone key ((first, held) ∷ rest) = ground (
    arith,
    lookup-delete gone key rest,
    text_eq_iff gone key,
    text_eq_iff first gone,
    text_eq_iff first key,
  )
