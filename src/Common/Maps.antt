-- ===== src/Common/Maps.antt =====
-- Go's `map[string]V` as an association list: lookup, assignment and `delete`.
use Prim.Native.String.{String}
use mathlib.Core.Path.{◌≡◌, refl}
use mathlib.Core.Option.{Option, none, some}
use mathlib.Core.List.{List, [], ◌∷◌}
use native.Mathlib.Omega.{arith}
use text.Mathlib.Text.{◌==◌ as str_eq}
use text.Mathlib.TextEquality.{eq_iff}
use lyrics_plus.Common.Tests.{if◌then◌else◌}

abbrev pub Dict {ℓ} : Type ℓ → Type ℓ
Dict V = List (String × V)

module _ {ℓ} {V : Type ℓ} where
  -- `v, ok := m[k]`
  unfoldable pub lookup : String → Dict V → Option V
  lookup key [] = none
  lookup key ((first, held) ∷ rest) = if str_eq first key then some held else lookup key rest

  -- `delete(m, k)`
  unfoldable pub delete : String → Dict V → Dict V
  delete key [] = []
  delete key ((first, held) ∷ rest) =
      let kept = delete key rest in if str_eq first key then kept else (first, held) ∷ kept

  -- `m[k] = v`
  unfoldable pub insert : String → V → Dict V → Dict V
  insert key new [] = (key, new) ∷ []
  insert key new ((first, held) ∷ rest) =
      if str_eq first key then (key, new) ∷ rest else (first, held) ∷ insert key new rest

  pub lookup-delete :
      (gone key : String) (m : Dict V)
      → lookup key (delete gone m) ≡ (if str_eq gone key then none else lookup key m)
  unfolding lookup delete
  lookup-delete gone key [] = ground arith
  lookup-delete gone key ((first, held) ∷ rest) =
      ground
        (arith, lookup-delete gone key rest, eq_iff gone key, eq_iff first gone, eq_iff first key)

  pub lookup-insert :
      (written key : String) (new : V) (m : Dict V)
      → lookup key (insert written new m) ≡ (if str_eq written key then some new else lookup key m)
  unfolding lookup insert
  lookup-insert written key new [] = refl
  lookup-insert written key new ((first, held) ∷ rest) = ground (
    arith,
    lookup-insert written key new rest,
    eq_iff written key,
    eq_iff first written,
    eq_iff first key,
  )
