-- ===== src/Domain/Query.antt =====
-- internal/domain/catalog.go: the query and the keys made from it. `unicode.ToLower` of a rune is a
-- parameter, its table being data of the Go library.
pub mod Keys
use lyrics_plus.Common.{
  ℕ, ◌+◌, ◌/◌, ◌%◌, ◌<◌, zero, suc, Bool, true, false, not, ◌&&◌, ◌||◌, List, [], ◌∷◌, ◌++◌, map,
  ltb, leb, if◌then◌else◌, ◌==◌, two63, two64, ◌-◌, add_i64,
}
use lyrics_plus.Common.Decimal.{itoa}
use lyrics_plus.Common.Text.{Text, codes, trim_space, join}

pub record SearchQuery : Type 0 where
  pub title : Text
  pub artist : Text
  pub album : Text
  pub duration : ℕ
  pub isrc : Text
  pub platform_id : Text
  pub sources : List Text
  pub force_reload : Bool

unfoldable pub is_empty {ℓ} : {A : Type ℓ} → List A → Bool
is_empty [] = true
is_empty (x ∷ xs) = false

unfoldable pub id_only : SearchQuery → Bool
unfolding is_empty
id_only q =
    (not (is_empty q.isrc) || not (is_empty q.platform_id)) && is_empty q.title && is_empty q.artist

-- `strconv.Itoa(n / 1000)`, where a quotient is cut toward zero
unfoldable pub thousands : ℕ → Text
unfolding itoa
thousands n = if leb two63 n then b'-' ∷ itoa ((two64 - n) / 1000) else itoa (n / 1000)

-- Zero, or negative as an int64, is "0"; else the duration in seconds, rounded.
unfoldable pub duration_bucket : SearchQuery → Text
unfolding thousands
duration_bucket q =
    if q.duration == 0 || leb two63 q.duration
    then codes "0"
    else thousands (add_i64 q.duration 500)

module _ (lower : ℕ → ℕ) where
  unfoldable pub normal : Text → Text
  normal s = map lower (trim_space s)

  unfoldable pub normalize_key : SearchQuery → Text
  unfolding duration_bucket is_empty
  normalize_key q =
      let sources = if is_empty q.sources then codes "default" else join q.sources (codes ",") in
      join
        (normal q.title
          ∷ normal q.artist
          ∷ normal q.album
          ∷ duration_bucket q
          ∷ normal q.isrc
          ∷ normal q.platform_id
          ∷ sources
          ∷ [])
        (codes "::")

  unfoldable pub content_key : SearchQuery → Text
  unfolding duration_bucket
  content_key q =
      join
        (normal q.title
          ∷ normal q.artist
          ∷ normal q.album
          ∷ duration_bucket q
          ∷ normal q.isrc
          ∷ normal q.platform_id
          ∷ [])
        (codes "::")
