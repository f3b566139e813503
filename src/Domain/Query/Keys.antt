-- ===== src/Domain/Query/Keys.antt =====
-- Which queries share a key (internal/domain/catalog.go).
use mathlib.Core.List.{append_assoc}
use lyrics_plus.Common.Decimal.{itoa, digits_of-All}
use mathlib.Core.Path.{ap₂}
use lyrics_plus.Common.{
  ◌-◌, two64, add_i64, Bool-cases, inl, inr, ◌==◌, leb, two63, ◌||◌, ◌/◌, ℕ, ◌≡◌, ◌≢◌, List, [],
  ◌∷◌, ◌++◌, All, arith,
}
use lyrics_plus.Common.Text.{Text, codes, join}
use lyrics_plus.Domain.Query.{
  thousands, SearchQuery, duration_bucket, normal, normalize_key, content_key,
}

abbrev pub NoColon : Text → Type 0
NoColon s = All (λ c. c ≢ b':') s

split_at_colon :
    (p q r s : Text) → NoColon p → NoColon q → p ++ (b':' ∷ r) ≡ q ++ (b':' ∷ s) → (p ≡ q) × (r ≡ s)
split_at_colon [] [] r s hp hq e = ground arith
split_at_colon [] (c ∷ q) r s hp hq e = absurd (ground arith)
split_at_colon (c ∷ p) [] r s hp hq e = absurd (ground arith)
split_at_colon (c ∷ p) (d ∷ q) r s hp hq e =
    let ih = split_at_colon p q r s hp.1 hq.1 (ground arith) in (ground (arith, ih.0), ih.1)

-- The lists of parts of two keys, of one shape.
data SameShape : List Text → List Text → Type 0 where
  last : (p q : Text) → SameShape (p ∷ []) (q ∷ [])
  more :
      {p q p' q' : Text} {ps qs : List Text}
      → NoColon p
      → NoColon q
      → SameShape (p' ∷ ps) (q' ∷ qs)
      → SameShape (p ∷ p' ∷ ps) (q ∷ q' ∷ qs)

join-injective :
    {ps qs : List Text} → SameShape ps qs → join ps (codes "::") ≡ join qs (codes "::") → ps ≡ qs
unfolding join
join-injective (last p q) e = ground arith
join-injective (more {p} {q} hp hq m) e =
    let s = split_at_colon p q _ _ hp hq e in ap₂ (◌∷◌) s.0 (join-injective m (ground (arith, s.1)))

thousands-NoColon : (n : ℕ) → NoColon (thousands n)
unfolding thousands
thousands-NoColon n =
    let digits : (m : ℕ) → NoColon (itoa m) =
      λ m. digits_of-All (λ c. c ≢ b':') 20 m [] (λ d h. omega arith) tt in
    elim (Bool-cases (leb two63 n)) [
      | inl negative ↦ rw negative (omega arith, digits ((two64 - n) / 1000))
      | inr positive ↦ rw positive (digits (n / 1000))
    ]

duration_bucket-NoColon : (q : SearchQuery) → NoColon (duration_bucket q)
unfolding duration_bucket
duration_bucket-NoColon q = elim (Bool-cases (q.duration == 0 || leb two63 q.duration)) [
  | inl e ↦ rw e (omega arith)
  | inr e ↦ rw e (thousands-NoColon (add_i64 q.duration 500))
]

module _ (lower : ℕ → ℕ) where
  -- The texts of a query as its keys use them.
  pub record IsColonFree (q : SearchQuery) : Type 0 where
    pub title : NoColon (normal lower q.title)
    pub artist : NoColon (normal lower q.artist)
    pub album : NoColon (normal lower q.album)
    pub isrc : NoColon (normal lower q.isrc)
    pub platform_id : NoColon (normal lower q.platform_id)

  -- Two queries whose normal forms hold no colon share a content key only if they agree, up to
  -- case and outer space, in every text, and in the duration's bucket.
  pub content_key-injective :
      (q r : SearchQuery)
      → IsColonFree q
      → IsColonFree r
      → content_key lower q ≡ content_key lower r
      → (normal lower q.title ≡ normal lower r.title)
        × (normal lower q.artist ≡ normal lower r.artist)
        × (normal lower q.album ≡ normal lower r.album)
        × (duration_bucket q ≡ duration_bucket r)
        × (normal lower q.isrc ≡ normal lower r.isrc)
        × (normal lower q.platform_id ≡ normal lower r.platform_id)
  unfolding content_key
  content_key-injective q r a b e =
      let parts =
        join-injective
          (more a.title b.title (
            more a.artist b.artist (
              more a.album b.album (
                more (duration_bucket-NoColon q) (duration_bucket-NoColon r) (
                  more a.isrc b.isrc
                    (last (normal lower q.platform_id) (normal lower r.platform_id)))))))
          e in
      ground (arith, parts)

  -- The normal form of a text with a separator inside.
  abbrev glued : Text → Text → Text
  glued a b = a ++ (codes "::" ++ b)

  -- A separator inside a text moves the border between title and artist: two queries whose title
  -- and artist differ share both keys, whatever stands in their other fields.
  pub normalize_key-collision :
      (q : SearchQuery) (t u t' u' a b c : Text)
      → normal lower t ≡ glued a b
      → normal lower u ≡ c
      → normal lower t' ≡ a
      → normal lower u' ≡ glued b c
      → (normalize_key lower (record q { title = t; artist = u })
          ≡ normalize_key lower (record q { title = t'; artist = u' }))
        × (content_key lower (record q { title = t; artist = u })
            ≡ content_key lower (record q { title = t'; artist = u' }))
  unfolding normalize_key content_key join duration_bucket
  normalize_key-collision q t u t' u' a b c e f g h =
      (rw (e, f, g, h) (simp append_assoc), rw (e, f, g, h) (simp append_assoc))
