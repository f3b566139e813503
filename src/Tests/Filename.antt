-- ===== src/Tests/Filename.antt =====
-- internal/storage/filename.go on concrete names.
use lyrics_plus.Common.{◌≡◌, refl, [], lt_i64}
use lyrics_plus.Common.Text.{codes, trim_space, trim_left, is_space, join}
use lyrics_plus.Domain.Query.{is_empty}
use lyrics_plus.Storage.Filename.{
  cleanup, unreserved, is_reserved, fields_from, or_null, canonical_filename,
}

cleaned : cleanup (codes "  AC/DC:  Back \"in\" Black? ") ≡ codes "ACDC Back in Black"
unfolding cleanup unreserved is_reserved fields_from is_space join
cleaned = refl

named :
    canonical_filename
      (λ ms. codes "200.00")
      (codes "The Weeknd")
      (codes "Blinding Lights")
      []
      200000
      (codes "USUM71920008")
      []
      (codes "json")
    ≡ codes "The Weeknd - Blinding Lights (200.00) <USUM71920008::null>.json"
unfolding canonical_filename cleanup unreserved is_reserved fields_from is_space join or_null
    trim_space trim_left is_empty lt_i64
named = refl
