-- ===== src/Storage/Filename.antt =====
-- internal/storage/filename.go: the canonical name of a file of lyrics. The printing of the
-- duration (`%.2f` of the milliseconds over 1000, in float64) is a parameter; the duration is an
-- int64 bit pattern.
pub mod Cleanup
use lyrics_plus.Common.{
  ℕ, ◌≡◌, ◌≢◌, refl, ap, Bool, true, false, not, ◌&&◌, ◌||◌, inl, inr, List, [], ◌∷◌, ◌++◌, All,
  map, ◌==◌, Bool-cases, lt_i64, if◌then◌else◌, arith,
}
use lyrics_plus.Common.Text.{Text, codes, trim_space, is_space, join}
use lyrics_plus.Domain.Query.{is_empty}

-- The signs that `cleanup` takes out.
unfoldable pub is_reserved : ℕ → Bool
is_reserved c =
    c == b'['
    || (c == b']'
        || (c == b'<'
            || (c == b'>'
                || (c == b':'
                    || (c == 34
                        || (c == b'/' || (c == 92 || (c == b'|' || (c == b'?' || c == b'*')))))))))

unfoldable pub unreserved : Text → Text
unreserved [] = []
unreserved (c ∷ s) = let rest = unreserved s in if is_reserved c then rest else c ∷ rest

-- `strings.Fields`: the runs of signs that are no space; `word` is the one that is open.
abbrev pub close_word : Text → List Text → List Text
close_word [] words = words
close_word (c ∷ word) words = (c ∷ word) ∷ words

unfoldable pub fields_from : Text → Text → List Text
fields_from word [] = close_word word []
fields_from word (c ∷ s) =
    let ended = fields_from [] s in
    let going = fields_from (word ++ (c ∷ [])) s in
    if is_space c then close_word word ended else going

unfoldable pub cleanup : Text → Text
cleanup s = join (fields_from [] (unreserved s)) (codes " ")

unfoldable pub or_null : Text → Text
or_null s = if is_empty s then codes "null" else trim_space s

unfoldable pub canonical_filename : (ℕ → Text) → Text → Text → Text → ℕ → Text → Text → Text → Text
canonical_filename seconds artist title album duration_ms isrc platform_id ext =
    cleanup artist
    ++ (codes " - "
        ++ (cleanup (trim_space title)
            ++ ((if is_empty album then [] else codes " [" ++ (cleanup album ++ codes "]"))
                ++ ((if lt_i64 0 duration_ms
                      then codes " (" ++ (seconds duration_ms ++ codes ")")
                      else [])
                    ++ (codes " <"
                        ++ (or_null isrc
                            ++ (codes "::"
                                ++ (or_null platform_id
                                    ++ (codes ">"
                                        ++ (if is_empty ext then [] else codes "." ++ ext))))))))))
