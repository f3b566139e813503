-- ===== src/Tests/Keys.antt =====
-- Query keys of internal/domain/catalog.go at concrete queries.
use lyrics_plus.Common.{add_i64, ℕ, ◌≡◌, refl, false, none, some, [], ◌∷◌, arith}
use lyrics_plus.Common.Text.{codes, text_eq, trim_space, join, contains, to_lower}
use lyrics_plus.Domain.{Line, LyricsResponse, LyricsMetadata, sync_type_line}
use lyrics_plus.Domain.Query.{
  SearchQuery, duration_bucket, normal, normalize_key, content_key, is_empty,
}
use lyrics_plus.Domain.Query.Keys.{IsColonFree, content_key-injective, normalize_key-collision}
use lyrics_plus.Orchestrator.Grade.{
  grade, is_word_type, content_trusted, any_syllabus, has_syllable_sync,
}

-- A table without capitals is enough for the texts below.
lower : ℕ → ℕ
lower c = c

abbrev hello : SearchQuery
hello = record {
  title = codes "hello";
  artist = codes "adele";
  album = [];
  duration = 295500;
  isrc = [];
  platform_id = [];
  sources = [];
  force_reload = false;
}

hello_key : normalize_key lower hello ≡ codes "hello::adele::::296::::::default"
unfolding normalize_key lower normal trim_space join add_i64
hello_key = refl

hello-IsColonFree : IsColonFree lower hello
unfolding lower normal trim_space
hello-IsColonFree = omega arith

-- The same song, with space around its title and some milliseconds more.
abbrev spaced : SearchQuery
spaced = record hello { title = codes " hello "; duration = 295900; sources = codes "qq" ∷ [] }

spaced-IsColonFree : IsColonFree lower spaced
unfolding lower normal trim_space
spaced-IsColonFree = omega arith

same_content : content_key lower hello ≡ content_key lower spaced
unfolding content_key lower normal trim_space join add_i64 duration_bucket
same_content = refl

content_key-injective_example :
    (normal lower (codes "hello") ≡ normal lower (codes " hello "))
    × (normal lower (codes "adele") ≡ normal lower (codes "adele"))
    × (normal lower [] ≡ normal lower [])
    × (duration_bucket hello ≡ duration_bucket spaced)
    × (normal lower [] ≡ normal lower [])
    × (normal lower [] ≡ normal lower [])
content_key-injective_example =
    content_key-injective lower hello spaced hello-IsColonFree spaced-IsColonFree same_content

plain :
    (normal lower (codes "a::b") ≡ codes "a::b")
    × (normal lower (codes "c") ≡ codes "c")
    × (normal lower (codes "a") ≡ codes "a")
    × (normal lower (codes "b::c") ≡ codes "b::c")
unfolding normal lower trim_space
plain = (refl, refl, refl, refl)

normalize_key-collision_example :
    (normalize_key lower (record hello { title = codes "a::b"; artist = codes "c" })
      ≡ normalize_key lower (record hello { title = codes "a"; artist = codes "b::c" }))
    × (content_key lower (record hello { title = codes "a::b"; artist = codes "c" })
        ≡ content_key lower (record hello { title = codes "a"; artist = codes "b::c" }))
normalize_key-collision_example =
    normalize_key-collision lower hello (codes "a::b") (codes "c") (codes "a") (codes "b::c")
      (codes "a") (codes "b") (codes "c") plain.0 plain.1 plain.2 plain.3

abbrev pub no_metadata : LyricsMetadata
no_metadata = record {
  source = [];
  title = [];
  artist = [];
  album = [];
  song_writers = [];
  leading_silence = [];
  agents = [];
  song_parts = [];
  language = [];
  total_duration = [];
  curator = [];
  audio = [];
  copyright = [];
  licence = [];
}

abbrev one_line : Line
one_line = record {
  time = 0;
  duration = 500;
  text = codes "la";
  is_line_ending = none;
  syllabus =
      record {
        time = 0;
        duration = 500;
        text = codes "la";
        is_background = false;
        synthetic = false;
      }
      ∷ [];
  element = record {
    key = [];
    singer = [];
    song_part_index = none;
    song_part = [];
    is_background = false;
  };
  translation = none;
  transliteration = none;
}

abbrev pub line_response : LyricsResponse
line_response = record {
  type = sync_type_line;
  kpoe_tools = [];
  metadata = no_metadata;
  ignore_sponsorblock = none;
  lyrics = one_line ∷ [];
  cached = [];
  processing_time = none;
  raw_data = [];
}

apple_is_trusted : grade (some line_response) "Apple Music" ≡ 3
unfolding grade content_trusted is_word_type has_syllable_sync any_syllabus contains to_lower
    is_empty text_eq
apple_is_trusted = refl
