-- ===== src/Domain.antt =====
-- internal/domain: the data that the parts exchange. Texts are lists of code points; an `int` is
-- its int64 bit pattern; a pointer that may be nil is an `Option`.
pub mod Query
use lyrics_plus.Common.{ℕ, Bool, Option, List, String}
use lyrics_plus.Common.Text.{Text, codes}

-- `SyncType` is a Go string type: any text may stand in it, these are the ones with a name.
abbrev pub sync_type_word : Text
sync_type_word = codes "Word"

abbrev pub sync_type_line : Text
sync_type_line = codes "Line"

abbrev pub sync_type_none : Text
sync_type_none = codes "None"

abbrev pub sync_type_syllable : Text
sync_type_syllable = codes "syllable"

pub record Syllable : Type 0 where
  pub time : ℕ
  pub duration : ℕ
  pub text : Text
  pub is_background : Bool
  pub synthetic : Bool

pub record LineElement : Type 0 where
  pub key : Text
  pub singer : Text
  pub song_part_index : Option ℕ
  pub song_part : Text
  pub is_background : Bool

pub record Translation : Type 0 where
  pub lang : Text
  pub text : Text

pub record Transliteration : Type 0 where
  pub lang : Text
  pub text : Text
  pub syllabus : List Syllable

pub record Line : Type 0 where
  pub time : ℕ
  pub duration : ℕ
  pub text : Text
  pub is_line_ending : Option ℕ
  pub syllabus : List Syllable
  pub element : LineElement
  pub translation : Option Translation
  pub transliteration : Option Transliteration

pub record Agent : Type 0 where
  pub type : Text
  pub name : Text
  pub alias : Text

pub record SongPart : Type 0 where
  pub name : Text
  pub time : Option ℕ
  pub duration : Option ℕ
  pub div_index : Option ℕ

pub record AudioMetadata : Type 0 where
  pub lyric_offset : Text
  pub role : Text

-- The map of agents is the list of its entries.
pub record LyricsMetadata : Type 0 where
  pub source : Text
  pub title : Text
  pub artist : Text
  pub album : Text
  pub song_writers : List Text
  pub leading_silence : Text
  pub agents : List (Text × Agent)
  pub song_parts : List SongPart
  pub language : Text
  pub total_duration : Text
  pub curator : Text
  pub audio : List AudioMetadata
  pub copyright : Text
  pub licence : Text

pub record ProcessTiming : Type 0 where
  pub time_elapsed : ℕ
  pub last_processed : ℕ
  pub total_elapsed_ms : ℕ
  pub winner_source : Option String
  pub sync_priority : Option ℕ

pub record LyricsResponse : Type 0 where
  pub type : Text
  pub kpoe_tools : Text
  pub metadata : LyricsMetadata
  pub ignore_sponsorblock : Option Bool
  pub lyrics : List Line
  pub cached : Text
  pub processing_time : Option ProcessTiming
  pub raw_data : Text

-- `CacheLevel` is a Go string type too.
abbrev pub cache_none : Text
cache_none = codes "None"

-- The format of the first version (v1.go): one flat list of segments.
pub record V1SegmentElement : Type 0 where
  pub key : Text
  pub song_part : Text
  pub singer : Text
  pub is_background : Bool

pub record V1Segment : Type 0 where
  pub time : ℕ
  pub duration : ℕ
  pub text : Text
  pub is_line_ending : ℕ
  pub element : V1SegmentElement

pub record V1Response : Type 0 where
  pub type : Text
  pub kpoe_tools : Text
  pub metadata : LyricsMetadata
  pub ignore_sponsorblock : Option Bool
  pub lyrics : List V1Segment
  pub cached : Text
  pub processing_time : Option ProcessTiming
