-- ===== src/Tests/Lrc.antt =====
-- Two lines of LRC (internal/parsers/lrc.go).
use lyrics_plus.Common.{ℕ, ◌*◌, ◌/◌, ◌^◌, ◌≡◌, refl, [], ◌∷◌, ◌++◌, map, arith, sub_i64, lt_i64}
use lyrics_plus.Common.Text.{codes, join}
use lyrics_plus.Common.Decimal.{itoa, digits_of, value_from}
use lyrics_plus.Domain.{Line}
use lyrics_plus.Domain.Query.{is_empty}
use lyrics_plus.Parsers.Lrc.{
  LrcMatch, LrcLine, split_lines, digits_then, stop_at, group_to, skip_space, after_secs,
  after_mins, match_line, atoi, time_of, line_of, lrc_lines, set_durations, lyrics_of,
  convert_lrclib,
}
use lyrics_plus.Parsers.Lrc.RoundTrip.{write_line, line_at, lines_for, convert_lrclib-written}
use lyrics_plus.Parsers.Lrc.Durations.{end_of, set_durations_fill}

-- The milliseconds of a fraction of one to three digits.
abbrev millis : ℕ → ℕ → ℕ
millis value digits = value * 1000 / 10 ^ digits

abbrev hello : LrcMatch
hello = record { mins = codes "00"; secs = codes "12"; fraction = codes "34"; text = codes "Hello" }

abbrev again : LrcMatch
again = record { mins = codes "01"; secs = codes "02"; fraction = codes "5"; text = codes "Again" }

abbrev pause : LrcMatch
pause = record { mins = codes "00"; secs = codes "14"; fraction = codes "0"; text = [] }

convert_lrclib-written_example :
    convert_lrclib millis (join (map write_line (hello ∷ pause ∷ again ∷ [])) (10 ∷ [])) 90000
    ≡ line_at 1 12340 1660 (codes "Hello") ∷ (line_at 3 62500 27500 (codes "Again") ∷ [])
unfolding skip_space is_empty lines_for value_from sub_i64 lt_i64
convert_lrclib-written_example = convert_lrclib-written millis hello (pause ∷ again ∷ []) 90000 (
  (
    (refl, (refl, (refl, tt))),
    (
      (refl, (refl, (refl, tt))),
      ((refl, (refl, (refl, tt))), ((refl, (refl, (refl, (refl, (refl, tt))))), refl)),
    ),
  ),
  (
    ((refl, (refl, (refl, tt))), ((refl, (refl, (refl, tt))), ((refl, (refl, tt)), (tt, refl)))),
    (
      (
        (refl, (refl, (refl, tt))),
        (
          (refl, (refl, (refl, tt))),
          ((refl, (refl, tt)), ((refl, (refl, (refl, (refl, (refl, tt))))), refl)),
        ),
      ),
      tt,
    ),
  ),
)

times_read :
    map
      (λ (l : Line). l.time)
      (convert_lrclib millis (codes "[00:12.34] Hello" ++ (10 ∷ codes "[01:02.5]Again")) 90000)
    ≡ 12340 ∷ (62500 ∷ [])
unfolding convert_lrclib lyrics_of set_durations lrc_lines line_of time_of atoi match_line
    after_mins after_secs group_to stop_at digits_then skip_space split_lines itoa digits_of
    value_from sub_i64 lt_i64 is_empty
times_read = refl

abbrev at : ℕ → LrcLine
at n = record { time = n; duration = 0; text = codes "la"; key = codes "L1" }

set_durations_fill_example :
    map end_of (set_durations 900 (at 100 ∷ at 250 ∷ []))
    ≡ map (λ (x : LrcLine). x.time) (at 250 ∷ []) ++ (900 ∷ [])
set_durations_fill_example =
    set_durations_fill 900 (at 100) (at 250 ∷ []) (omega arith)
      (omega arith, (omega arith, (omega arith, refl)))
