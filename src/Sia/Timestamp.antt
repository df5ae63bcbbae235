-- ===== src/Sia/Timestamp.antt =====
-- `timePattern` and `parseTimestamp` of bridge/internal/sia/parser.go, and `timestamp` of response.go.
pub mod Unread
use ajax_bridge.Prelude.{
  ℕ, zero, suc, ◌+◌, ◌-◌, ◌*◌, ◌/◌, ◌%◌, Option, none, some, List, [], ◌∷◌, ◌++◌, or_else, Bytes,
}
use ajax_bridge.Text.{is_digit}
use ajax_bridge.Time.{
  Time, Element, hour, minute, sec, month, day, year, literal, no_fields, parse_elements,
}
use ajax_bridge.Sia.Header.{exactly, byte}

-- The match of the pattern at the start of a text, as what `parseTimestamp` makes of its groups.
unfoldable pub time_at : Bytes → Option Bytes
time_at s0 = byte b'_' s0 λ s1. exactly 2 is_digit [] s1 λ hour s2. byte b':' s2 λ s3.
    exactly 2 is_digit [] s3 λ minute s4. byte b':' s4 λ s5. exactly 2 is_digit [] s5 λ sec s6.
      byte b',' s6 λ s7. exactly 2 is_digit [] s7 λ month s8. byte b'-' s8 λ s9.
        exactly 2 is_digit [] s9 λ day s10. byte b'-' s10 λ s11.
          exactly 4 is_digit [] s11 λ year rest. some (
            hour
            ++ (b':'
                ∷ (minute
                    ++ (b':' ∷ (sec ++ (b',' ∷ (month ++ (b'-' ∷ (day ++ (b'-' ∷ year))))))))))

-- The first match in a text.
unfoldable pub find_time : Bytes → Option Bytes
find_time [] = none
find_time (c ∷ s) = or_else (time_at (c ∷ s)) (find_time s)

-- "15:04:05,01-02-2006"
abbrev pub layout : List Element
layout =
    hour
    ∷ literal b':'
    ∷ minute
    ∷ literal b':'
    ∷ sec
    ∷ literal b','
    ∷ month
    ∷ literal b'-'
    ∷ day
    ∷ literal b'-'
    ∷ year
    ∷ []

-- time.Parse of the match, if there is one.
abbrev pub parse_match : Option Bytes → Option Time
parse_match none = none
parse_match (some text) = parse_elements layout no_fields text

unfoldable pub parse_timestamp : Bytes → Option Time
parse_timestamp value = parse_match (find_time value)

-- A time of day on a date.
pub record Civil : Type 0 where
  pub year : ℕ
  pub month : ℕ
  pub day : ℕ
  pub hour : ℕ
  pub minute : ℕ
  pub sec : ℕ

unfoldable pub two_digits : ℕ → Bytes
two_digits n = (b'0' + n / 10 % 10) ∷ (b'0' + n % 10) ∷ []

-- The layout "_15:04:05,01-02-2006" of a time in the years 0 to 9999.
unfoldable pub timestamp : Civil → Bytes
timestamp t =
    b'_'
    ∷ (two_digits t.hour
        ++ (b':'
            ∷ (two_digits t.minute
                ++ (b':'
                    ∷ (two_digits t.sec
                        ++ (b','
                            ∷ (two_digits t.month
                                ++ (b'-'
                                    ∷ (two_digits t.day
                                        ++ (b'-'
                                            ∷ (two_digits (t.year / 100)
                                                ++ two_digits (t.year % 100))))))))))))
