-- ===== src/Calendar.antt =====
-- src/main.rs: the calendar date and time of a timestamp, for the output of `log`.
pub mod Civil
use respawn.Base.{
  ℕ, zero, suc, ◌+◌, ◌-◌, ◌*◌, ◌/◌, ◌%◌, Bytes, text, [], ◌∷◌, ◌++◌, length, ltb, leb,
  if◌then◌else◌,
}
use respawn.Audit.{decimal}

pub record Ymd : Type 0 where
  pub year : ℕ
  pub month : ℕ
  pub day : ℕ

-- By the day of an era of 400 years that begins on March 1: the year in it, and the day of a year
-- that begins on March 1.
unfoldable pub year_of_era : ℕ → ℕ
year_of_era doe = (doe - doe / 1460 + doe / 36524 - doe / 146096) / 365

unfoldable pub day_of_year : ℕ → ℕ
day_of_year doe = let yoe = year_of_era doe in doe - (365 * yoe + yoe / 4 - yoe / 100)

-- The month and the day, by the day of a year that begins on March 1.
unfoldable pub month_day : ℕ → ℕ → Ymd
month_day y doy =
    let mp = (5 * doy + 2) / 153 in
    let m = if ltb mp 10 then mp + 3 else mp - 9 in
    record { year = if leb m 2 then y + 1 else y; month = m; day = doy - (153 * mp + 2) / 5 + 1 }

unfoldable pub days_to_ymd : ℕ → Ymd
days_to_ymd days =
    let shifted = days + 719_468 in
    let doe = shifted % 146_097 in
    month_day (year_of_era doe + shifted / 146_097 * 400) (day_of_year doe)

abbrev zeros : ℕ → Bytes
zeros zero = []
zeros (suc n) = b'0' ∷ zeros n

-- `{n:0w}`: zeros in front, up to `w` digits.
unfoldable pub padded : ℕ → ℕ → Bytes
unfolding decimal
padded w n = zeros (w - length (decimal n)) ++ decimal n

unfoldable pub chrono_ts : ℕ → Bytes
unfolding days_to_ymd padded
chrono_ts secs =
    let date = days_to_ymd (secs / 86_400) in
    let rem = secs % 86_400 in
    padded 4 date.year
    ++ text "-"
    ++ padded 2 date.month
    ++ text "-"
    ++ padded 2 date.day
    ++ text " "
    ++ padded 2 (rem / 3_600)
    ++ text ":"
    ++ padded 2 (rem % 3_600 / 60)
    ++ text ":"
    ++ padded 2 (rem % 60)
    ++ text "Z"
