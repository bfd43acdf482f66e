-- ===== src/Schedule/Examples.antt =====
-- The theorems on schedules applied at concrete inputs.
use pdf_search.Prelude.{
  every, is_digit, ◌≡◌, refl, [], ◌∷◌, All, false, ok, ◌||◌, ◌&&◌, ◌==◌, arith,
}
use pdf_search.Schedule.{Parsed, parse_schedule}
use pdf_search.Schedule.Bounds.{IsWithin, weekday_values, schedule-IsWithin}
use pdf_search.Schedule.Parse.{has_value, words, parse_field}

abbrev weekly : Parsed
weekly = record {
  minute = 0 ∷ 20 ∷ 40 ∷ [];
  hour = 2 ∷ [];
  day = 1 ∷ [];
  month = 5 ∷ [];
  weekday = 0 ∷ 6 ∷ [];
  day_wildcard = false;
  weekday_wildcard = false;
}

weekly_run : parse_schedule "*/20 2 1 5 6-7" ≡ ok weekly
unfolding parse_schedule every is_digit
weekly_run = refl

-- the values of the fifth field of that expression, Sunday written 7
weekly_days : weekday_values (words "*/20 2 1 5 6-7") ≡ 6 ∷ 7 ∷ []
unfolding words parse_field every is_digit
weekly_days = refl

schedule-IsWithin_example :
    (All (IsWithin 0 59) weekly.minute
      × All (IsWithin 0 23) weekly.hour
      × All (IsWithin 1 31) weekly.day
      × All (IsWithin 1 12) weekly.month
      × All (IsWithin 0 6) weekly.weekday)
    × (has_value 0 weekly.weekday ≡ (
        has_value 0 (weekday_values (words "*/20 2 1 5 6-7"))
        || (0 == 0 && has_value 7 (weekday_values (words "*/20 2 1 5 6-7")))))
schedule-IsWithin_example = schedule-IsWithin "*/20 2 1 5 6-7" 0 (omega arith) weekly_run
