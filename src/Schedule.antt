-- ===== src/Schedule.antt =====
-- flowdocs/dataops/job_scheduler.py: cron expressions of the backup jobs. `int(…)` is modelled on ASCII
-- digits without underscores. The zone database is a parameter.
pub mod Parse
mod Bounds
mod Matching
mod Examples
use pdf_search.Prelude.{
  ℕ, ◌+◌, ◌%◌, String, nonempty, Option, none, some, get_or, List, [], ◌∷◌, map, filter, any, Bool,
  true, false, ◌&&◌, ◌||◌, not, ◌==◌, Result, ok, raised, ◌>>=◌, if◌then◌else◌,
}
use Parse.{ScheduleError, timezone_invalid, five_fields, parse_field, words, has_value, error_code}

-- `parse_schedule`'s tuple
pub record Parsed : Type 0 where
  pub minute : List ℕ
  pub hour : List ℕ
  pub day : List ℕ
  pub month : List ℕ
  pub weekday : List ℕ
  pub day_wildcard : Bool
  pub weekday_wildcard : Bool

-- `if 7 in weekday: weekday.add(0); weekday.discard(7)`
unfoldable pub sunday_first : List ℕ → List ℕ
sunday_first weekday =
    if has_value 7 weekday then 0 ∷ filter (λ v. not (v == 7)) weekday else weekday

-- the five fields, parsed in turn
unfoldable pub parse_parts : List String → Result ScheduleError Parsed
unfolding parse_field sunday_first
parse_parts (m ∷ h ∷ d ∷ mo ∷ w ∷ []) = do
  (minute, _) ← parse_field m 0 59
  (hour, _) ← parse_field h 0 23
  (day, day_wildcard) ← parse_field d 1 31
  (month, _) ← parse_field mo 1 12
  (weekday, weekday_wildcard) ← parse_field w 0 7
  ok record {
    minute = minute;
    hour = hour;
    day = day;
    month = month;
    weekday = sunday_first weekday;
    day_wildcard = day_wildcard;
    weekday_wildcard = weekday_wildcard;
  }
parse_parts _ = raised five_fields

unfoldable pub parse_schedule : String → Result ScheduleError Parsed
unfolding words parse_parts
parse_schedule expression = parse_parts (words expression)

-- the fields of a local `datetime` that are read; `weekday` counts from Monday
pub record LocalTime : Type 0 where
  pub minute : ℕ
  pub hour : ℕ
  pub day : ℕ
  pub month : ℕ
  pub weekday : ℕ

abbrev calendar_match : Parsed → LocalTime → Bool
calendar_match p t =
    let day_matches = has_value t.day p.day in
    let weekday_matches = has_value ((t.weekday + 1) % 7) p.weekday in
    if not p.day_wildcard && not p.weekday_wildcard
    then day_matches || weekday_matches
    else day_matches && weekday_matches

abbrev parsed_match : Parsed → LocalTime → Bool
parsed_match p t =
    has_value t.minute p.minute
    && has_value t.hour p.hour
    && has_value t.month p.month
    && calendar_match p t

-- `BackupJob`, of which an enabled job with a schedule is read
pub record BackupJob : Type 0 where
  pub pk : ℕ
  pub enabled : Bool
  pub schedule : String
  pub timezone : String
  pub last_run_status : String

-- `except ZoneInfoNotFoundError`
abbrev localized : Option LocalTime → Result ScheduleError LocalTime
localized none = raised timezone_invalid
localized (some t) = ok t

-- `zone` is `moment.astimezone(ZoneInfo(name))`, `none` where there is no such zone
module _ {Moment : Type 0} (zone : String → Moment → Option LocalTime) where
  unfoldable pub schedule_matches : String → Moment → String → Result ScheduleError Bool
  schedule_matches expression moment timezone_name = do
    t ← localized (zone timezone_name moment)
    p ← parse_schedule expression
    ok (parsed_match p t)

  -- the loop's body on one job
  unfoldable job_after : Moment → BackupJob → BackupJob
  unfolding schedule_matches error_code
  job_after moment job =
      if not (job.enabled && nonempty job.schedule)
      then job
      else elim (schedule_matches job.schedule moment job.timezone) [
        | raised e ↦ record job { last_run_status = error_code e }
        | ok true ↦ record job { last_run_status = "manual_required:v3_only" }
        | ok false ↦ job
      ]

  -- the number of queued jobs and the table of backup jobs
  unfoldable queue_due_backup_jobs : Bool → Moment → List BackupJob → ℕ × List BackupJob
  unfolding job_after
  queue_due_backup_jobs scheduling_enabled moment jobs =
      if not scheduling_enabled then (0, jobs) else (0, map (job_after moment) jobs)

-- `automatic_backup_scheduling_enabled`: the setting, or that of the identity
unfoldable automatic_backup_scheduling_enabled : Option Bool → Option Bool → Bool
automatic_backup_scheduling_enabled (some explicit) identity = explicit
automatic_backup_scheduling_enabled none identity = get_or false identity
