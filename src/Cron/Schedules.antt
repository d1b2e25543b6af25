-- ===== src/Cron/Schedules.antt =====
-- src/feather/storage/cron_store.py: when a job runs next.
use feather_os.Prelude.{
  ℕ, String, ◌<>◌, Bool, Option, none, some, if◌then◌else◌, leb, not, ◌||◌, str_eq, strip, is_empty,
  Result, ok, err, value_error,
}
use feather_os.Cron.Records.{
  ScheduleType, cron, once, CronJob, Platform, found, not_found, refused, same_schedule,
}

abbrev pub resolve_zone : Platform → String → Result String
resolve_zone p timezone = elim (p.find_zone (strip timezone)) [
  | found ↦ ok (strip timezone)
  | not_found ↦ err (value_error ("Unknown timezone: " <> timezone))
  | refused e ↦ err e
]

-- An error message with its argument.
abbrev pub some_or : {A : Type 0} → Option A → String → Result A
some_or none message = err (value_error message)
some_or (some a) message = ok a

abbrev pub parse_once_datetime : Platform → String → String → Result ℕ
parse_once_datetime p value zone =
    some_or (p.parse_datetime value zone)
      "One-time schedules must be ISO 8601 datetimes, for example `2026-04-16T21:30:00-04:00`."

abbrev refuse_past : ℕ → Result ℕ → Result ℕ
refuse_past after (ok at) =
    if leb at after then err (value_error "One-time schedules must be in the future.") else ok at
refuse_past after (err e) = err e

abbrev pub next_in_zone : Platform → ScheduleType → String → ℕ → Result String → Result ℕ
next_in_zone p schedule_type raw after (err e) = err e
next_in_zone p schedule_type raw after (ok zone) =
    if is_empty raw
    then err (value_error "Cron job `schedule_value` must not be empty.")
    else elim schedule_type [
      | cron ↦ some_or (p.next_cron raw zone after) ("Invalid cron expression: " <> raw)
      | once ↦ refuse_past after (parse_once_datetime p raw zone)
    ]

unfoldable pub compute_next_run_datetime :
    Platform → ScheduleType → (schedule_value timezone : String) → (after : ℕ) → Result ℕ
compute_next_run_datetime p schedule_type schedule_value timezone after =
    next_in_zone p schedule_type (strip schedule_value) after (resolve_zone p timezone)

abbrev pub iso_of : Platform → Result ℕ → Result String
iso_of p (ok at) = ok (p.isoformat at)
iso_of p (err e) = err e

abbrev pub compute_next_run_iso :
    Platform → ScheduleType → (schedule_value timezone : String) → (after : ℕ) → Result String
compute_next_run_iso p schedule_type schedule_value timezone after =
    iso_of p (compute_next_run_datetime p schedule_type schedule_value timezone after)

abbrev pub schedule_changed : CronJob → ScheduleType → (schedule_value timezone : String) → Bool
schedule_changed job schedule_type schedule_value timezone =
    not (same_schedule job.schedule_type schedule_type)
    || (not (str_eq job.schedule_value schedule_value) || not (str_eq job.timezone timezone))
