-- ===== src/Workers/Tests.antt =====
-- Runs of the scheduler of backend/app/workers/report_scheduler.py on one schedule.
use app_scan_custom_dashboar.Base.{
  ℕ, arith, String, ◌<>◌, ◌≡◌, ◌≢◌, refl, true, false, none, some, [], ◌∷◌, ◌++◌, decimal, eq_iff,
}
use mathlib.Core.Bool.{false≢true}
use app_scan_custom_dashboar.Json.{Fields}
use app_scan_custom_dashboar.Errors.{Exception, Result, ok, err, other_error}
use app_scan_custom_dashboar.Store.Table.{find_row, has_row}
use app_scan_custom_dashboar.Store.Exec.{ReportHistory, ReportSchedule, World}
use app_scan_custom_dashboar.Store.Reports.{schedule_key, is_due}
use app_scan_custom_dashboar.Workers.Scheduler.{
  SchedulerSettings, execute_schedule, retry_schedule, scheduler_turn,
}
use app_scan_custom_dashboar.Workers.Scheduler.Ends.{row_at, failed, retries-not_due}
use app_scan_custom_dashboar.Workers.Scheduler.Apart.{SameRest, scheduler_turn-SameRest}
use app_scan_custom_dashboar.Workers.Scheduler.Outcomes.{
  Retried, retry_schedule-row, execute_schedule-row, execute_schedule-failed_write,
}

abbrev clock : ℕ → String
clock n = "t" <> decimal n

abbrev uuid : ℕ → String
uuid n = "0123456789" <> decimal n

abbrev settings : SchedulerSettings
settings = record { max_retries = 5; backoff_base_seconds = 60; backoff_max_seconds = 3600 }

abbrev daily : ReportSchedule
daily = record {
  id = "rs-1";
  name = "Daily";
  template_id = none;
  cron = "0 6 * * *";
  format = "json";
  enabled = true;
  next_run_at = some "t";
  retry_count = 4;
  last_error = "";
  last_attempt_at = none;
  created_by = "ann";
  created_at = "t";
  updated_at = "t";
}

abbrev start : World
start = record {
  db = record {
    dashboards = [];
    dashboard_versions = [];
    dashboard_templates = [];
    report_templates = [];
    report_history = [];
    report_schedules = daily ∷ [];
    report_artifacts = [];
    audit_events = [];
    analytics_snapshots = [];
    data_sources = [];
  };
  drawn = 0;
  ticks = 0;
}

abbrev disk_full : Exception
disk_full = other_error "No space left on device"

abbrev writes : String → Fields → Result ℕ
writes path payload = ok 300

abbrev fails : String → Fields → Result ℕ
fails path payload = err disk_full

abbrev tomorrow : String → String → Result String
tomorrow cron base = ok "tomorrow"

abbrev later : String → ℕ → String
later at seconds = at <> "+" <> decimal seconds

abbrev message_of : Exception → String
message_of e = "failed"

scheduler_turn-SameRest_example :
    SameRest start.db
      (scheduler_turn clock uuid settings "exports" fails tomorrow later message_of start).1.db
scheduler_turn-SameRest_example =
    scheduler_turn-SameRest clock uuid settings "exports" fails tomorrow later message_of start

other_id : daily.id ≢ "rs-2"
other_id h = false≢true ((eq_iff daily.id "rs-2").1 h)

daily_found : find_row schedule_key daily.id start.db.report_schedules ≡ some daily
unfolding find_row
daily_found = refl

no_row : {A : Type 0} (key : A → String) (k : String) → has_row key k [] ≡ false
unfolding has_row
no_row key k = refl

retry_schedule-row_example :
    let (r, w') =
      retry_schedule clock uuid settings "exports" fails tomorrow later message_of daily disk_full
        start in
    (r ≡ ok tt)
    × (row : ReportSchedule) × (find_row schedule_key "rs-1" w'.db.report_schedules ≡ some row)
    × Retried settings later (clock 0) daily row
retry_schedule-row_example =
    retry_schedule-row clock uuid settings "exports" fails tomorrow later message_of daily disk_full
      start daily_found (no_row _ _)

execute_schedule-row_example :
    let (r, w') =
      execute_schedule clock uuid settings "exports" writes tomorrow later message_of daily start in
    (r ≡ ok tt)
    × (row : ReportSchedule) × (find_row schedule_key "rs-1" w'.db.report_schedules ≡ some row)
    × (row.retry_count ≡ 0)
    × (row.last_error ≡ "")
    × (row.next_run_at ≡ some "tomorrow")
    × (row.enabled ≡ true)
execute_schedule-row_example =
    execute_schedule-row clock uuid settings "exports" writes tomorrow later message_of daily 300
      "tomorrow" start daily_found (no_row _ _) (no_row _ _) (λ path payload. refl) refl

execute_schedule-failed_write_example :
    let (r, w') =
      execute_schedule clock uuid settings "exports" fails tomorrow later message_of daily start in
    (r ≡ err disk_full)
    × (row : ReportHistory) × (w'.db.report_history ≡ start.db.report_history ++ (row ∷ []))
    × (row.status ≡ "completed")
    × (w'.db.report_artifacts ≡ start.db.report_artifacts)
    × (w'.db.report_schedules ≡ start.db.report_schedules)
execute_schedule-failed_write_example =
    execute_schedule-failed_write clock uuid settings "exports" fails tomorrow later message_of
      daily disk_full start (no_row _ _) (λ path payload. refl)

-- A schedule that is allowed one failure.
abbrev strict : SchedulerSettings
strict = record settings { max_retries = 1 }

abbrev once_failed : World
once_failed =
    failed clock uuid strict "exports" fails tomorrow later message_of daily disk_full start

retries-not_due_example :
    (row : ReportSchedule) × (row_at "rs-1" once_failed ≡ some row)
    × ((now : String) → is_due now row ≡ false)
retries-not_due_example =
    retries-not_due clock uuid strict "exports" fails tomorrow later message_of "rs-1" 0 start
      once_failed daily daily_found (omega arith)
      (daily, disk_full, once_failed, daily_found, refl, no_row _ _, refl, refl)
