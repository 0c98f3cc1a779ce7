-- ===== src/Workers/Scheduler.antt =====
-- The report scheduler, backend/app/workers/report_scheduler.py, with `create_report_artifact` of
-- backend/app/services/report_artifacts.py. The file system, the cron library, the arithmetic of
-- dates and the text of an exception are parameters.
pub mod Backoff
pub mod Apart
pub mod Outcomes
pub mod Ends
use app_scan_custom_dashboar.Base.{
  ℕ, suc, ◌+◌, ◌*◌, ◌-◌, ◌^◌, min, String, ◌<>◌, Bool, true, false, not, ◌&&◌, Option, none, some,
  List, [], ◌∷◌, if◌then◌else◌, leb, pos, text_take,
}
use app_scan_custom_dashboar.Json.{Value, Fields, null, int, text, field, end}
use app_scan_custom_dashboar.Errors.{Exception, Result, ok, err}
use app_scan_custom_dashboar.Store.Exec.{
  ReportHistory, ReportSchedule, ReportArtifact, World, Exec, pure, lift, utc_now, uuid_hex, ◌>>=◌,
  ◌>>◌,
}
use app_scan_custom_dashboar.Store.Audit.{append_audit_event}
use app_scan_custom_dashboar.Store.Reports.{
  ScheduleChange, no_change, append_report_history, upsert_report_artifact, update_report_schedule,
  list_due_report_schedules,
}

-- The `report_scheduler_…` settings.
pub record SchedulerSettings : Type 0 where
  pub max_retries : ℕ
  pub backoff_base_seconds : ℕ
  pub backoff_max_seconds : ℕ

-- The seconds that `_backoff_next_run` adds to the time of day.
unfoldable pub backoff_seconds : SchedulerSettings → ℕ → ℕ
backoff_seconds settings retry_count =
    min (settings.backoff_base_seconds * 2 ^ (retry_count - 1)) settings.backoff_max_seconds

pub optional_text : Option String → Value
optional_text none = null
optional_text (some t) = text t

-- `try: m; except Exception as exc: handler(exc)`. What `m` wrote before it raised stays.
abbrev on_failure : {A : Type 0} → (Exception → Exec A) → Result A × World → Result A × World
on_failure handler (ok a, w) = (ok a, w)
on_failure handler (err e, w) = handler e w

unfoldable pub try_except : {A : Type 0} → Exec A → (Exception → Exec A) → Exec A
try_except m handler w = on_failure handler (m w)

-- The change of a schedule after a run that succeeded, and after one that failed.
unfoldable pub success_change : ReportSchedule → String → String → ScheduleChange
success_change schedule next_run at = record no_change {
  next_run_at = some next_run;
  enabled = some schedule.enabled;
  retry_count = some 0;
  last_error = some "";
  last_attempt_at = some at;
}

unfoldable pub failure_change : Bool → Bool → ℕ → Option String → String → String → ScheduleChange
failure_change is_maxed enabled retry_count next_run message at = record no_change {
  enabled = some (if is_maxed then false else enabled);
  next_run_at = next_run;
  retry_count = some retry_count;
  last_error = some message;
  last_attempt_at = some at;
}

-- `write_export` is `write_text` and `stat().st_size` of a file, `next_run` the cron library,
-- `add_seconds` the sum of a date and a `timedelta`, `message_of` is `str(exc)`.
module _ (clock uuid : ℕ → String) (settings : SchedulerSettings) (exports_dir : String)
    (write_export : String → Fields → Result ℕ) (next_run : String → String → Result String)
    (add_seconds : String → ℕ → String) (message_of : Exception → String) where
  unfoldable pub create_report_artifact : String → Fields → Exec ReportArtifact
  create_report_artifact report_id payload = do
    let file_name = report_id <> ".json"
    let file_path = exports_dir <> "/" <> file_name
    size ← lift (write_export file_path payload)
    upsert_report_artifact clock report_id file_name file_path "application/json" size

  -- `compute_next_run_iso`.
  compute_next_run : String → Exec String
  compute_next_run cron = do base ← utc_now clock; lift (next_run cron base)

  artifact_payload : ReportHistory → Fields
  artifact_payload history = field "report_id" (text history.id) (
      field "name" (text history.report_name) (
        field "format" (text history.format) (
          field "filters" (Value.obj history.filters) (
            field "status" (text history.status) (
              field "generated_at" (text history.created_at)
                (field "generated_by" (text "scheduler") end))))))

  -- The body of the `try`.
  unfoldable pub execute_schedule : ReportSchedule → Exec (Unit {0})
  unfolding compute_next_run artifact_payload optional_text
  execute_schedule schedule = do
    hex ← uuid_hex uuid 8
    history ←
        append_report_history clock ("r-" <> hex) schedule.name schedule.format "completed"
          "scheduler" (field "template_id" (optional_text schedule.template_id) end)
          "Scheduled report executed by background worker."
    create_report_artifact history.id (artifact_payload history)
    next ← compute_next_run schedule.cron
    at ← utc_now clock
    update_report_schedule clock schedule.id (success_change schedule next at)
    hex2 ← uuid_hex uuid 10
    append_audit_event clock ("ae-" <> hex2) "scheduler" "report_schedule.execute" "report_schedule"
        schedule.id (field "report_id" (text history.id) (field "next_run_at" (text next) end))
    pure tt

  -- `None if is_maxed else _backoff_next_run(retry_count)`.
  retry_at : Bool → ℕ → Exec (Option String)
  retry_at true retry_count = pure none
  retry_at false retry_count = do
    now ← utc_now clock
    pure (some (add_seconds now (backoff_seconds settings retry_count)))

  -- The body of the `except`.
  unfoldable pub retry_schedule : ReportSchedule → Exception → Exec (Unit {0})
  unfolding retry_at optional_text
  retry_schedule schedule exc = do
    let retry_count = schedule.retry_count + 1
    let is_maxed = leb settings.max_retries retry_count
    let message = text_take 500 (message_of exc)
    next ← retry_at is_maxed retry_count
    at ← utc_now clock
    update_report_schedule clock schedule.id
        (failure_change is_maxed schedule.enabled retry_count next message at)
    hex ← uuid_hex uuid 10
    append_audit_event clock ("ae-" <> hex) "scheduler"
        (if not is_maxed then "report_schedule.retry" else "report_schedule.disabled")
        "report_schedule" schedule.id
        (field "retry_count" (int (pos retry_count))
          (field "next_run_at" (optional_text next) (field "error" (text message) end)))
    pure tt

  unfoldable pub run_schedule : ReportSchedule → Exec (Unit {0})
  run_schedule schedule = try_except (execute_schedule schedule) (retry_schedule schedule)

  -- The `for` over the due schedules.
  unfoldable pub run_schedules : List ReportSchedule → Exec (Unit {0})
  run_schedules [] = pure tt
  run_schedules (schedule ∷ rest) = do run_schedule schedule; run_schedules rest

  -- One turn of the `while`; the pause after it and the stop event are outside.
  unfoldable pub scheduler_turn : Exec (Unit {0})
  scheduler_turn = do now ← utc_now clock; due ← list_due_report_schedules now; run_schedules due
