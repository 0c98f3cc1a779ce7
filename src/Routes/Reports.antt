-- ===== src/Routes/Reports.antt =====
-- The routes of backend/app/api/v1/routes/reports.py that change the store. The file system, the cron
-- library and `ensure_valid_cron` are parameters.
pub mod Audited
pub mod Stored
mod Tests
use app_scan_custom_dashboar.Base.{
  ℕ, String, ◌<>◌, Bool, true, false, not, Option, none, some, List, [], ◌∷◌, if◌then◌else◌,
  first_where, ◌==◌,
}
use app_scan_custom_dashboar.Json.{Value, Fields, bool, text, obj, end, field}
use app_scan_custom_dashboar.Errors.{Result, ok, err, http_exception, require}
use app_scan_custom_dashboar.Security.Policy.{assert_action_allowed}
use app_scan_custom_dashboar.Security.Session.{UserContext}
use app_scan_custom_dashboar.Store.Exec.{
  ReportHistory, ReportSchedule, ReportArtifact, World, Exec, pure, lift, or_raise, utc_now,
  uuid_hex, ◌>>=◌, ◌>>◌,
}
use app_scan_custom_dashboar.Store.Audit.{append_audit_event}
use app_scan_custom_dashboar.Store.Reports as Rows
use app_scan_custom_dashboar.Workers.Scheduler.{optional_text}

pub record ReportRequest : Type 0 where
  pub name : String
  pub filters : Fields
  pub format : String

pub record ScheduleCreateRequest : Type 0 where
  pub name : String
  pub template_id : Option String
  pub cron : String
  pub format : String
  pub enabled : Bool
  pub next_run_at : Option String

pub record ScheduleUpdateRequest : Type 0 where
  pub name : Option String
  pub template_id : Option String
  pub cron : Option String
  pub format : Option String
  pub enabled : Option Bool
  pub next_run_at : Option String

abbrev schedule_not_found : String
schedule_not_found = "Report schedule not found"

-- A history row with the `artifact` that the routes add to it.
pub record ReportRow : Type 0 where
  pub history : ReportHistory
  pub download_path : String
  pub file_name : String

-- `write_export` is `write_text` and `stat().st_size` of a file, `next_run` and `valid_cron` the cron
-- library.
module _ (clock uuid : ℕ → String) (exports_dir : String)
    (write_export : String → Fields → Result ℕ) (next_run : String → String → Result String)
    (valid_cron : String → Bool) (user : UserContext) where
  audit : String → String → String → Fields → Exec (Unit {0})
  audit action resource_type resource_id details = do
    hex ← uuid_hex uuid 10
    append_audit_event clock ("ae-" <> hex) user.subject action resource_type resource_id details
    pure tt

  create_report_artifact : String → Fields → Exec ReportArtifact
  create_report_artifact report_id payload = do
    let file_name = report_id <> ".json"
    let file_path = exports_dir <> "/" <> file_name
    size ← lift (write_export file_path payload)
    Rows.upsert_report_artifact clock report_id file_name file_path "application/json" size

  compute_next_run : String → Exec String
  compute_next_run cron = do base ← utc_now clock; lift (next_run cron base)

  -- `payload.next_run_at or compute_next_run_iso(payload.cron)`.
  given_or_next_run : Option String → String → Exec String
  unfolding compute_next_run
  given_or_next_run none cron = compute_next_run cron
  given_or_next_run (some t) cron = if t == "" then compute_next_run cron else pure t

  -- The next run of an update: computed if there is a cron expression and no next run.
  resolved_next_run : Option String → Option String → Exec (Option String)
  unfolding compute_next_run
  resolved_next_run (some t) cron = pure (some t)
  resolved_next_run none none = pure none
  resolved_next_run none (some cron) = do next ← compute_next_run cron; pure (some next)

  check_cron : Option String → Result (Unit {0})
  check_cron none = ok tt
  check_cron (some cron) = require (valid_cron cron) 422 "Invalid cron expression"

  payload_of : ReportHistory → String → Fields
  payload_of history generated_by = field "report_id" (text history.id) (
      field "name" (text history.report_name) (
        field "format" (text history.format) (
          field "filters" (obj history.filters) (
            field "status" (text history.status) (
              field "generated_at" (text history.created_at)
                (field "generated_by" (text generated_by) end))))))

  unfoldable pub generate_report : ReportRequest → Exec ReportRow
  unfolding audit create_report_artifact payload_of
  generate_report payload = do
    lift (assert_action_allowed "generate_report" user.role)
    hex ← uuid_hex uuid 8
    history ←
        Rows.append_report_history clock ("r-" <> hex) payload.name payload.format "queued"
          user.subject payload.filters "Custom reporting capability scaffolded."
    artifact ← create_report_artifact history.id (payload_of history user.subject)
    audit "report.generate" "report" history.id
        (field "name" (text payload.name) (field "format" (text payload.format) end))
    pure (record {
      history = history;
      download_path = "/reports/history/" <> history.id <> "/download";
      file_name = artifact.file_name;
    })

  unfoldable pub create_report_schedule : ScheduleCreateRequest → Exec ReportSchedule
  unfolding audit given_or_next_run
  create_report_schedule payload = do
    lift (assert_action_allowed "manage_report_schedules" user.role)
    lift (require (valid_cron payload.cron) 422 "Invalid cron expression")
    hex ← uuid_hex uuid 8
    next ← given_or_next_run payload.next_run_at payload.cron
    row ←
        Rows.create_report_schedule clock ("rs-" <> hex) payload.name payload.template_id
          payload.cron payload.format payload.enabled (some next) user.subject
    audit "report_schedule.create" "report_schedule" ("rs-" <> hex)
        (field "name" (text payload.name) (field "cron" (text payload.cron) end))
    pure row

  unfoldable pub update_report_schedule : String → ScheduleUpdateRequest → Exec ReportSchedule
  unfolding audit resolved_next_run check_cron
  update_report_schedule schedule_id payload = do
    lift (assert_action_allowed "manage_report_schedules" user.role)
    lift (check_cron payload.cron)
    next ← resolved_next_run payload.next_run_at payload.cron
    found ← Rows.update_report_schedule clock schedule_id (record Rows.no_change {
      name = payload.name;
      template_id = payload.template_id;
      cron = payload.cron;
      format = payload.format;
      enabled = payload.enabled;
      next_run_at = next;
    })
    row ← or_raise 404 schedule_not_found found
    audit "report_schedule.update" "report_schedule" schedule_id
        (field "cron" (text row.cron) (field "enabled" (bool row.enabled) end))
    pure row

  unfoldable pub delete_report_schedule : String → Exec Fields
  unfolding audit
  delete_report_schedule schedule_id = do
    lift (assert_action_allowed "manage_report_schedules" user.role)
    deleted ← Rows.delete_report_schedule schedule_id
    lift (require deleted 404 schedule_not_found)
    audit "report_schedule.delete" "report_schedule" schedule_id end
    pure (field "status" (text "deleted") (field "id" (text schedule_id) end))

  unfoldable pub run_schedule_now : String → Exec (Option ReportSchedule × ReportRow)
  unfolding audit create_report_artifact compute_next_run payload_of
  run_schedule_now schedule_id = do
    lift (assert_action_allowed "manage_report_schedules" user.role)
    schedules ← Rows.list_report_schedules
    schedule ←
        or_raise 404 schedule_not_found
          (first_where (λ (s : ReportSchedule). s.id == schedule_id) schedules)
    hex ← uuid_hex uuid 8
    history ←
        Rows.append_report_history clock ("r-" <> hex) schedule.name schedule.format "completed"
          user.subject
          (field "schedule_id" (text schedule_id)
            (field "template_id" (optional_text schedule.template_id) end))
          "Manual run-now execution."
    artifact ← create_report_artifact history.id (payload_of history user.subject)
    next ← compute_next_run schedule.cron
    at ← utc_now clock
    updated ← Rows.update_report_schedule clock schedule_id (record Rows.no_change {
      next_run_at = some next;
      retry_count = some 0;
      last_error = some "";
      last_attempt_at = some at;
    })
    audit "report_schedule.run_now" "report_schedule" schedule_id
        (field "report_id" (text history.id) (field "next_run_at" (text next) end))
    pure (
      updated,
      record {
        history = history;
        download_path = "/reports/history/" <> history.id <> "/download";
        file_name = artifact.file_name;
      },
    )
