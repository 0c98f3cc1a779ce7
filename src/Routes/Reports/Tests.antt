-- ===== src/Routes/Reports/Tests.antt =====
-- Runs of the routes of backend/app/api/v1/routes/reports.py on empty tables.
use app_scan_custom_dashboar.Base.{
  ℕ, String, ◌<>◌, ◌≡◌, refl, Bool, true, false, none, some, [], decimal, member, lookup,
}
use app_scan_custom_dashboar.Json.{Fields, end}
use app_scan_custom_dashboar.Errors.{Result, ok}
use app_scan_custom_dashboar.Security.Policy.{
  assert_action_allowed, allowed_roles, role_action_policy,
}
use app_scan_custom_dashboar.Security.Session.{UserContext}
use app_scan_custom_dashboar.Store.Table.{find_row, has_row}
use app_scan_custom_dashboar.Store.Exec.{World}
use app_scan_custom_dashboar.Store.Exec.Accounts.{Accounted}
use app_scan_custom_dashboar.Store.Reports as Rows
use app_scan_custom_dashboar.Routes.Reports.{
  ReportRequest, ScheduleCreateRequest, ScheduleUpdateRequest, generate_report,
}
use app_scan_custom_dashboar.Routes.Writes.{new_schedule, serve_write, serve_write-Accounted}
use app_scan_custom_dashboar.Routes.Reports.Stored.{queued, exported, generate_report-stored}

abbrev clock : ℕ → String
clock n = "t" <> decimal n

abbrev uuid : ℕ → String
uuid n = "0123456789" <> decimal n

abbrev writes : String → Fields → Result ℕ
writes path payload = ok 300

abbrev tomorrow : String → String → Result String
tomorrow cron base = ok "tomorrow"

abbrev valid_cron : String → Bool
valid_cron cron = true

abbrev manager : UserContext
manager = record { subject = "ann"; role = "SecurityManager"; asset_group_ids = [] }

abbrev start : World
start = record {
  db = record {
    dashboards = [];
    dashboard_versions = [];
    dashboard_templates = [];
    report_templates = [];
    report_history = [];
    report_schedules = [];
    report_artifacts = [];
    audit_events = [];
    analytics_snapshots = [];
    data_sources = [];
  };
  drawn = 0;
  ticks = 0;
}

abbrev daily : ScheduleCreateRequest
daily = record {
  name = "Daily";
  template_id = none;
  cron = "0 6 * * *";
  format = "json";
  enabled = true;
  next_run_at = none;
}

abbrev paused : ScheduleUpdateRequest
paused = record {
  name = none;
  template_id = none;
  cron = some "0 7 * * *";
  format = none;
  enabled = some false;
  next_run_at = none;
}

abbrev request : ReportRequest
request = record { name = "Monthly"; filters = end; format = "json" }

manager_generates : assert_action_allowed "generate_report" manager.role ≡ ok tt
unfolding assert_action_allowed allowed_roles role_action_policy member lookup
manager_generates = refl

no_row : {A : Type 0} (key : A → String) (k : String) → has_row key k [] ≡ false
unfolding has_row
no_row key k = refl

generate_report-stored_example :
    let (r, w') =
      generate_report clock uuid "exports" writes tomorrow valid_cron manager request start in
    (r
      ≡ ok (record {
        history = queued clock uuid "exports" writes tomorrow valid_cron manager request start;
        download_path =
            "/reports/history/"
            <> (queued clock uuid "exports" writes tomorrow valid_cron manager request start).id
            <> "/download";
        file_name =
            (exported clock uuid "exports" writes tomorrow valid_cron manager 300 start).file_name;
      }))
    × (find_row Rows.history_key
          (queued clock uuid "exports" writes tomorrow valid_cron manager request start).id
          w'.db.report_history
        ≡ some (queued clock uuid "exports" writes tomorrow valid_cron manager request start))
    × (find_row Rows.artifact_key
          (queued clock uuid "exports" writes tomorrow valid_cron manager request start).id
          w'.db.report_artifacts
        ≡ some (exported clock uuid "exports" writes tomorrow valid_cron manager 300 start))
generate_report-stored_example =
    generate_report-stored clock uuid "exports" writes tomorrow valid_cron manager request 300 start
      manager_generates (no_row _ _) (no_row _ _) refl

serve_write-Accounted_example :
    Accounted "ann"
      (serve_write clock uuid "exports" writes tomorrow valid_cron manager (new_schedule daily))
serve_write-Accounted_example =
    serve_write-Accounted clock uuid "exports" writes tomorrow valid_cron manager
      (new_schedule daily)
