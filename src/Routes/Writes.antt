-- ===== src/Routes/Writes.antt =====
-- Ten requests of backend/app/api/v1/routes/dashboard.py and reports.py that change the store, as one
-- interface, and the audit events that they leave. The generation of a report and run_schedule_now, which
-- write a file between their writes to the store, and the wizard are not among them.
use app_scan_custom_dashboar.Base.{ℕ, String, Bool}
use app_scan_custom_dashboar.Json.{Fields}
use app_scan_custom_dashboar.Errors.{Result, ok, err, http_exception, integrity_error, other_error}
use app_scan_custom_dashboar.Security.Session.{UserContext}
use app_scan_custom_dashboar.Store.Exec.{Database, World, Exec, pure, continue, ◌>>=◌, ◌>>◌}
use app_scan_custom_dashboar.Store.Exec.Accounts.{Accounted, AccountedEnd}
use app_scan_custom_dashboar.Routes.Dashboard.{
  CreateRequest, UpdateRequest, create_dashboard, update_dashboard, delete_dashboard,
  rollback_dashboard_version,
}
use app_scan_custom_dashboar.Routes.Dashboard.Audited.{
  create_dashboard-Accounted, update_dashboard-Accounted, delete_dashboard-Accounted,
  rollback_dashboard_version-Accounted,
}
use app_scan_custom_dashboar.Routes.Reports.{
  ScheduleCreateRequest, ScheduleUpdateRequest, create_report_schedule, update_report_schedule,
  delete_report_schedule,
}
use app_scan_custom_dashboar.Routes.Reports.Audited.{
  create_report_schedule-Accounted, update_report_schedule-Accounted,
  delete_report_schedule-Accounted,
}
use app_scan_custom_dashboar.Routes.Templates.{
  DashboardTemplateRequest, ReportTemplateRequest, create_dashboard_template,
  create_report_template, delete_report_template,
}
use app_scan_custom_dashboar.Routes.Templates.Audited.{
  create_dashboard_template-Accounted, create_report_template-Accounted,
  delete_report_template-Accounted,
}

pub data Write : Type 0 where
  new_dashboard : CreateRequest → Write
  change_dashboard : String → UpdateRequest → Write
  remove_dashboard : String → Write
  roll_back : String → ℕ → Write
  new_schedule : ScheduleCreateRequest → Write
  change_schedule : String → ScheduleUpdateRequest → Write
  remove_schedule : String → Write
  new_dashboard_template : DashboardTemplateRequest → Write
  new_report_template : ReportTemplateRequest → Write
  remove_report_template : String → Write

-- The answer is left out.
abbrev finish : {A : Type 0} → Exec A → Exec (Unit {0})
finish m = m >> pure tt

finish-End :
    {A : Type 0} (actor : String) (db : Database) (r : Result A) (w : World)
    → AccountedEnd actor db (r, w)
    → AccountedEnd actor db (continue r (λ (a : A). pure tt) w)
unfolding pure
finish-End actor db (ok a) w h = h
finish-End actor db (err (http_exception status detail)) w h = h
finish-End actor db (err integrity_error) w h = h
finish-End actor db (err (other_error message)) w h = h

finish-Accounted :
    {A : Type 0} (actor : String) (m : Exec A) → Accounted actor m → Accounted actor (finish m)
unfolding ◌>>=◌
finish-Accounted actor m h = record { at = λ w. finish-End actor w.db (m w).0 (m w).1 (h.at w) }

module _ (clock uuid : ℕ → String) (exports_dir : String)
    (write_export : String → Fields → Result ℕ) (next_run : String → String → Result String)
    (valid_cron : String → Bool) where
  unfoldable pub serve_write : UserContext → Write → Exec (Unit {0})
  serve_write user (new_dashboard payload) = finish (create_dashboard clock uuid user payload)
  serve_write user (change_dashboard id payload) =
      finish (update_dashboard clock uuid user id payload)
  serve_write user (remove_dashboard id) = finish (delete_dashboard clock uuid user id)
  serve_write user (roll_back id version) =
      finish (rollback_dashboard_version clock uuid user id version)
  serve_write user (new_schedule payload) =
      finish (
        create_report_schedule clock uuid exports_dir write_export next_run valid_cron user payload)
  serve_write user (change_schedule id payload) = finish (
      update_report_schedule clock uuid exports_dir write_export next_run valid_cron user id
        payload)
  serve_write user (remove_schedule id) =
      finish
        (delete_report_schedule clock uuid exports_dir write_export next_run valid_cron user id)
  serve_write user (new_dashboard_template payload) =
      finish (create_dashboard_template clock uuid user payload)
  serve_write user (new_report_template payload) =
      finish (create_report_template clock uuid user payload)
  serve_write user (remove_report_template id) = finish (delete_report_template clock uuid user id)

  -- These ten requests are accounted for in the audit log: to create, update, delete and roll back a
  -- dashboard, to create, update and delete a report schedule, to create a dashboard template, and to
  -- create and delete a report template. A call that returns has added one audit event of the user behind the old ones; one that answers with
  -- an HTTP error has not changed the database; one that ends with another exception has added no
  -- audit event.
  pub serve_write-Accounted :
      (user : UserContext) (request : Write) → Accounted user.subject (serve_write user request)
  unfolding serve_write
  serve_write-Accounted user (new_dashboard payload) =
      finish-Accounted user.subject _ (create_dashboard-Accounted clock uuid user payload)
  serve_write-Accounted user (change_dashboard id payload) =
      finish-Accounted user.subject _ (update_dashboard-Accounted clock uuid user id payload)
  serve_write-Accounted user (remove_dashboard id) =
      finish-Accounted user.subject _ (delete_dashboard-Accounted clock uuid user id)
  serve_write-Accounted user (roll_back id version) =
      finish-Accounted user.subject _
        (rollback_dashboard_version-Accounted clock uuid user id version)
  serve_write-Accounted user (new_schedule payload) = finish-Accounted user.subject _ (
      create_report_schedule-Accounted clock uuid exports_dir write_export next_run valid_cron user
        payload)
  serve_write-Accounted user (change_schedule id payload) = finish-Accounted user.subject _ (
      update_report_schedule-Accounted clock uuid exports_dir write_export next_run valid_cron user
        id payload)
  serve_write-Accounted user (remove_schedule id) = finish-Accounted user.subject _ (
      delete_report_schedule-Accounted clock uuid exports_dir write_export next_run valid_cron user
        id)
  serve_write-Accounted user (new_dashboard_template payload) =
      finish-Accounted user.subject _ (create_dashboard_template-Accounted clock uuid user payload)
  serve_write-Accounted user (new_report_template payload) =
      finish-Accounted user.subject _ (create_report_template-Accounted clock uuid user payload)
  serve_write-Accounted user (remove_report_template id) =
      finish-Accounted user.subject _ (delete_report_template-Accounted clock uuid user id)
