-- ===== src/Workers/Scheduler/Apart.antt =====
-- What the scheduler of backend/app/workers/report_scheduler.py leaves alone.
use app_scan_custom_dashboar.Base.{
  ℕ, String, ◌≡◌, ◌≢◌, refl, ◌∙◌, Bool, true, false, List, [], ◌∷◌, map, arith, eq_iff,
}
use app_scan_custom_dashboar.Json.{Fields}
use app_scan_custom_dashboar.Errors.{Exception, Result, ok, err}
use app_scan_custom_dashboar.Store.Table.{find_row, update_rows, find_row-update_rows}
use app_scan_custom_dashboar.Store.Exec.{ReportSchedule, Database, World, Exec}
use app_scan_custom_dashboar.Store.Exec.Keeps.{Keeps, keeps_rules}
use app_scan_custom_dashboar.Store.Reports.{schedule_key, list_due_report_schedules}
use app_scan_custom_dashboar.Store.Reports.Apart.{
  IsApart, append_report_history-Keeps, upsert_report_artifact-Keeps, update_report_schedule-Keeps,
  append_report_audit-Keeps,
}
use app_scan_custom_dashboar.Workers.Scheduler.{
  SchedulerSettings, create_report_artifact, compute_next_run, execute_schedule, retry_at,
  retry_schedule, run_schedule, run_schedules, scheduler_turn, try_except, on_failure,
}

module _ (P : Database → Type 0) where
  try_except-Keeps :
      {A : Type 0} (m : Exec A) (handler : Exception → Exec A)
      → Keeps P m
      → ((e : Exception) → Keeps P (handler e))
      → Keeps P (try_except m handler)
  unfolding try_except
  try_except-Keeps {A} m handler hm hh = record { at = λ w h. ends (m w) (hm.at w h) }
    where
      ends : (r : Result A × World) → P r.1.db → P (on_failure handler r).1.db
      ends (ok a, w) h = h
      ends (err e, w) h = (hh e).at w h

-- The parts of the database that are no business of the scheduler, and the ids of the schedules.
pub record SameRest (old db : Database) : Type 0 where
  pub dashboards : db.dashboards ≡ old.dashboards
  pub versions : db.dashboard_versions ≡ old.dashboard_versions
  pub templates : db.dashboard_templates ≡ old.dashboard_templates
  pub report_templates : db.report_templates ≡ old.report_templates
  pub snapshots : db.analytics_snapshots ≡ old.analytics_snapshots
  pub ids : map schedule_key db.report_schedules ≡ map schedule_key old.report_schedules

map-key-update_rows :
    (id : String) (f : ReportSchedule → ReportSchedule) (rows : List ReportSchedule)
    → ((s : ReportSchedule) → (f s).id ≡ s.id)
    → map schedule_key (update_rows schedule_key id f rows) ≡ map schedule_key rows
unfolding update_rows
map-key-update_rows id f [] same = refl
map-key-update_rows id f (s ∷ rows) same =
    ground (arith, same s, map-key-update_rows id f rows same)

SameRest-IsApart : (old : Database) (id : String) → IsApart (SameRest old) id
SameRest-IsApart old id = record {
  history = λ db rows h. record {
    dashboards = h.dashboards;
    versions = h.versions;
    templates = h.templates;
    report_templates = h.report_templates;
    snapshots = h.snapshots;
    ids = h.ids;
  };
  artifacts = λ db rows h. record {
    dashboards = h.dashboards;
    versions = h.versions;
    templates = h.templates;
    report_templates = h.report_templates;
    snapshots = h.snapshots;
    ids = h.ids;
  };
  audit = λ db rows h. record {
    dashboards = h.dashboards;
    versions = h.versions;
    templates = h.templates;
    report_templates = h.report_templates;
    snapshots = h.snapshots;
    ids = h.ids;
  };
  schedules = λ db f same h. record {
    dashboards = h.dashboards;
    versions = h.versions;
    templates = h.templates;
    report_templates = h.report_templates;
    snapshots = h.snapshots;
    ids = map-key-update_rows id f db.report_schedules same ∙ h.ids;
  };
}

module _ (clock uuid : ℕ → String) (settings : SchedulerSettings) (exports_dir : String)
    (write_export : String → Fields → Result ℕ) (next_run : String → String → Result String)
    (add_seconds : String → ℕ → String) (message_of : Exception → String) where
  module _ (P : Database → Type 0) (schedule : ReportSchedule) (apart : IsApart P schedule.id) where
    create_report_artifact-Keeps :
        (report_id : String) (payload : Fields)
        → Keeps P (
            create_report_artifact clock uuid settings exports_dir write_export next_run add_seconds
              message_of report_id payload)
    unfolding create_report_artifact
    create_report_artifact-Keeps report_id payload =
        search (keeps_rules, upsert_report_artifact-Keeps P schedule.id apart clock)

    compute_next_run-Keeps :
        (cron : String)
        → Keeps P (
            compute_next_run clock uuid settings exports_dir write_export next_run add_seconds
              message_of cron)
    unfolding compute_next_run
    compute_next_run-Keeps cron = search keeps_rules

    execute_schedule-Keeps : Keeps P (
        execute_schedule clock uuid settings exports_dir write_export next_run add_seconds
          message_of schedule)
    unfolding execute_schedule
    execute_schedule-Keeps =
        search
          (
            keeps_rules,
            append_report_history-Keeps P schedule.id apart clock,
            create_report_artifact-Keeps,
            compute_next_run-Keeps,
            update_report_schedule-Keeps P schedule.id apart clock,
            append_report_audit-Keeps P schedule.id apart clock,
          )
          depth 30

    retry_at-Keeps :
        (is_maxed : Bool) (retry_count : ℕ)
        → Keeps P (
            retry_at clock uuid settings exports_dir write_export next_run add_seconds message_of
              is_maxed retry_count)
    unfolding retry_at
    retry_at-Keeps true retry_count = search keeps_rules
    retry_at-Keeps false retry_count = search keeps_rules

    retry_schedule-Keeps :
        (e : Exception)
        → Keeps P (
            retry_schedule clock uuid settings exports_dir write_export next_run add_seconds
              message_of schedule e)
    unfolding retry_schedule
    retry_schedule-Keeps e =
        search
          (
            keeps_rules,
            retry_at-Keeps,
            update_report_schedule-Keeps P schedule.id apart clock,
            append_report_audit-Keeps P schedule.id apart clock,
          )
          depth 24

    run_schedule-Keeps : Keeps P (
        run_schedule clock uuid settings exports_dir write_export next_run add_seconds message_of
          schedule)
    unfolding run_schedule
    run_schedule-Keeps = try_except-Keeps P _ _ execute_schedule-Keeps retry_schedule-Keeps

  -- Running one schedule, whether it succeeds or not, leaves the row of every other schedule as it was.
  pub run_schedule-find_row :
      (schedule : ReportSchedule) (j : String) (w : World)
      → schedule.id ≢ j
      → find_row schedule_key j
          (run_schedule clock uuid settings exports_dir write_export next_run add_seconds message_of
            schedule w).1.db.report_schedules
        ≡ find_row schedule_key j w.db.report_schedules
  run_schedule-find_row schedule j w other =
      (run_schedule-Keeps
          (λ db.
            find_row schedule_key j db.report_schedules
            ≡ find_row schedule_key j w.db.report_schedules)
          schedule
          (record {
            history = λ db rows h. h;
            artifacts = λ db rows h. h;
            audit = λ db rows h. h;
            schedules = λ db f same h.
                find_row-update_rows schedule_key schedule.id j f db.report_schedules same
                ∙ ground (arith, eq_iff schedule.id j, h);
          })).at
        w refl

  run_schedules-Keeps :
      (P : Database → Type 0)
      → ((id : String) → IsApart P id)
      → (schedules : List ReportSchedule)
      → Keeps P (
          run_schedules clock uuid settings exports_dir write_export next_run add_seconds message_of
            schedules)
  unfolding run_schedules
  run_schedules-Keeps P apart [] = search keeps_rules
  run_schedules-Keeps P apart (schedule ∷ rest) = search (
    keeps_rules,
    run_schedule-Keeps P schedule (apart schedule.id),
    run_schedules-Keeps P apart rest,
  )

  scheduler_turn-Keeps :
      (P : Database → Type 0)
      → ((id : String) → IsApart P id)
      → Keeps P (
          scheduler_turn clock uuid settings exports_dir write_export next_run add_seconds
            message_of)
  unfolding scheduler_turn list_due_report_schedules
  scheduler_turn-Keeps P apart = search (keeps_rules, run_schedules-Keeps P apart)

  -- A turn of the scheduler, whatever fails in it, changes no dashboard, version, template of either kind or
  -- analytics snapshot, and adds, removes and reorders no schedule.
  pub scheduler_turn-SameRest :
      (w : World)
      → SameRest w.db
          (scheduler_turn clock uuid settings exports_dir write_export next_run add_seconds
            message_of w).1.db
  scheduler_turn-SameRest w =
      (scheduler_turn-Keeps (SameRest w.db) (SameRest-IsApart w.db)).at w (record {
        dashboards = refl;
        versions = refl;
        templates = refl;
        report_templates = refl;
        snapshots = refl;
        ids = refl;
      })
