-- ===== src/Store/Reports/Apart.antt =====
-- What the report operations of backend/app/repositories/postgres_store.py leave alone.
use app_scan_custom_dashboar.Base.{
  ℕ, String, ◌≡◌, refl, Option, none, some, List, Bool-cases, inl, inr,
}
use app_scan_custom_dashboar.Json.{Fields}
use app_scan_custom_dashboar.Store.Table.{has_row, insert_row}
use app_scan_custom_dashboar.Store.Exec.{
  ReportHistory, ReportSchedule, ReportArtifact, AuditEvent, Database, write,
}
use app_scan_custom_dashboar.Store.Exec.Keeps.{
  Keeps, KeptBy, Keeps-write, Keeps-write_new, keeps_rules,
}
use app_scan_custom_dashboar.Store.Audit.{append_audit_event}
use app_scan_custom_dashboar.Store.Audit.Event.{append_audit_event-Keeps}
use app_scan_custom_dashboar.Store.Reports.{
  history_key, insert_history, append_report_history, upsert_report_artifact,
  update_report_schedule, update_schedule_found, ScheduleChange, set_schedule, changed_schedule,
}

-- A property of the database in which a run of the schedule has no part.
pub record IsApart (P : Database → Type 0) (id : String) : Type 0 where
  pub history :
      (db : Database) (rows : List ReportHistory) → P db → P (record db { report_history = rows })
  pub artifacts :
      (db : Database) (rows : List ReportArtifact)
      → P db
      → P (record db { report_artifacts = rows })
  pub audit :
      (db : Database) (rows : List AuditEvent) → P db → P (record db { audit_events = rows })
  pub schedules :
      (db : Database) (f : ReportSchedule → ReportSchedule)
      → ((s : ReportSchedule) → (f s).id ≡ s.id)
      → P db
      → P (set_schedule id f db)

module _ (P : Database → Type 0) (id : String) (apart : IsApart P id) where
  insert_history-KeptBy :
      (r : ReportHistory) (db : Database) → P db → KeptBy P (insert_history r db)
  unfolding insert_history insert_row
  insert_history-KeptBy r db h = elim (Bool-cases (has_row history_key r.id db.report_history)) [
    | inl taken ↦ rw (taken, KeptBy) tt
    | inr free ↦ rw (free, KeptBy) (apart.history db _ h)
  ]

  module _ (clock : ℕ → String) where
    pub append_report_history-Keeps :
        (report_id report_name output_format status requested_by : String) (filters : Fields)
        (message : String)
        → Keeps P (
            append_report_history clock report_id report_name output_format status requested_by
              filters message)
    unfolding append_report_history
    append_report_history-Keeps report_id report_name output_format status requested_by filters
          message =
        search (keeps_rules, Keeps-write_new, insert_history-KeptBy)

    pub upsert_report_artifact-Keeps :
        (report_id file_name file_path mime_type : String) (size_bytes : ℕ)
        → Keeps P (upsert_report_artifact clock report_id file_name file_path mime_type size_bytes)
    unfolding upsert_report_artifact
    upsert_report_artifact-Keeps report_id file_name file_path mime_type size_bytes =
        search (keeps_rules, Keeps-write, apart.artifacts)

    set_schedule-Keeps :
        (change : ScheduleChange) (now : String)
        → Keeps P (write (set_schedule id (changed_schedule change now)))
    unfolding changed_schedule
    set_schedule-Keeps change now = Keeps-write _ (λ db. apart.schedules db _ (λ s. refl))

    update_schedule_found-Keeps :
        (change : ScheduleChange) (o : Option ReportSchedule)
        → Keeps P (update_schedule_found clock id change o)
    unfolding update_schedule_found
    update_schedule_found-Keeps change none = search keeps_rules
    update_schedule_found-Keeps change (some s) = search (keeps_rules, set_schedule-Keeps)

    pub update_report_schedule-Keeps :
        (change : ScheduleChange) → Keeps P (update_report_schedule clock id change)
    unfolding update_report_schedule
    update_report_schedule-Keeps change = search (keeps_rules, update_schedule_found-Keeps)

    pub append_report_audit-Keeps :
        (event_id actor action resource_type resource_id : String) (details : Fields)
        → Keeps P (append_audit_event clock event_id actor action resource_type resource_id details)
    append_report_audit-Keeps event_id actor action resource_type resource_id details =
        append_audit_event-Keeps P clock event_id actor action resource_type resource_id details
          apart.audit
