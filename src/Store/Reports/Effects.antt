-- ===== src/Store/Reports/Effects.antt =====
-- How the schedule operations of backend/app/repositories/postgres_store.py treat the audit log.
use app_scan_custom_dashboar.Base.{
  ℕ, String, refl, ap, Bool, Option, Bool-cases, inl, inr, Option-cases,
}
use app_scan_custom_dashboar.Errors.{require}
use app_scan_custom_dashboar.Store.Table.{insert_row, has_row, find_row, delete_rows-missing}
use app_scan_custom_dashboar.Store.Exec.{
  ReportSchedule, Database, write_new, utc_now, or_raise, lift, ◌>>=◌,
}
use app_scan_custom_dashboar.Store.Exec.Accounts.{
  Careful, Silent, SameAudit, Silent-bind, Silent-utc_now, Silent-write_new, Silent-pure,
}
use app_scan_custom_dashboar.Store.Reports.{
  schedule_key, ScheduleChange, insert_schedule, create_report_schedule, update_schedule_found,
  update_report_schedule, delete_report_schedule,
}

insert_schedule-SameAudit :
    (s : ReportSchedule) (db : Database) → SameAudit db (insert_schedule s db)
unfolding insert_schedule insert_row
insert_schedule-SameAudit s db = elim (Bool-cases (has_row schedule_key s.id db.report_schedules)) [
  | inl taken ↦ rw (taken, SameAudit) tt
  | inr free ↦ rw (free, SameAudit) refl
]

pub create_report_schedule-Silent :
    (clock : ℕ → String) (id name : String) (template_id : Option String) (cron format : String)
    (enabled : Bool) (next : Option String) (by : String)
    → Silent (create_report_schedule clock id name template_id cron format enabled next by)
unfolding create_report_schedule
create_report_schedule-Silent clock id name template_id cron format enabled next by =
    Silent-bind (utc_now clock) _ (Silent-utc_now clock) λ now.
      Silent-bind (write_new (insert_schedule _)) _
        (Silent-write_new _ (insert_schedule-SameAudit _)) (λ _. Silent-pure _)

pub update_schedule_or_404-Careful :
    (clock : ℕ → String) (id : String) (change : ScheduleChange) (detail : String)
    → Careful (update_report_schedule clock id change >>= or_raise 404 detail)
unfolding update_report_schedule update_schedule_found ◌>>=◌ utc_now
update_schedule_or_404-Careful clock id change detail = record {
  at = λ w. elim (Option-cases (find_row schedule_key id w.db.report_schedules)) [
    | inl missing ↦ rw missing refl
    | inr (s, there) ↦ rw there refl
  ];
}

pub delete_schedule_or_404-Careful :
    (id detail : String)
    → Careful (delete_report_schedule id >>= λ deleted. lift (require deleted 404 detail))
unfolding delete_report_schedule ◌>>=◌
delete_schedule_or_404-Careful id detail = record {
  at = λ w. elim (Bool-cases (has_row schedule_key id w.db.report_schedules)) [
    | inl there ↦ rw there refl
    | inr missing ↦ rw missing (
        ap (λ rows. record (w.db) { report_schedules = rows })
          (delete_rows-missing schedule_key id w.db.report_schedules missing))
  ];
}
