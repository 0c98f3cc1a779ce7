-- ===== src/Store/Templates/Effects.antt =====
-- How the template operations of backend/app/repositories/postgres_store.py treat the audit log.
use app_scan_custom_dashboar.Base.{ℕ, String, refl, ap, List, Bool-cases, inl, inr}
use app_scan_custom_dashboar.Json.{Fields}
use app_scan_custom_dashboar.Errors.{require}
use app_scan_custom_dashboar.Store.Table.{insert_row, has_row, delete_rows-missing}
use app_scan_custom_dashboar.Store.Exec.{
  DashboardTemplate, ReportTemplate, Database, write_new, utc_now, lift, ◌>>=◌,
}
use app_scan_custom_dashboar.Store.Exec.Accounts.{
  Careful, Silent, SameAudit, Silent-bind, Silent-utc_now, Silent-write_new, Silent-pure,
}
use app_scan_custom_dashboar.Store.Templates.{
  dashboard_template_key, report_template_key, insert_dashboard_template, insert_report_template,
  create_dashboard_template, create_report_template, delete_report_template,
}

insert_dashboard_template-SameAudit :
    (t : DashboardTemplate) (db : Database) → SameAudit db (insert_dashboard_template t db)
unfolding insert_dashboard_template insert_row
insert_dashboard_template-SameAudit t db =
    elim (Bool-cases (has_row dashboard_template_key t.id db.dashboard_templates)) [
      | inl taken ↦ rw (taken, SameAudit) tt
      | inr free ↦ rw (free, SameAudit) refl
    ]

insert_report_template-SameAudit :
    (t : ReportTemplate) (db : Database) → SameAudit db (insert_report_template t db)
unfolding insert_report_template insert_row
insert_report_template-SameAudit t db =
    elim (Bool-cases (has_row report_template_key t.id db.report_templates)) [
      | inl taken ↦ rw (taken, SameAudit) tt
      | inr free ↦ rw (free, SameAudit) refl
    ]

pub create_dashboard_template-Silent :
    (clock : ℕ → String) (id name description : String) (scope layout : Fields)
    (widgets : List Fields) (visibility by : String)
    → Silent
        (create_dashboard_template clock id name description scope layout widgets visibility by)
unfolding create_dashboard_template
create_dashboard_template-Silent clock id name description scope layout widgets visibility by =
    Silent-bind (utc_now clock) _ (Silent-utc_now clock) λ now.
      Silent-bind (write_new (insert_dashboard_template _)) _
        (Silent-write_new _ (insert_dashboard_template-SameAudit _)) (λ _. Silent-pure _)

pub create_report_template-Silent :
    (clock : ℕ → String) (id name : String) (filters : Fields) (by : String)
    → Silent (create_report_template clock id name filters by)
unfolding create_report_template
create_report_template-Silent clock id name filters by =
    Silent-bind (utc_now clock) _ (Silent-utc_now clock) λ now.
      Silent-bind (write_new (insert_report_template _)) _
        (Silent-write_new _ (insert_report_template-SameAudit _)) (λ _. Silent-pure _)

pub delete_template_or_404-Careful :
    (id detail : String)
    → Careful (delete_report_template id >>= λ deleted. lift (require deleted 404 detail))
unfolding delete_report_template ◌>>=◌
delete_template_or_404-Careful id detail = record {
  at = λ w. elim (Bool-cases (has_row report_template_key id w.db.report_templates)) [
    | inl there ↦ rw there refl
    | inr missing ↦ rw missing (
        ap (λ rows. record (w.db) { report_templates = rows })
          (delete_rows-missing report_template_key id w.db.report_templates missing))
  ];
}
