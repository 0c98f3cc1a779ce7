-- ===== src/Store/Templates.antt =====
-- Dashboard and report templates in backend/app/repositories/postgres_store.py.
pub mod Effects
use app_scan_custom_dashboar.Base.{
  ℕ, String, Bool, true, false, Option, none, some, List, sort, text_le,
}
use app_scan_custom_dashboar.Json.{Fields}
use app_scan_custom_dashboar.Store.Table.{find_row, has_row, insert_row, delete_rows}
use app_scan_custom_dashboar.Store.Exec.{
  DashboardTemplate, ReportTemplate, Database, World, Exec, pure, gets, write, write_new, utc_now,
  ◌>>=◌, ◌>>◌,
}

abbrev pub dashboard_template_key : DashboardTemplate → String
dashboard_template_key t = t.id

abbrev pub report_template_key : ReportTemplate → String
report_template_key t = t.id

insert_dashboard_template : DashboardTemplate → Database → Option Database
insert_dashboard_template t db = elim (insert_row dashboard_template_key t db.dashboard_templates) [
  | none ↦ none
  | some rows ↦ some (record db { dashboard_templates = rows })
]

insert_report_template : ReportTemplate → Database → Option Database
insert_report_template t db = elim (insert_row report_template_key t db.report_templates) [
  | none ↦ none
  | some rows ↦ some (record db { report_templates = rows })
]

unfoldable pub list_dashboard_templates : Exec (List DashboardTemplate)
list_dashboard_templates =
    gets (λ db. sort (λ a b. text_le b.updated_at a.updated_at) db.dashboard_templates)

unfoldable pub get_dashboard_template : String → Exec (Option DashboardTemplate)
get_dashboard_template template_id =
    gets (λ db. find_row dashboard_template_key template_id db.dashboard_templates)

unfoldable pub list_report_templates : Exec (List ReportTemplate)
list_report_templates =
    gets (λ db. sort (λ a b. text_le b.created_at a.created_at) db.report_templates)

module _ (clock : ℕ → String) where
  unfoldable pub create_dashboard_template :
      String
      → String
      → String
      → Fields
      → Fields
      → List Fields
      → String
      → String
      → Exec DashboardTemplate
  unfolding insert_dashboard_template
  create_dashboard_template template_id name description scope layout widgets visibility
        created_by =
      do
        now ← utc_now clock
        let t : DashboardTemplate = record {
          id = template_id;
          name = name;
          description = description;
          scope = scope;
          layout = layout;
          widgets = widgets;
          visibility = visibility;
          created_by = created_by;
          created_at = now;
          updated_at = now;
        }
        write_new (insert_dashboard_template t)
        pure t

  unfoldable pub create_report_template : String → String → Fields → String → Exec ReportTemplate
  unfolding insert_report_template
  create_report_template template_id name filters created_by = do
    now ← utc_now clock
    let t : ReportTemplate = record {
      id = template_id;
      name = name;
      filters = filters;
      created_by = created_by;
      created_at = now;
    }
    write_new (insert_report_template t)
    pure t

-- True if a row was deleted.
unfoldable pub delete_report_template : String → Exec Bool
delete_report_template template_id = do
  there ← gets (λ db. has_row report_template_key template_id db.report_templates)
  write (λ db. record db {
    report_templates = delete_rows report_template_key template_id db.report_templates;
  })
  pure there
