-- ===== src/Routes/Templates.antt =====
-- The template routes of backend/app/api/v1/routes/reports.py and dashboard.py.
pub mod Audited
use app_scan_custom_dashboar.Base.{ℕ, String, ◌<>◌, List, length, pos}
use app_scan_custom_dashboar.Json.{Value, Fields, int, text, end, field}
use app_scan_custom_dashboar.Errors.{require}
use app_scan_custom_dashboar.Security.Policy.{assert_action_allowed}
use app_scan_custom_dashboar.Security.Session.{UserContext}
use app_scan_custom_dashboar.Store.Exec.{
  DashboardTemplate, ReportTemplate, World, Exec, pure, lift, uuid_hex, ◌>>=◌, ◌>>◌,
}
use app_scan_custom_dashboar.Store.Audit.{append_audit_event}
use app_scan_custom_dashboar.Store.Templates as Rows

pub record DashboardTemplateRequest : Type 0 where
  pub name : String
  pub description : String
  pub scope : Fields
  pub layout : Fields
  pub widgets : List Fields
  pub visibility : String

pub record ReportTemplateRequest : Type 0 where
  pub name : String
  pub filters : Fields

abbrev template_not_found : String
template_not_found = "Report template not found"

module _ (clock uuid : ℕ → String) (user : UserContext) where
  audit : String → String → String → Fields → Exec (Unit {0})
  audit action resource_type resource_id details = do
    hex ← uuid_hex uuid 10
    append_audit_event clock ("ae-" <> hex) user.subject action resource_type resource_id details
    pure tt

  unfoldable pub list_dashboard_templates : Exec (List DashboardTemplate)
  list_dashboard_templates = do
    lift (assert_action_allowed "view_dashboard_templates" user.role)
    Rows.list_dashboard_templates

  unfoldable pub create_dashboard_template : DashboardTemplateRequest → Exec DashboardTemplate
  unfolding audit
  create_dashboard_template payload = do
    lift (assert_action_allowed "manage_dashboard_templates" user.role)
    hex ← uuid_hex uuid 10
    row ←
        Rows.create_dashboard_template clock ("dt-" <> hex) payload.name payload.description
          payload.scope payload.layout payload.widgets payload.visibility user.subject
    audit "dashboard_template.create" "dashboard_template" ("dt-" <> hex) (
        field "name" (text payload.name)
          (field "widget_count" (int (pos (length payload.widgets))) end))
    pure row

  unfoldable pub list_report_templates : Exec (List ReportTemplate)
  list_report_templates = do
    lift (assert_action_allowed "view_report_templates" user.role)
    Rows.list_report_templates

  unfoldable pub create_report_template : ReportTemplateRequest → Exec ReportTemplate
  unfolding audit
  create_report_template payload = do
    lift (assert_action_allowed "generate_report" user.role)
    hex ← uuid_hex uuid 8
    row ← Rows.create_report_template clock ("rt-" <> hex) payload.name payload.filters user.subject
    audit "report_template.create" "report_template" ("rt-" <> hex)
        (field "name" (text payload.name) end)
    pure row

  unfoldable pub delete_report_template : String → Exec Fields
  unfolding audit
  delete_report_template template_id = do
    lift (assert_action_allowed "generate_report" user.role)
    deleted ← Rows.delete_report_template template_id
    lift (require deleted 404 template_not_found)
    audit "report_template.delete" "report_template" template_id end
    pure (field "status" (text "deleted") (field "id" (text template_id) end))
