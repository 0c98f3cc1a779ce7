-- ===== src/Routes/Templates/Audited.antt =====
-- The template routes of backend/app/api/v1/routes are audited.
use app_scan_custom_dashboar.Base.{ℕ, String, ◌<>◌}
use app_scan_custom_dashboar.Json.{Fields, end, field, text}
use app_scan_custom_dashboar.Errors.{require}
use app_scan_custom_dashboar.Security.Policy.{assert_action_allowed}
use app_scan_custom_dashboar.Security.Session.{UserContext}
use app_scan_custom_dashboar.Store.Exec.{pure, lift, uuid_hex, ◌>>=◌}
use app_scan_custom_dashboar.Store.Exec.Accounts.{
  Accounted, Audited, Quiet-lift, Quiet-uuid_hex, Silent-uuid_hex, Audited-bind, Audited-pure_after,
  Accounted-bind, Accounted-bind-Quiet, Accounted-bind_two, Careful-of_Silent,
}
use app_scan_custom_dashboar.Store.Audit.{append_audit_event}
use app_scan_custom_dashboar.Store.Audit.Event.{append_audit_event-Audited}
use app_scan_custom_dashboar.Store.Templates as Rows
use app_scan_custom_dashboar.Store.Templates.Effects.{
  create_dashboard_template-Silent, create_report_template-Silent, delete_template_or_404-Careful,
}
use app_scan_custom_dashboar.Routes.Templates.{
  DashboardTemplateRequest, ReportTemplateRequest, template_not_found, audit,
  create_dashboard_template, create_report_template, delete_report_template,
}

module _ (clock uuid : ℕ → String) (user : UserContext) where
  audit_then-Audited :
      {A : Type 0} (row : A) (action kind id : String) (details : Fields)
      → Audited user.subject (audit clock uuid user action kind id details >>= λ _. pure row)
  unfolding audit
  audit_then-Audited row action kind id details =
      Audited-pure_after user.subject (audit clock uuid user action kind id details) row (
        Audited-bind user.subject (uuid_hex uuid 10) _ (Silent-uuid_hex uuid 10) λ hex.
          Audited-pure_after user.subject
            (append_audit_event clock ("ae-" <> hex) user.subject action kind id details) tt
            (append_audit_event-Audited clock ("ae-" <> hex) user.subject action kind id details))

  -- Creating a dashboard template: a call that returns has added one audit event of the user
  -- behind the old ones; one that answers with an HTTP error has not changed the database; one that
  -- ends with another exception has added no audit event.
  pub create_dashboard_template-Accounted :
      (payload : DashboardTemplateRequest)
      → Accounted user.subject (create_dashboard_template clock uuid user payload)
  unfolding create_dashboard_template
  create_dashboard_template-Accounted payload =
      Accounted-bind-Quiet user.subject
        (lift (assert_action_allowed "manage_dashboard_templates" user.role)) _ (Quiet-lift _)
        λ _. Accounted-bind-Quiet user.subject (uuid_hex uuid 10) _ (Quiet-uuid_hex uuid 10) λ hex.
          Accounted-bind user.subject
            (Rows.create_dashboard_template clock ("dt-" <> hex) payload.name payload.description
              payload.scope payload.layout payload.widgets payload.visibility user.subject)
            _
            (Careful-of_Silent _ (
              create_dashboard_template-Silent clock ("dt-" <> hex) payload.name payload.description
                payload.scope payload.layout payload.widgets payload.visibility user.subject))
            λ row.
              audit_then-Audited row "dashboard_template.create" "dashboard_template" ("dt-" <> hex)
                _

  -- Creating a report template: a call that returns has added one audit event of the user
  -- behind the old ones; one that answers with an HTTP error has not changed the database; one that
  -- ends with another exception has added no audit event.
  pub create_report_template-Accounted :
      (payload : ReportTemplateRequest)
      → Accounted user.subject (create_report_template clock uuid user payload)
  unfolding create_report_template
  create_report_template-Accounted payload =
      Accounted-bind-Quiet user.subject (lift (assert_action_allowed "generate_report" user.role)) _
        (Quiet-lift _)
        λ _. Accounted-bind-Quiet user.subject (uuid_hex uuid 8) _ (Quiet-uuid_hex uuid 8) λ hex.
          Accounted-bind user.subject
            (Rows.create_report_template clock ("rt-" <> hex) payload.name payload.filters
              user.subject)
            _
            (Careful-of_Silent _ (
              create_report_template-Silent clock ("rt-" <> hex) payload.name payload.filters
                user.subject))
            λ row.
              audit_then-Audited row "report_template.create" "report_template" ("rt-" <> hex) _

  -- Deleting a report template: a call that returns has added one audit event of the user
  -- behind the old ones; one that answers with an HTTP error has not changed the database; one that
  -- ends with another exception has added no audit event.
  pub delete_report_template-Accounted :
      (id : String) → Accounted user.subject (delete_report_template clock uuid user id)
  unfolding delete_report_template
  delete_report_template-Accounted id =
      Accounted-bind-Quiet user.subject (lift (assert_action_allowed "generate_report" user.role)) _
        (Quiet-lift _)
        λ _.
          Accounted-bind_two user.subject (Rows.delete_report_template id)
            (λ deleted. lift (require deleted 404 template_not_found)) _
            (delete_template_or_404-Careful id template_not_found)
            λ _.
              audit_then-Audited (field "status" (text "deleted") (field "id" (text id) end))
                "report_template.delete" "report_template" id end
