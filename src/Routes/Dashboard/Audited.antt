-- ===== src/Routes/Dashboard/Audited.antt =====
-- Every route of backend/app/api/v1/routes/dashboard.py that changes a dashboard is audited.
use app_scan_custom_dashboar.Base.{ℕ, String, ◌<>◌, some, none, List, decimal}
use app_scan_custom_dashboar.Json.{Fields, end, field, text}
use app_scan_custom_dashboar.Errors.{require}
use app_scan_custom_dashboar.Security.Policy.{assert_action_allowed}
use app_scan_custom_dashboar.Security.Session.{UserContext}
use app_scan_custom_dashboar.Store.Exec.{pure, lift, or_raise, uuid_hex, ◌>>◌}
use app_scan_custom_dashboar.Store.Exec.Accounts.{
  Accounted, Audited, Silent, Silent-bind, Silent-pure, Silent-uuid_hex, Audited-bind,
  Audited-pure_after, Accounted-bind, Accounted-bind-Quiet, Accounted-bind_two, Careful-of_Silent,
  Quiet-lift, Quiet-gets, Quiet-or_raise, Quiet-uuid_hex,
}
use app_scan_custom_dashboar.Store.Audit.{append_audit_event}
use app_scan_custom_dashboar.Store.Audit.Event.{append_audit_event-Audited}
use app_scan_custom_dashboar.Store.Dashboards as Rows
use app_scan_custom_dashboar.Store.Dashboards.Effects.{
  create_dashboard-Silent, append_dashboard_version-Silent, update_or_404-Careful,
  delete_or_404-Careful,
}
use app_scan_custom_dashboar.Routes.Dashboard.{
  CreateRequest, UpdateRequest, not_found, blueprint_or_draft, audit, record_version,
  create_dashboard, update_dashboard, delete_dashboard, rollback_dashboard_version,
}

module _ (clock uuid : ℕ → String) (user : UserContext) where
  audit-Audited :
      (action resource_id : String) (details : Fields)
      → Audited user.subject (audit clock uuid user action resource_id details)
  unfolding audit
  audit-Audited action resource_id details =
      Audited-bind user.subject (uuid_hex uuid 10) _ (Silent-uuid_hex uuid 10) λ hex.
        Audited-pure_after user.subject
          (append_audit_event clock ("ae-" <> hex) user.subject action "dashboard" resource_id
            details)
          tt
          (append_audit_event-Audited clock ("ae-" <> hex) user.subject action "dashboard"
            resource_id details)

  record_version-Silent :
      (id name : String) (widgets : List Fields) (owner note : String)
      → Silent (record_version clock uuid user id name widgets owner note)
  unfolding record_version
  record_version-Silent id name widgets owner note =
      Silent-bind (uuid_hex uuid 10) _ (Silent-uuid_hex uuid 10) λ hex.
        Silent-bind (Rows.append_dashboard_version clock ("dv-" <> hex) id name widgets owner note)
          _ (append_dashboard_version-Silent clock ("dv-" <> hex) id name widgets owner note)
          (λ _. Silent-pure tt)

  -- The end of the routes that write a version: the version, the audit event, the row.
  finish-Audited :
      {A : Type 0} (row : A) (id name : String) (widgets : List Fields) (owner note action : String)
      (details : Fields)
      → Audited user.subject (do
        record_version clock uuid user id name widgets owner note
        audit clock uuid user action id details
        pure row)
  finish-Audited row id name widgets owner note action details =
      Audited-bind user.subject (record_version clock uuid user id name widgets owner note) _
        (record_version-Silent id name widgets owner note)
        λ _.
          Audited-pure_after user.subject (audit clock uuid user action id details) row
            (audit-Audited action id details)

  -- Creating a dashboard: a call that returns has added one audit event of the user behind the old
  -- ones; one that answers with an HTTP error has not changed the database; one that ends with an
  -- integrity error has added no audit event.
  pub create_dashboard-Accounted :
      (payload : CreateRequest) → Accounted user.subject (create_dashboard clock uuid user payload)
  unfolding create_dashboard
  create_dashboard-Accounted payload =
      Accounted-bind-Quiet user.subject (lift (assert_action_allowed "create_dashboard" user.role))
        _ (Quiet-lift _)
        λ _. Accounted-bind-Quiet user.subject (uuid_hex uuid 8) _ (Quiet-uuid_hex uuid 8) λ hex.
          Accounted-bind user.subject
            (Rows.create_dashboard clock ("d-" <> hex) payload.name payload.widgets user.subject
              (some (blueprint_or_draft user payload.blueprint)))
            _
            (Careful-of_Silent _ (
              create_dashboard-Silent clock ("d-" <> hex) payload.name payload.widgets user.subject
                (some (blueprint_or_draft user payload.blueprint))))
            λ row.
              finish-Audited row ("d-" <> hex) payload.name payload.widgets user.subject
                "initial creation" "dashboard.create" _

  -- Updating a dashboard: a call that returns has added one audit event of the user
  -- behind the old ones; one that answers with an HTTP error has not changed the database; one that
  -- ends with another exception has added no audit event.
  pub update_dashboard-Accounted :
      (id : String) (payload : UpdateRequest)
      → Accounted user.subject (update_dashboard clock uuid user id payload)
  unfolding update_dashboard Rows.get_dashboard
  update_dashboard-Accounted id payload =
      Accounted-bind-Quiet user.subject (lift (assert_action_allowed "update_dashboard" user.role))
        _ (Quiet-lift _)
        λ _. Accounted-bind-Quiet user.subject (Rows.get_dashboard id) _ (Quiet-gets _) λ before.
          Accounted-bind_two user.subject
            (Rows.update_dashboard clock id payload.name payload.widgets payload.blueprint)
            (or_raise 404 not_found) _
            (update_or_404-Careful clock id payload.name payload.widgets payload.blueprint
              not_found)
            λ row.
              finish-Audited row id row.name row.widgets row.owner "metadata/layout update"
                "dashboard.update" _

  -- Deleting a dashboard: a call that returns has added one audit event of the user
  -- behind the old ones; one that answers with an HTTP error has not changed the database; one that
  -- ends with another exception has added no audit event.
  pub delete_dashboard-Accounted :
      (id : String) → Accounted user.subject (delete_dashboard clock uuid user id)
  unfolding delete_dashboard
  delete_dashboard-Accounted id =
      Accounted-bind-Quiet user.subject (lift (assert_action_allowed "delete_dashboard" user.role))
        _ (Quiet-lift _)
        λ _.
          Accounted-bind_two user.subject (Rows.delete_dashboard id)
            (λ deleted. lift (require deleted 404 not_found)) _ (delete_or_404-Careful id not_found)
            λ _.
              Audited-pure_after user.subject (audit clock uuid user "dashboard.delete" id end)
                (field "status" (text "deleted") (field "id" (text id) end))
                (audit-Audited "dashboard.delete" id end)

  -- Rolling a dashboard back: a call that returns has added one audit event of the user
  -- behind the old ones; one that answers with an HTTP error has not changed the database; one that
  -- ends with another exception has added no audit event.
  pub rollback_dashboard_version-Accounted :
      (id : String) (version : ℕ)
      → Accounted user.subject (rollback_dashboard_version clock uuid user id version)
  unfolding rollback_dashboard_version Rows.get_dashboard Rows.get_dashboard_version
  rollback_dashboard_version-Accounted id version =
      Accounted-bind-Quiet user.subject (lift (assert_action_allowed "create_dashboard" user.role))
        _ (Quiet-lift _)
        λ _. Accounted-bind-Quiet user.subject (Rows.get_dashboard id) _ (Quiet-gets _) λ found.
          Accounted-bind-Quiet user.subject (or_raise 404 not_found found) _
            (Quiet-or_raise 404 not_found found)
            λ _.
              Accounted-bind-Quiet user.subject (Rows.get_dashboard_version id version) _
                (Quiet-gets _)
                λ wanted.
                  Accounted-bind-Quiet user.subject
                    (or_raise 404 "Dashboard version not found" wanted) _
                    (Quiet-or_raise 404 "Dashboard version not found" wanted)
                    λ target.
                      Accounted-bind_two user.subject
                        (Rows.update_dashboard clock id (some target.name) (some target.widgets)
                          none)
                        (or_raise 404 not_found) _
                        (update_or_404-Careful clock id (some target.name) (some target.widgets)
                          none not_found)
                        λ row.
                          finish-Audited row id row.name row.widgets row.owner
                            ("rollback to v" <> decimal version) "dashboard.rollback" _
