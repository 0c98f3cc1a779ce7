-- ===== src/Routes/Dashboard.antt =====
-- The dashboard routes of backend/app/api/v1/routes/dashboard.py, without templates and the wizard.
pub mod Audited
pub mod Numbering
pub mod Outcomes
use app_scan_custom_dashboar.Base.{
  ℕ, String, ◌<>◌, Bool, true, false, not, Option, none, some, List, [], ◌∷◌, if◌then◌else◌, length,
  pos, decimal,
}
use app_scan_custom_dashboar.Json.{
  Value, Fields, null, int, text, arr, obj, nil, end, field, text_items, has_fields,
}
use app_scan_custom_dashboar.Errors.{Result, require}
use app_scan_custom_dashboar.Security.Policy.{assert_action_allowed}
use app_scan_custom_dashboar.Security.Session.{UserContext}
use app_scan_custom_dashboar.Store.Exec.{
  Dashboard, DashboardVersion, World, Exec, pure, lift, or_raise, uuid_hex, ◌>>=◌, ◌>>◌,
}
use app_scan_custom_dashboar.Store.Audit.{append_audit_event}
use app_scan_custom_dashboar.Store.Dashboards as Rows

abbrev not_found : String
not_found = "Dashboard not found"

pub record CreateRequest : Type 0 where
  pub name : String
  pub widgets : List Fields
  pub blueprint : Option Fields

pub record UpdateRequest : Type 0 where
  pub name : Option String
  pub widgets : Option (List Fields)
  pub blueprint : Option Fields

number : ℕ → Value
number n = int (pos n)

pub draft_blueprint : UserContext → Fields
unfolding number
draft_blueprint user = field "status" (text "draft") (
    field "visibility" (text "team") (
      field "asset_group_ids" (arr (text_items user.asset_group_ids)) (
        field "layout" (obj (field "columns" (number 12) (field "items" (arr nil) end)))
          (field "version" (number 1) end))))

-- `payload.blueprint or {…}`: an empty blueprint counts as none.
pub blueprint_or_draft : UserContext → Option Fields → Fields
blueprint_or_draft user none = draft_blueprint user
blueprint_or_draft user (some b) = if has_fields b then b else draft_blueprint user

optional_name : Option Dashboard → Value
optional_name none = null
optional_name (some d) = text d.name

module _ (clock uuid : ℕ → String) (user : UserContext) where
  -- `append_audit_event` with a fresh id, for the user.
  audit : String → String → Fields → Exec (Unit {0})
  audit action resource_id details = do
    hex ← uuid_hex uuid 10
    append_audit_event clock ("ae-" <> hex) user.subject action "dashboard" resource_id details
    pure tt

  -- `append_dashboard_version` with a fresh id.
  record_version : String → String → List Fields → String → String → Exec (Unit {0})
  record_version dashboard_id name widgets owner change_note = do
    hex ← uuid_hex uuid 10
    Rows.append_dashboard_version clock ("dv-" <> hex) dashboard_id name widgets owner change_note
    pure tt

  unfoldable pub list_dashboards : Exec (List Dashboard)
  list_dashboards = do
    lift (assert_action_allowed "view_dashboards" user.role)
    Rows.list_dashboards

  unfoldable pub create_dashboard : CreateRequest → Exec Dashboard
  unfolding audit record_version blueprint_or_draft number
  create_dashboard payload = do
    lift (assert_action_allowed "create_dashboard" user.role)
    hex ← uuid_hex uuid 8
    let dashboard_id = "d-" <> hex
    let blueprint = blueprint_or_draft user payload.blueprint
    row ←
        Rows.create_dashboard clock dashboard_id payload.name payload.widgets user.subject
          (some blueprint)
    record_version dashboard_id payload.name payload.widgets user.subject "initial creation"
    audit "dashboard.create" dashboard_id (
        field "name" (text payload.name)
          (field "widget_count" (number (length payload.widgets)) end))
    pure row

  unfoldable pub update_dashboard : String → UpdateRequest → Exec Dashboard
  unfolding audit record_version optional_name number
  update_dashboard dashboard_id payload = do
    lift (assert_action_allowed "update_dashboard" user.role)
    before ← Rows.get_dashboard dashboard_id
    found ← Rows.update_dashboard clock dashboard_id payload.name payload.widgets payload.blueprint
    existing ← or_raise 404 not_found found
    record_version dashboard_id existing.name existing.widgets existing.owner
        "metadata/layout update"
    audit "dashboard.update" dashboard_id (
        field "before_name" (optional_name before) (
          field "after_name" (text existing.name)
            (field "widget_count" (number (length existing.widgets)) end)))
    pure existing

  unfoldable pub delete_dashboard : String → Exec Fields
  unfolding audit
  delete_dashboard dashboard_id = do
    lift (assert_action_allowed "delete_dashboard" user.role)
    deleted ← Rows.delete_dashboard dashboard_id
    lift (require deleted 404 not_found)
    audit "dashboard.delete" dashboard_id end
    pure (field "status" (text "deleted") (field "id" (text dashboard_id) end))

  unfoldable pub list_dashboard_versions : String → Exec (List DashboardVersion)
  list_dashboard_versions dashboard_id = do
    lift (assert_action_allowed "view_dashboards" user.role)
    found ← Rows.get_dashboard dashboard_id
    or_raise 404 not_found found
    Rows.list_dashboard_versions dashboard_id 30

  unfoldable pub rollback_dashboard_version : String → ℕ → Exec Dashboard
  unfolding audit record_version number
  rollback_dashboard_version dashboard_id version = do
    lift (assert_action_allowed "create_dashboard" user.role)
    found ← Rows.get_dashboard dashboard_id
    or_raise 404 not_found found
    wanted ← Rows.get_dashboard_version dashboard_id version
    target ← or_raise 404 "Dashboard version not found" wanted
    changed ← Rows.update_dashboard clock dashboard_id (some target.name) (some target.widgets) none
    updated ← or_raise 404 not_found changed
    record_version dashboard_id updated.name updated.widgets updated.owner
        ("rollback to v" <> decimal version)
    audit "dashboard.rollback" dashboard_id (field "from_version" (number version) end)
    pure updated
