-- ===== src/Security/Policy.antt =====
-- The role policy of backend/app/core/security/policy.py.
pub mod Roles
use app_scan_custom_dashboar.Base.{
  ℕ, String, ◌<>◌, Bool, true, false, Option, none, some, List, [], ◌∷◌, if◌then◌else◌, member,
  lookup, Dict, ◌≡◌, refl,
}
use app_scan_custom_dashboar.Errors.{Result, ok, err, http_exception}

abbrev everyone : List String
everyone = "PlatformAdmin" ∷ "SecurityManager" ∷ "AppOwner" ∷ "Developer" ∷ "Auditor" ∷ []

abbrev builders : List String
builders = "PlatformAdmin" ∷ "SecurityManager" ∷ "AppOwner" ∷ []

abbrev managers : List String
managers = "PlatformAdmin" ∷ "SecurityManager" ∷ []

unfoldable pub role_action_policy : Dict (List String)
role_action_policy =
    ("view_scans", everyone)
    ∷ ("view_applications", everyone)
    ∷ ("view_asset_groups", everyone)
    ∷ ("view_issues", everyone)
    ∷ ("view_analytics", everyone)
    ∷ ("view_dashboards", everyone)
    ∷ ("create_dashboard", builders)
    ∷ ("update_dashboard", builders)
    ∷ ("delete_dashboard", builders)
    ∷ ("view_widget_registry", everyone)
    ∷ ("view_dashboard_templates", everyone)
    ∷ ("manage_dashboard_templates", builders)
    ∷ ("view_report_templates", "PlatformAdmin" ∷ "SecurityManager" ∷ "AppOwner" ∷ "Auditor" ∷ [])
    ∷ ("generate_report", "PlatformAdmin" ∷ "SecurityManager" ∷ "Auditor" ∷ [])
    ∷ ("manage_report_schedules", managers)
    ∷ ("view_audit_events", "PlatformAdmin" ∷ "SecurityManager" ∷ "Auditor" ∷ [])
    ∷ ("view_pipeline_bom", everyone)
    ∷ ("view_endpoints", everyone)
    ∷ ("check_endpoint_status", managers)
    ∷ ("manage_endpoints", managers)
    ∷ []

unfoldable pub allowed_roles : String → Option (List String)
unfolding lookup
allowed_roles action = lookup action role_action_policy

-- `if not allowed_roles` holds for a missing action and for an empty set of roles.
check_roles : String → String → Option (List String) → Result (Unit {0})
check_roles action role none = err (http_exception 500 ("Missing policy action: " <> action))
check_roles action role (some []) = err (http_exception 500 ("Missing policy action: " <> action))
check_roles action role (some (r ∷ rs)) =
    if member role (r ∷ rs)
    then ok tt
    else err (http_exception 403 "Insufficient role for requested action")

unfoldable pub assert_action_allowed : String → String → Result (Unit {0})
unfolding check_roles
assert_action_allowed action user_role = check_roles action user_role (allowed_roles action)
