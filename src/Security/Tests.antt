-- ===== src/Security/Tests.antt =====
-- Runs of backend/app/core/security on concrete users.
use app_scan_custom_dashboar.Base.{
  String, ◌≡◌, ◌≢◌, refl, ◌↔◌, false, Option, some, List, [], ◌∷◌, member, keep, Mem, lookup, sort,
  distinct, insert_sorted, lower,
}
use app_scan_custom_dashboar.Json.{Fields, text, end, field, get, find}
use app_scan_custom_dashboar.Errors.{ok}
use app_scan_custom_dashboar.Security.Policy.{
  allowed_roles, role_action_policy, assert_action_allowed,
}
use app_scan_custom_dashboar.Security.Policy.Roles.{assert_action_allowed_iff}
use app_scan_custom_dashboar.Security.Access.{admin_roles, filter_by_asset_group}
use app_scan_custom_dashboar.Security.Access.Filter.{Visible, mem-filter_by_asset_group}
use app_scan_custom_dashboar.Security.Session.{
  AuthSettings, UserContext, is_oidc, token_payload, get_current_user, login, create_access_token,
  allowed_role_names,
}
use app_scan_custom_dashboar.Security.Session.Claims.{login-get_current_user, not_empty}

assert_action_allowed_iff_example :
    (assert_action_allowed "create_dashboard" "AppOwner" ≡ ok tt)
    ↔ ((rs : List String) × (allowed_roles "create_dashboard" ≡ some rs) × Mem "AppOwner" rs)
assert_action_allowed_iff_example = assert_action_allowed_iff "create_dashboard" "AppOwner"

developer_views_scans : assert_action_allowed "view_scans" "Developer" ≡ ok tt
unfolding assert_action_allowed allowed_roles role_action_policy member lookup
developer_views_scans = refl

abbrev bom_roles : List String
bom_roles = "PlatformAdmin" ∷ "SecurityManager" ∷ []

endpoint_roles : allowed_roles "manage_endpoints" ≡ some bom_roles
unfolding allowed_roles role_action_policy lookup
endpoint_roles = refl

abbrev grouped_item : Fields
grouped_item = field "AssetGroupId" (text "g1") end

abbrev other_item : Fields
other_item = field "AssetGroupId" (text "g2") end

no_admin : member "Developer" admin_roles ≡ false
unfolding member
no_admin = refl

mem-filter_by_asset_group_example :
    Mem grouped_item (
      filter_by_asset_group
        (grouped_item ∷ other_item ∷ [])
        ("g1" ∷ [])
        "Developer"
        ("AssetGroupId" ∷ []))
    ↔ (Mem grouped_item (grouped_item ∷ other_item ∷ [])
        × Visible ("g1" ∷ []) ("AssetGroupId" ∷ []) grouped_item)
mem-filter_by_asset_group_example =
    mem-filter_by_asset_group (grouped_item ∷ other_item ∷ []) ("g1" ∷ []) "Developer"
      ("AssetGroupId" ∷ []) no_admin grouped_item

group_of_item : get "AssetGroupId" grouped_item ≡ text "g1"
unfolding get find
group_of_item = refl

abbrev local : AuthSettings
local = record {
  auth_mode = "local";
  oidc_issuer_url = "";
  oidc_role_claim = "role";
  oidc_asset_groups_claim = "asset_group_ids";
  access_token_expire_minutes = 60;
}

abbrev sign : Fields → String
sign payload = "signed"

abbrev verify : String → Option Fields
verify token = some (token_payload local 7 "ann" "Auditor" ("g1" ∷ "" ∷ []))

abbrev ann : UserContext
ann = record {
  subject = "ann";
  role = "Auditor";
  asset_group_ids = keep not_empty ("g1" ∷ "" ∷ []);
}

logged_in : login sign local 7 "ann" "Auditor" ("g1" ∷ "" ∷ []) ≡ ok "signed"
unfolding login is_oidc lower allowed_role_names member distinct sort insert_sorted
    role_action_policy create_access_token
logged_in = refl

named : ann.subject ≢ ""
named h = cc

cast : ann.role ≢ ""
cast h = cc

login-get_current_user_example : get_current_user verify local "signed" ≡ ok ann
login-get_current_user_example =
    login-get_current_user sign local verify 7 "ann" "Auditor" ("g1" ∷ "" ∷ []) "signed" named cast
      logged_in refl

ann_enters : get_current_user verify local "signed" ≡ ok ann
ann_enters =
    login-get_current_user sign local verify 7 "ann" "Auditor" ("g1" ∷ "" ∷ []) "signed" named cast
      logged_in refl
