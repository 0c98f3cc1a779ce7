-- ===== src/Security/Access.antt =====
-- Asset-group checks of backend/app/core/security/authorization.py. An item is a dict; the values
-- of a list under a key count one by one.
pub mod Filter
use app_scan_custom_dashboar.Base.{
  String, Bool, true, false, ◌||◌, Option, none, some, List, [], ◌∷◌, ◌++◌, map, if◌then◌else◌,
  member, keep, any_of,
}
use app_scan_custom_dashboar.Json.{Value, Fields, null, arr, get, str, elements}
use app_scan_custom_dashboar.Errors.{Result, require}

abbrev pub admin_roles : List String
admin_roles = "PlatformAdmin" ∷ "SecurityManager" ∷ []

pub assert_asset_group_access : String → List String → Result (Unit {0})
assert_asset_group_access requested permitted =
    require (member requested permitted) 403 "Access denied for asset group"

pub assert_role : List String → String → Result (Unit {0})
assert_role required_roles user_role =
    require (member user_role required_roles) 403 "Insufficient role"

pub has_asset_group_access : Option String → List String → String → Bool
has_asset_group_access none permitted user_role = true
has_asset_group_access (some requested) permitted user_role =
    member user_role admin_roles || member requested permitted

-- The texts under one key: none for a missing key or a null.
raw_values : Value → List String
raw_values null = []
raw_values (arr vs) = map str (elements vs)
raw_values v = str v ∷ []

pub item_values : Fields → List String → List String
unfolding raw_values
item_values item [] = []
item_values item (key ∷ key_names) = raw_values (get key item) ++ item_values item key_names

unfoldable pub filter_by_asset_group :
    List Fields → List String → String → List String → List Fields
unfolding item_values
filter_by_asset_group items permitted user_role key_names =
    if member user_role admin_roles
    then items
    else keep (λ item. any_of (λ value. member value permitted) (item_values item key_names)) items
