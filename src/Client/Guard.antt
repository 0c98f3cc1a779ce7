-- ===== src/Client/Guard.antt =====
-- `_validate_request` and the header helpers of backend/app/integrations/appscan_api/client.py.
pub mod ReadOnly
use app_scan_custom_dashboar.Base.{
  String, ◌<>◌, ◌≡◌, Bool, true, false, not, ◌&&◌, Option, none, some, List, [], ◌∷◌, ◌==◌,
  if◌then◌else◌, upper, member, starts_any, starts, contains, lower,
}
use app_scan_custom_dashboar.Client.Http.{
  ClientError, read_only_violation, Outcome, done, raised, Headers, bearer, key_pair,
}

abbrev pub allowed_methods : List String
allowed_methods = "GET" ∷ "POST" ∷ []

abbrev pub read_only_get_path_prefixes : List String
read_only_get_path_prefixes =
    "/api/v4/Scans" ∷ "/api/v4/Apps" ∷ "/api/v4/AssetGroups" ∷ "/api/v4/Issues" ∷ "/api/v4/Reports"
    ∷ "/api/v4/Account" ∷ "/api/v4/User" ∷ "/api/v4/Roles" ∷ []

abbrev pub auth_login_path : String
auth_login_path = "/api/v4/Account/ApiKeyLogin"

unfoldable pub validate_request : Bool → String → String → Outcome (Unit {0})
validate_request read_only method path =
    let method_upper = upper method in
    if not read_only
    then done tt
    else if not (member method_upper allowed_methods)
    then raised (read_only_violation ("Blocked method in read-only mode: " <> method_upper))
    else if method_upper == "POST" && path == auth_login_path
    then done tt
    else if not (method_upper == "GET")
    then raised (read_only_violation ("Blocked non-read method: " <> method_upper))
    else if not (starts_any path read_only_get_path_prefixes)
    then raised (read_only_violation ("Blocked endpoint not in read allow-list: " <> path))
    else done tt

unfoldable pub asoc_key_pair_header : String → String → String
asoc_key_pair_header key_id key_secret = key_id <> ":" <> key_secret

-- `if token:` is false for None and for the empty text.
unfoldable pub build_auth_headers : Option String → String → String → Headers
unfolding asoc_key_pair_header
build_auth_headers none key_id key_secret = key_pair (asoc_key_pair_header key_id key_secret)
build_auth_headers (some token) key_id key_secret =
    if token == ""
    then key_pair (asoc_key_pair_header key_id key_secret)
    else bearer ("Bearer " <> token)

unfoldable pub is_json_response : String → Bool
is_json_response content_type = contains (lower content_type) "application/json"
