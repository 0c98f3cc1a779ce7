-- ===== src/Security/Session.antt =====
-- Tokens and users: create_access_token and decode_access_token of backend/app/core/security/auth.py
-- outside OIDC key lookup, get_current_user of dependencies.py, and the login route of
-- backend/app/api/v1/routes/auth.py. The JWT library is a parameter.
pub mod Claims
use app_scan_custom_dashboar.Base.{
  ℕ, String, ◌<>◌, ◌≡◌, Bool, true, false, ◌&&◌, ◌||◌, not, Option, none, some, List, [], ◌∷◌, ◌++◌,
  map, ◌==◌, if◌then◌else◌, member, keep, lower, strip, ℤ, pos, ◌+◌, ◌*◌, sort, text_le, distinct,
}
use app_scan_custom_dashboar.Json.{
  Value, Fields, text, int, arr, nil, end, field, get_or, str, elements, text_items,
}
use app_scan_custom_dashboar.Errors.{Result, ok, err, http_exception}
use app_scan_custom_dashboar.Security.Policy.{role_action_policy}

-- The settings that these functions read.
pub record AuthSettings : Type 0 where
  pub auth_mode : String
  pub oidc_issuer_url : String
  pub oidc_role_claim : String
  pub oidc_asset_groups_claim : String
  pub access_token_expire_minutes : ℕ

pub record UserContext : Type 0 where
  pub subject : String
  pub role : String
  pub asset_group_ids : List String

unfoldable pub is_oidc : AuthSettings → Bool
is_oidc s = lower s.auth_mode == "oidc"

unfoldable pub oidc_is_configured : AuthSettings → Bool
oidc_is_configured s = not (strip s.oidc_issuer_url == "")

unfoldable pub oidc_missing_fields : AuthSettings → List String
oidc_missing_fields s = if strip s.oidc_issuer_url == "" then "OIDC_ISSUER_URL" ∷ [] else []

-- `", ".join(missing) or "OIDC configuration"`.
missing_text : List String → String
missing_text [] = "OIDC configuration"
missing_text (m ∷ []) = m
missing_text (m ∷ n ∷ ms) = m <> ", " <> missing_text (n ∷ ms)

-- The payload that is signed: `now` counts seconds, as the library writes `exp`.
unfoldable pub token_payload : AuthSettings → ℕ → String → String → List String → Fields
token_payload s now subject role groups = field "sub" (text subject) (
    field "role" (text role) (
      field "asset_group_ids" (arr (text_items groups))
        (field "exp" (int (pos (now + s.access_token_expire_minutes * 60))) end)))

-- The last checks of `get_current_user`: both texts are there, and the groups are a list.
checked_claims : String → String → Value → Result UserContext
checked_claims subject role (arr groups) =
    if subject == "" || role == ""
    then err (http_exception 401 "Invalid token claims")
    else ok (record {
      subject = subject;
      role = role;
      asset_group_ids = keep (λ g. not (g == "")) (map str (elements groups));
    })
checked_claims subject role _ = err (http_exception 401 "Invalid token claims")

-- The claims of a decoded token.
unfoldable pub read_claims : AuthSettings → Fields → Result UserContext
unfolding checked_claims
read_claims s payload =
    checked_claims (str (get_or "sub" (text "") payload))
      (str (get_or (if is_oidc s then s.oidc_role_claim else "role") (text "") payload))
      (get_or (if is_oidc s then s.oidc_asset_groups_claim else "asset_group_ids") (arr nil)
        payload)

-- The `try` around the decoding: `none` is a JWTError.
decoded_user : AuthSettings → Option Fields → Result UserContext
decoded_user s none = err (http_exception 401 "Invalid or expired token")
decoded_user s (some payload) = read_claims s payload

-- `encode` is `jwt.encode`; `decode` is decode_access_token_async, where `none` is a JWTError.
module _ (encode : Fields → String) where
  unfoldable pub create_access_token : AuthSettings → ℕ → String → String → List String → String
  unfolding token_payload
  create_access_token s now subject role groups = encode (token_payload s now subject role groups)

module _ (decode : String → Option Fields) where
  unfoldable pub get_current_user : AuthSettings → String → Result UserContext
  unfolding decoded_user read_claims missing_text
  get_current_user s token =
      if is_oidc s && not (oidc_is_configured s)
      then err (
          http_exception 503 (
            "OIDC mode enabled but not configured. Missing: "
            <> missing_text (oidc_missing_fields s)))
      else decoded_user s (decode token)

all_roles : List (String × List String) → List String
all_roles [] = []
all_roles ((action, roles) ∷ rest) = roles ++ all_roles rest

-- `_ALLOWED_ROLES`, sorted.
unfoldable pub allowed_role_names : List String
unfolding all_roles
allowed_role_names = sort text_le (distinct (all_roles role_action_policy))

join_names : List String → String
join_names [] = ""
join_names (m ∷ []) = m
join_names (m ∷ n ∷ ms) = m <> ", " <> join_names (n ∷ ms)

-- The login route: the access token of its answer.
module _ (encode : Fields → String) where
  unfoldable pub login : AuthSettings → ℕ → String → String → List String → Result String
  unfolding join_names
  login s now username role groups =
      if is_oidc s
      then err (
          http_exception 405
            "Local login is disabled. Use enterprise OIDC sign-in and pass bearer token.")
      else if not (member role allowed_role_names)
      then err (
          http_exception 400
            ("Invalid role '" <> role <> "'. Valid roles are: " <> join_names allowed_role_names))
      else ok (create_access_token encode s now username role groups)
