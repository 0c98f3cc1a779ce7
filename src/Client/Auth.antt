-- ===== src/Client/Auth.antt =====
-- Login and headers of `AsocApiClient`: `_login_with_api_key`, `_get_auth_header`,
-- `_fallback_headers`. `clock` is the time of day in the service's state; `fromisoformat` reads a
-- date into the same unit.
pub mod Login
use app_scan_custom_dashboar.Base.{
  ℕ, String, ◌<>◌, Bool, true, false, not, ◌&&◌, ◌||◌, Option, none, some, List, [], ◌∷◌, ◌==◌,
  if◌then◌else◌, eqb, leb, strip,
}
use Prim.Native.Char.{Char, code}
use app_scan_custom_dashboar.Json.{Value, Fields, obj, end, str, truthy, first_truthy}
use app_scan_custom_dashboar.Client.Http.{
  Request, Response, ClientError, authentication_error, request_error, response_format_error,
  json_error, Outcome, done, raised, Config, World, Action, pure, lift, gets, modify, try_except,
  ◌>>=◌, ◌>>◌, Transport, transmit, Headers, bearer, key_pair,
}
use app_scan_custom_dashboar.Client.Guard.{
  validate_request, auth_login_path, build_auth_headers, asoc_key_pair_header, is_json_response,
}

unfoldable pub is_unauthorized : ℕ → Bool
is_unauthorized status = eqb status 401 || eqb status 403

-- `text.replace("Z", "+00:00")`.
replace_z : String → String
replace_z String.[] = ""
replace_z (String.◌∷◌ c s) =
    if eqb (code c) 90 then "+00:00" <> replace_z s else String.◌∷◌ c (replace_z s)

-- The payload of a login response that is a JSON dict.
login_payload : Option Value → Outcome Fields
login_payload none = raised json_error
login_payload (some (obj payload)) = done payload
login_payload (some _) =
    raised (response_format_error "ASoC API key login returned unexpected payload shape.")

-- The checks of `_login_with_api_key` on its response.
unfoldable pub check_login : Response → Outcome Fields
unfolding login_payload is_unauthorized
check_login resp =
    if is_unauthorized resp.status_code
    then raised (authentication_error "ASoC rejected API key login (401/403).")
    else if leb 400 resp.status_code
    then raised (request_error resp.status_code)
    else if not (is_json_response resp.content_type)
    then raised (response_format_error "ASoC API key login returned non-JSON response content.")
    else login_payload resp.json

unfoldable pub extract_token : Fields → Outcome String
extract_token payload =
    let token = first_truthy ("Token" ∷ "token" ∷ "access_token" ∷ []) payload in
    if truthy token
    then done (str token)
    else raised
        (authentication_error "ASoC API key login succeeded but no access token was returned.")

unfoldable pub parse_asoc_expiry : (String → Option ℕ) → Value → Option ℕ
unfolding replace_z
parse_asoc_expiry fromisoformat raw =
    if truthy raw then fromisoformat (replace_z (str raw)) else none

-- `self._owner_user_id` after a login: kept where the payload names no user.
owner_of : Fields → Option String → Option String
owner_of payload old =
    let raw = first_truthy ("UserId" ∷ "userId" ∷ "user_id" ∷ []) payload in
    if truthy raw then some (strip (str raw)) else old

-- `token and not _is_expired(expiry)`, where `_is_expired` is true of a missing date.
usable_until : ℕ → String → Option ℕ → Option String
usable_until now token none = none
usable_until now token (some expiry) = if leb expiry now then none else some token

unfoldable pub usable_token : ℕ → Option String → Option ℕ → Option String
unfolding usable_until
usable_token now none expiry = none
usable_token now (some token) expiry = if token == "" then none else usable_until now token expiry

login_request : Config → Request
login_request config = record {
  method = "POST";
  path = auth_login_path;
  params = end;
  headers = key_pair (asoc_key_pair_header config.api_key config.api_secret);
}

module _ {S : Type 0} (config : Config) (send : Transport S) (clock : S → ℕ)
    (fromisoformat : String → Option ℕ) where
  -- What a login writes to the client.
  store_login : String → Fields → World S → World S
  unfolding owner_of
  store_login token payload w = record w {
    access_token = some token;
    access_token_expiry =
        parse_asoc_expiry fromisoformat (first_truthy ("Expire" ∷ "expire" ∷ []) payload);
    owner_user_id = owner_of payload w.owner_user_id;
    login_succeeded = some true;
  }

  unfoldable pub login_with_api_key : Action S String
  unfolding store_login login_request
  login_with_api_key = do
    lift (validate_request config.read_only "POST" auth_login_path)
    resp ← transmit send (login_request config)
    payload ← lift (check_login resp)
    token ← lift (extract_token payload)
    modify (store_login token payload)
    pure token

  login_failed : World S → World S
  login_failed w = record w { login_succeeded = some false }

  -- A usable token, or a login, or the key pair if the login raises.
  header_for : Option String → Action S Headers
  unfolding login_failed
  header_for (some token) = pure (build_auth_headers (some token) config.api_key config.api_secret)
  header_for none =
      try_except
        (do
          token ← login_with_api_key
          pure (build_auth_headers (some token) config.api_key config.api_secret))
        (do modify login_failed; pure (build_auth_headers none config.api_key config.api_secret))

  unfoldable pub get_auth_header : Action S Headers
  unfolding header_for
  get_auth_header = do
    token ← gets (λ w. usable_token (clock w.service) w.access_token w.access_token_expiry)
    header_for token

unfoldable pub has_authorization : Headers → Bool
has_authorization (bearer t) = true
has_authorization (key_pair t) = false

unfoldable pub fallback_headers : Config → Headers → Option Headers
fallback_headers config (bearer t) = some (build_auth_headers none config.api_key config.api_secret)
fallback_headers config (key_pair t) = none
