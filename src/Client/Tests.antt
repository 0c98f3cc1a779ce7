-- ===== src/Client/Tests.antt =====
-- Runs of the client of backend/app/integrations/appscan_api/client.py against a small service.
use app_scan_custom_dashboar.Base.{
  ℕ, suc, ◌*◌, String, ◌≡◌, refl, ◌↔◌, ◌⊎◌, Bool, true, false, Option, none, some, List, [], ◌∷◌, ℤ,
  pos, length, starts, starts_any, ◌==◌, if◌then◌else◌,
}
use app_scan_custom_dashboar.Json.{end, field, obj, text}
use app_scan_custom_dashboar.Client.Http.{Response, done, Config, World, Transport, key_pair}
use app_scan_custom_dashboar.Client.Http.Sends.{Extends}
use app_scan_custom_dashboar.Client.Guard.{validate_request, read_only_get_path_prefixes}
use app_scan_custom_dashboar.Client.Guard.ReadOnly.{IsReadOnly, Allowed, validate_request_iff}
use app_scan_custom_dashboar.Client.Read.{get_with_429_retry}
use app_scan_custom_dashboar.Client.Read.Session.{
  Call, read, count, perform_all, perform_all-Extends,
}
use app_scan_custom_dashboar.Client.Read.Pauses.{Paced, get_with_429_retry-Paced}

abbrev config : Config
config = record { read_only = true; api_key = "key"; api_secret = "secret" }

-- The service counts its requests, logs everybody in, and limits the rate of all else.
abbrev token_reply : Response
token_reply = record {
  status_code = 200;
  content_type = "application/json";
  retry_after = none;
  body = "";
  json = some (obj (field "Token" (text "token") end));
}

abbrev limited_reply : Response
limited_reply = record {
  status_code = 429;
  content_type = "application/json";
  retry_after = some "9";
  body = "";
  json = none;
}

abbrev send : Transport ℕ
send request n = (some (if request.method == "POST" then token_reply else limited_reply), suc n)

abbrev start : World ℕ
start = record {
  service = 0;
  access_token = none;
  access_token_expiry = none;
  owner_user_id = none;
  login_succeeded = none;
  sent = [];
  slept = [];
}

abbrev nine_seconds : String → Option ℤ
nine_seconds t = some (pos 9000)

abbrev client_errors : ℕ → Bool
client_errors status = true

abbrev calls : List Call
calls = read "/api/v4/Apps" end ∷ count "/api/v4/Issues/Application/1" end ∷ []

perform_all-Extends_example : Extends Allowed (14 * length calls) start (
    perform_all config send
      (λ n. n)
      (λ t. none)
      nine_seconds
      client_errors
      (λ t. pos 0)
      calls
      start)
perform_all-Extends_example =
    perform_all-Extends config send (λ n. n) (λ t. none) nine_seconds client_errors (λ t. pos 0)
      refl calls start

validate_request_iff_example :
    (validate_request true "get" "/api/v4/Apps/7" ≡ done tt)
    ↔ (true ≡ false ⊎ IsReadOnly "get" "/api/v4/Apps/7")
validate_request_iff_example = validate_request_iff true "get" "/api/v4/Apps/7"

get_with_429_retry-Paced_example :
    Paced 3 start
      (get_with_429_retry send nine_seconds "/api/v4/Apps" end (key_pair "key:secret") start)
get_with_429_retry-Paced_example =
    get_with_429_retry-Paced send nine_seconds "/api/v4/Apps" end (key_pair "key:secret") start

off_list : starts_any "/api/v4/Tools" read_only_get_path_prefixes ≡ false
unfolding starts_any starts
off_list = refl
