-- ===== src/Client/Read.antt =====
-- The read calls of `AsocApiClient`: `_get_with_429_retry`, `get`, `get_count`. Seconds are counted
-- in milliseconds. `read_float` is Python's `float`, in milliseconds; `raises` says for which
-- status codes the HTTP library's `raise_for_status` raises.
pub mod Limits
pub mod Session
pub mod Pauses
use app_scan_custom_dashboar.Base.{
  ℕ, zero, suc, ◌+◌, ◌-◌, ◌*◌, ◌^◌, min, String, ◌<>◌, Bool, true, false, not, ◌&&◌, ◌||◌, Option,
  none, some, List, [], ◌∷◌, ◌==◌, if◌then◌else◌, eqb, leb, strip, ℤ, pos, negsuc, parse_int,
  is_digits, lstrip_dash,
}
use Prim.Native.Char.{Char, code}
use app_scan_custom_dashboar.Json.{
  Value, Items, Fields, null, bool, int, float, text, arr, obj, end, field, find, get as get_value,
  put, nil, cons,
}
use app_scan_custom_dashboar.Client.Http.{
  Request, Response, ClientError, authorization_error, response_format_error, json_error,
  status_error, Outcome, done, raised, Config, World, Action, pure, lift, modify, sleep, ◌>>=◌,
  ◌>>◌, Transport, transmit, Headers,
}
use app_scan_custom_dashboar.Client.Guard.{validate_request, is_json_response}
use app_scan_custom_dashboar.Client.Auth.{
  is_unauthorized, get_auth_header, has_authorization, fallback_headers,
}

abbrev pub max_429_retries : ℕ
max_429_retries = 3

abbrev pub base_429_backoff : ℕ
base_429_backoff = 500

abbrev pub max_429_backoff : ℕ
max_429_backoff = 5000

positive_capped : Option ℤ → Option ℕ
positive_capped none = none
positive_capped (some (pos zero)) = none
positive_capped (some (pos (suc n))) = some (min (suc n) max_429_backoff)
positive_capped (some (negsuc n)) = none

-- `read_float` gives the seconds as whole thousandths, so a shorter part of one and nan are left out.
unfoldable pub parse_retry_after : (String → Option ℤ) → Option String → Option ℕ
unfolding positive_capped
parse_retry_after read_float none = none
parse_retry_after read_float (some raw) =
    if raw == "" then none else positive_capped (read_float raw)

-- `retry_after or min(max, base * 2 ** retry_index)`.
delay_for : ℕ → Option ℕ → ℕ
delay_for retry_index none = min max_429_backoff (base_429_backoff * 2 ^ retry_index)
delay_for retry_index (some seconds) = seconds

get_request : String → Fields → Headers → Request
get_request path params headers = record {
  method = "GET";
  path = path;
  params = params;
  headers = headers;
}

module _ {S : Type 0} (send : Transport S) (read_float : String → Option ℤ) where
  -- The `while`, by the retries that are left.
  retry_loop : String → Fields → Headers → ℕ → ℕ → Response → Action S Response
  unfolding delay_for get_request
  retry_loop path params headers zero retry_index response = pure response
  retry_loop path params headers (suc left) retry_index response =
      if eqb response.status_code 429
      then (do
        sleep (delay_for retry_index (parse_retry_after read_float response.retry_after))
        again ← transmit send (get_request path params headers)
        retry_loop path params headers left (suc retry_index) again)
      else pure response

  unfoldable pub get_with_429_retry : String → Fields → Headers → Action S Response
  unfolding retry_loop
  get_with_429_retry path params headers = do
    response ← transmit send (get_request path params headers)
    retry_loop path params headers max_429_retries 0 response

-- What `get` makes of its last response: a dict, a list wrapped as `Items`, or an exception.
payload_of : Option Value → Outcome Fields
payload_of none = raised json_error
payload_of (some (obj payload)) = done payload
payload_of (some v) = done (field "Items" v end)

unfoldable pub read_payload : (ℕ → Bool) → String → Response → Outcome Fields
unfolding payload_of
read_payload raises path resp =
    if is_unauthorized resp.status_code
    then raised (authorization_error ("ASoC request unauthorized for path: " <> path))
    else if raises resp.status_code
    then raised (status_error resp.status_code)
    else if not (is_json_response resp.content_type)
    then raised (
        response_format_error (
          "Expected JSON from ASoC, got content-type: "
          <> (if resp.content_type == "" then "unknown" else resp.content_type)))
    else payload_of resp.json

forget_token : {S : Type 0} → World S → World S
forget_token w = record w { access_token = none; access_token_expiry = none }

bad_for_get : Response → Bool
bad_for_get resp = is_unauthorized resp.status_code || not (is_json_response resp.content_type)

bad_for_count : Response → Bool
bad_for_count resp =
    is_unauthorized resp.status_code
    || not (is_json_response resp.content_type || is_digits (lstrip_dash (strip resp.body)))

-- `int(v)`: `none` is a TypeError or a ValueError. `trunc` is `int` of a float, which is finite here: the
-- OverflowError for an infinite one is left out.
unfoldable pub int_of : (String → ℤ) → Value → Option ℤ
int_of trunc (bool b) = some (if b then pos 1 else pos 0)
int_of trunc (int i) = some i
int_of trunc (float t) = some (trunc t)
int_of trunc (text t) = parse_int (strip t)
int_of trunc _ = none

-- The first of the keys that is there with a number.
first_count : (String → ℤ) → List String → Fields → ℤ
first_count trunc [] payload = pos 0
first_count trunc (k ∷ ks) payload =
    let rest = first_count trunc ks payload in
    elim (find k payload) [
      | none ↦ rest
      | some v ↦ elim (int_of trunc v) [ none ↦ rest | some n ↦ n ]
    ]

count_in : (String → ℤ) → Option Value → ℤ
unfolding first_count
count_in trunc (some (obj payload)) =
    first_count trunc ("Count" ∷ "count" ∷ "TotalCount" ∷ "totalCount" ∷ "total" ∷ "Total" ∷ [])
      payload
count_in trunc _ = pos 0

unfoldable pub read_count : (ℕ → Bool) → (String → ℤ) → String → Response → Outcome ℤ
unfolding count_in
read_count raises trunc path resp =
    if is_unauthorized resp.status_code
    then raised (authorization_error ("ASoC request unauthorized for path: " <> path))
    else if raises resp.status_code
    then raised (status_error resp.status_code)
    else done (elim (parse_int (strip resp.body)) [ some n ↦ n | none ↦ count_in trunc resp.json ])

-- The dicts of a JSON list.
abbrev pub dicts : Items → List Fields
dicts nil = []
dicts (cons (obj d) vs) = d ∷ dicts vs
dicts (cons _ vs) = dicts vs

list_at : Value → List Fields → List Fields
list_at (arr vs) other = dicts vs
list_at _ other = other

-- The items under the first of the keys that holds a list.
unfoldable pub items_in : List String → Fields → List Fields
unfolding list_at
items_in [] payload = []
items_in (k ∷ ks) payload = let rest = items_in ks payload in list_at (get_value k payload) rest

-- The count under the first of the keys that is there, if it is a number.
total_in : (String → ℤ) → List String → Fields → Option ℤ
total_in trunc [] payload = none
total_in trunc (k ∷ ks) payload =
    let rest = total_in trunc ks payload in
    elim (find k payload) [ none ↦ rest | some v ↦ int_of trunc v ]

module _ {S : Type 0} (config : Config) (send : Transport S) (clock : S → ℕ)
    (fromisoformat : String → Option ℕ) (read_float : String → Option ℤ) (raises : ℕ → Bool) where
  -- "Retry once with a refreshed bearer token on auth failure."
  refreshed : String → Fields → Headers → Response → Action S (Headers × Response)
  unfolding forget_token
  refreshed path params headers resp =
      if is_unauthorized resp.status_code && not (has_authorization headers)
      then (do
        modify forget_token
        renewed ← get_auth_header config send clock fromisoformat
        again ← get_with_429_retry send read_float path params renewed
        pure (renewed, again))
      else pure (headers, resp)

  again_with : String → Fields → Response → Option Headers → Action S Response
  again_with path params resp none = pure resp
  again_with path params resp (some headers) =
      get_with_429_retry send read_float path params headers

  -- "Retry once by switching auth mode", where `bad` is the caller's test of the response.
  switched : (Response → Bool) → String → Fields → Headers × Response → Action S Response
  unfolding again_with
  switched bad path params (headers, resp) =
      if bad resp then again_with path params resp (fallback_headers config headers) else pure resp

  unfoldable pub get : String → Fields → Action S Fields
  unfolding refreshed switched bad_for_get
  get path params = do
    lift (validate_request config.read_only "GET" path)
    headers ← get_auth_header config send clock fromisoformat
    first ← get_with_429_retry send read_float path params headers
    second ← refreshed path params headers first
    last ← switched bad_for_get path params second
    lift (read_payload raises path last)

  unfoldable pub get_count : (String → ℤ) → String → Fields → Action S ℤ
  unfolding refreshed switched bad_for_count
  get_count trunc path params = do
    lift (validate_request config.read_only "GET" path)
    headers ← get_auth_header config send clock fromisoformat
    first ← get_with_429_retry send read_float path params headers
    second ← refreshed path params headers first
    last ← switched bad_for_count path params second
    lift (read_count raises trunc path last)

  -- `get` answers a dict, so the source's branch for a list is never taken.
  unfoldable pub get_with_count : (String → ℤ) → String → Fields → Action S (List Fields × Option ℤ)
  unfolding total_in
  get_with_count trunc path params = do
    payload ← get path (put "$inlinecount" (text "allpages") params)
    pure (
      items_in ("Items" ∷ "items" ∷ "value" ∷ "data" ∷ []) payload,
      total_in trunc ("Count" ∷ "count" ∷ "TotalCount" ∷ "totalCount" ∷ []) payload,
    )
