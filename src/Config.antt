-- ===== src/Config.antt =====
-- The ASoC endpoints of backend/app/core/config/settings.py. `json.loads` is a parameter: `loads s` is
-- none where it raises a JSONDecodeError.
use app_scan_custom_dashboar.Base.{
  String, Bool, ◌&&◌, Option, some, List, [], ◌∷◌, ◌==◌, if◌then◌else◌, strip, rstrip_slash,
}
use app_scan_custom_dashboar.Json.{
  Value, Fields, Items, bool, text, arr, obj, nil, cons, get, get_or, str, truthy,
}

pub record Settings : Type 0 where
  pub asoc_endpoints_json : String
  pub asoc_service_url : String
  pub asoc_api_key : String
  pub asoc_api_secret : String
  pub asoc_verify_ssl : Bool

pub record Endpoint : Type 0 where
  pub url : String
  pub key : String
  pub secret : String
  pub label : String
  pub verify : Bool

-- An explicit Boolean overrides the global default.
verify_of : Bool → Value → Bool
verify_of default (bool b) = b
verify_of default (_) = default

endpoint_of : Bool → Fields → Endpoint
unfolding get get_or str rstrip_slash verify_of
endpoint_of default item = record {
  url = rstrip_slash (str (get "url" item));
  key = str (get "key" item);
  secret = str (get_or "secret" (text "") item);
  label = str (get_or "label" (get "url" item) item);
  verify = verify_of default (get "verify" item);
}

clean : Bool → Value → List Endpoint → List Endpoint
unfolding endpoint_of truthy get
clean default (obj item) rest =
    if truthy (get "url" item) && truthy (get "key" item)
    then endpoint_of default item ∷ rest
    else rest
clean default (_) rest = rest

cleaned : Bool → Items → List Endpoint
unfolding clean
cleaned default nil = []
cleaned default (cons item items) = clean default item (cleaned default items)

of_json : Bool → Option Value → List Endpoint
unfolding cleaned
of_json default (some (arr items)) = cleaned default items
of_json default (_) = []

-- The primary endpoint, if it has a key.
fallback : Settings → List Endpoint
unfolding rstrip_slash
fallback s =
    if s.asoc_api_key == ""
    then []
    else record {
      url = rstrip_slash s.asoc_service_url;
      key = s.asoc_api_key;
      secret = s.asoc_api_secret;
      label = "Primary";
      verify = s.asoc_verify_ssl;
    }
      ∷ []

abbrev or_fallback : Settings → List Endpoint → List Endpoint
or_fallback s [] = fallback s
or_fallback s (e ∷ es) = e ∷ es

unfoldable pub all_asoc_endpoints : (String → Option Value) → Settings → List Endpoint
unfolding strip of_json fallback
all_asoc_endpoints loads s =
    let raw = strip s.asoc_endpoints_json in
    if raw == "" then fallback s else or_fallback s (of_json s.asoc_verify_ssl (loads raw))
