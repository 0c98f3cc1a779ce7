-- ===== src/Services/DataSources.antt =====
-- The data sources in backend/app/services/data_source_service.py, and how multi_endpoint.py chooses
-- among them. The environment's endpoints are what `settings.all_asoc_endpoints()` returns.
pub mod Bootstrap
pub mod Chosen
pub mod Display
pub mod Merge
use app_scan_custom_dashboar.Base.{
  ℕ, ◌+◌, String, ◌<>◌, Bool, true, false, ◌||◌, ◌&&◌, Option, none, some, List, [], ◌∷◌, map, keep,
  member, take, ◌==◌, eqb, if◌then◌else◌, rstrip_slash, decimal,
}
use app_scan_custom_dashboar.Config.{Endpoint}
use app_scan_custom_dashboar.Store.Exec.{DataSource, Exec, pure, gets, ◌>>=◌}
use app_scan_custom_dashboar.Store.DataSources.{
  list_data_sources, get_data_source_by_url_and_key, create_data_source, count_data_sources,
}

-- The fields of a row, or of an endpoint of the environment, that the callers of `list_all` read.
pub record Source : Type 0 where
  pub id : String
  pub label : String
  pub url : String
  pub api_key : String
  pub api_secret : String
  pub verify_ssl : Bool
  pub enabled : Bool

abbrev pub source_of : DataSource → Source
source_of ds = record {
  id = ds.id;
  label = ds.label;
  url = ds.url;
  api_key = ds.api_key;
  api_secret = ds.api_secret;
  verify_ssl = ds.verify_ssl;
  enabled = ds.enabled;
}

unfoldable pub env_sources : ℕ → List Endpoint → List Source
unfolding decimal
env_sources idx [] = []
env_sources idx (ep ∷ eps) =
    record {
      id = "env-" <> decimal idx;
      label = ep.label;
      url = ep.url;
      api_key = ep.key;
      api_secret = ep.secret;
      verify_ssl = ep.verify;
      enabled = true;
    }
    ∷ env_sources (idx + 1) eps

unfoldable pub or_env : List Endpoint → List DataSource → List Source
unfolding env_sources
or_env eps [] = env_sources 0 eps
or_env eps (ds ∷ rows) = map source_of (ds ∷ rows)

unfoldable pub list_all : List Endpoint → Bool → Exec (List Source)
unfolding list_data_sources
list_all eps include_disabled = do rows ← list_data_sources include_disabled; pure (or_env eps rows)

abbrev pub max_data_source_ids : ℕ
max_data_source_ids = 20

-- `set(data_source_ids[:20]) & valid_ids`, where ids are given.
unfoldable pub restrict : List String → List Source → List Source
unfolding keep member
restrict [] sources = sources
restrict (i ∷ ids) sources =
    keep
      (λ ds.
        member ds.id (take max_data_source_ids (i ∷ ids)) && member ds.id (map (λ s. s.id) sources))
      sources

unfoldable pub load_sources : List Endpoint → List String → Exec (List Source)
unfolding list_all restrict
load_sources eps data_source_ids = do
  sources ← list_all eps false
  pure (restrict data_source_ids sources)

pub record EndpointLabel : Type 0 where
  pub id : String
  pub url : String
  pub label : String

abbrev pub label_of : Source → EndpointLabel
label_of ds = record { id = ds.id; url = ds.url; label = ds.label }

unfoldable pub get_endpoint_labels : List Endpoint → Exec (List EndpointLabel)
unfolding load_sources
get_endpoint_labels eps = do sources ← load_sources eps []; pure (map label_of sources)

pub record Identity : Type 0 where
  pub id : String
  pub label : String
  pub url : String
  pub tenant_name : Option String
  pub api_user_name : Option String
  pub api_user_role : Option String
  pub api_user_email : Option String
  pub enabled : Bool
  pub last_probed_at : Option String
  pub last_probe_ok : Option Bool

-- `text or None`.
non_empty : String → Option String
non_empty s = if s == "" then none else some s

unfoldable pub identity_of : DataSource → Identity
unfolding non_empty
identity_of ds = record {
  id = ds.id;
  label = ds.label;
  url = ds.url;
  tenant_name = non_empty ds.tenant_name;
  api_user_name = non_empty ds.api_user_name;
  api_user_role = non_empty ds.api_user_role;
  api_user_email = non_empty ds.api_user_email;
  enabled = ds.enabled;
  last_probed_at = ds.last_probed_at;
  last_probe_ok = ds.last_probe_ok;
}

unfoldable pub get_identities : Exec (List Identity)
unfolding list_data_sources identity_of
get_identities = do sources ← list_data_sources false; pure (map identity_of sources)

module _ (clock uuid : ℕ → String) where
  unfoldable pub create : String → String → String → String → Bool → Exec DataSource
  unfolding create_data_source rstrip_slash
  create label url api_key api_secret verify_ssl =
      create_data_source clock uuid label (rstrip_slash url) api_key api_secret verify_ssl true

  -- One endpoint of the environment: 1 if it is imported.
  import_unknown : Endpoint → Option DataSource → Exec ℕ
  unfolding create_data_source rstrip_slash
  import_unknown ep (some existing) = pure 0
  import_unknown ep none = do
    ds ←
        create_data_source clock uuid ep.label (rstrip_slash ep.url) ep.key ep.secret ep.verify true
    pure 1

  import_endpoint : Endpoint → Exec ℕ
  unfolding import_unknown get_data_source_by_url_and_key rstrip_slash
  import_endpoint ep = if rstrip_slash ep.url == "" || (ep.key == "") then pure 0 else (do
    existing ← get_data_source_by_url_and_key (rstrip_slash ep.url) ep.key
    import_unknown ep existing)

  import_loop : ℕ → List Endpoint → Exec ℕ
  unfolding import_endpoint
  import_loop imported [] = pure imported
  import_loop imported (ep ∷ eps) = do n ← import_endpoint ep; import_loop (imported + n) eps

  -- An empty table takes the environment's endpoints; with none of them, nothing is imported.
  unfoldable pub bootstrap_from_env : List Endpoint → Exec ℕ
  unfolding count_data_sources import_loop
  bootstrap_from_env eps = do
    count ← count_data_sources
    if eqb count 0 then import_loop 0 eps else pure 0
