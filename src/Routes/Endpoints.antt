-- ===== src/Routes/Endpoints.antt =====
-- The data-source routes of backend/app/api/v1/routes/endpoints.py. A request's body is as its model's
-- validators leave it.
pub mod Columns
pub mod Managed
mod Tests
use app_scan_custom_dashboar.Base.{
  ℕ, String, ◌<>◌, Bool, true, false, not, Option, none, some, List, [], ◌∷◌, ◌++◌, map, length,
  ◌==◌, strip,
}
use app_scan_custom_dashboar.Json.{repr_text}
use app_scan_custom_dashboar.Config.{Endpoint}
use app_scan_custom_dashboar.Security.Policy.{assert_action_allowed}
use app_scan_custom_dashboar.Security.Session.{UserContext}
use app_scan_custom_dashboar.Store.Exec.{DataSource, World, Exec, pure, lift, or_raise, ◌>>=◌, ◌>>◌}
use app_scan_custom_dashboar.Store.DataSources as Rows
use app_scan_custom_dashboar.Store.DataSources.{
  Change, label_to, url_to, api_key_to, api_secret_to, verify_ssl_to, enabled_to,
}
use app_scan_custom_dashboar.Services.DataSources as Sources
use app_scan_custom_dashboar.Services.DataSources.{Source, EndpointLabel, Identity, label_of}

pub record EndpointCreateRequest : Type 0 where
  pub url : String
  pub label : String
  pub api_key : String
  pub api_secret : String
  pub verify_ssl : Bool

pub record EndpointUpdateRequest : Type 0 where
  pub url : Option String
  pub label : Option String
  pub api_key : Option String
  pub api_secret : Option String
  pub verify_ssl : Option Bool
  pub enabled : Option Bool

pub record ManagedEndpoint : Type 0 where
  pub id : String
  pub url : String
  pub label : String
  pub api_key : String
  pub has_secret : Bool
  pub verify_ssl : Bool
  pub enabled : Bool

unfoldable pub managed_view : Source → ManagedEndpoint
managed_view ds = record {
  id = ds.id;
  url = ds.url;
  label = ds.label;
  api_key = ds.api_key;
  has_secret = not (ds.api_secret == "");
  verify_ssl = ds.verify_ssl;
  enabled = ds.enabled;
}

-- `{"endpoints": …, "total": len(…)}`.
pub record Listing (A : Type 0) : Type 0 where
  pub endpoints : List A
  pub total : ℕ

abbrev pub listing : {A : Type 0} → List A → Listing A
listing xs = record { endpoints = xs; total = length xs }

abbrev pub set_some : {A : Type 0} → (A → Change) → Option A → List Change
set_some column none = []
set_some column (some v) = column v ∷ []

unfoldable pub fields_of : EndpointUpdateRequest → List Change
unfolding strip
fields_of body =
    set_some url_to body.url
    ++ (set_some (λ v. label_to (strip v)) body.label
        ++ (set_some (λ v. api_key_to (strip v)) body.api_key
            ++ (set_some api_secret_to body.api_secret
                ++ (set_some verify_ssl_to body.verify_ssl ++ set_some enabled_to body.enabled))))

abbrev pub no_data_source : String → String
no_data_source ds_id = "No data source with id " <> repr_text ds_id

module _ (clock uuid : ℕ → String) (env : List Endpoint) (user : UserContext) where
  unfoldable pub list_endpoints : Exec (Listing EndpointLabel)
  list_endpoints = do
    lift (assert_action_allowed "view_endpoints" user.role)
    sources ← Sources.list_all env false
    pure (listing (map label_of sources))

  -- The list that every managing route answers with.
  managed : Exec (Listing ManagedEndpoint)
  unfolding managed_view
  managed = do sources ← Sources.list_all env true; pure (listing (map managed_view sources))

  unfoldable pub manage_list_endpoints : Exec (Listing ManagedEndpoint)
  unfolding managed
  manage_list_endpoints = do lift (assert_action_allowed "manage_endpoints" user.role); managed

  -- Without a refresh of stale identities.
  unfoldable pub list_identities : Exec (Listing Identity)
  list_identities = do
    lift (assert_action_allowed "view_endpoints" user.role)
    identities ← Sources.get_identities
    pure (listing identities)

  unfoldable pub create_endpoint : EndpointCreateRequest → Exec (Listing ManagedEndpoint)
  unfolding managed
  create_endpoint body = do
    lift (assert_action_allowed "manage_endpoints" user.role)
    Sources.create clock uuid body.label body.url body.api_key body.api_secret body.verify_ssl
    managed

  update_fields : String → List Change → Exec (Option DataSource)
  update_fields ds_id [] = pure none
  update_fields ds_id (c ∷ changes) = Rows.update_data_source clock ds_id (c ∷ changes)

  unfoldable pub update_endpoint : String → EndpointUpdateRequest → Exec (Listing ManagedEndpoint)
  unfolding managed update_fields fields_of
  update_endpoint ds_id body = do
    lift (assert_action_allowed "manage_endpoints" user.role)
    found ← Rows.get_data_source ds_id
    or_raise 404 (no_data_source ds_id) found
    update_fields ds_id (fields_of body)
    managed

  unfoldable pub delete_endpoint : String → Exec (Listing ManagedEndpoint)
  unfolding managed
  delete_endpoint ds_id = do
    lift (assert_action_allowed "manage_endpoints" user.role)
    found ← Rows.get_data_source ds_id
    or_raise 404 (no_data_source ds_id) found
    Rows.delete_data_source ds_id
    managed
