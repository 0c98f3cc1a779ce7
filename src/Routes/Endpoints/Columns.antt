-- ===== src/Routes/Endpoints/Columns.antt =====
-- What the changes of a request of backend/app/api/v1/routes/endpoints.py make of a row.
use app_scan_custom_dashboar.Base.{
  String, Bool, Option, none, some, List, [], ◌++◌, ◌≡◌, refl, ap, ◌∙◌, sym, keep, strip,
}
use app_scan_custom_dashboar.Store.Exec.{DataSource}
use app_scan_custom_dashboar.Store.DataSources.{
  Change, url_to, label_to, api_key_to, api_secret_to, verify_ssl_to, enabled_to, is_allowed,
  set_column, set_columns,
}
use app_scan_custom_dashboar.Routes.Endpoints.{EndpointUpdateRequest, set_some, fields_of}

-- The new value, or the old one where the request gives none.
abbrev pub or_old : {A : Type 0} → A → Option A → A
or_old old none = old
or_old old (some v) = v

abbrev stripped_or : String → Option String → String
stripped_or old none = old
stripped_or old (some v) = strip v

-- The row after a request, apart from `updated_at`.
abbrev pub IsUpdated : EndpointUpdateRequest → DataSource → DataSource → Type 0
IsUpdated body old new =
    (new.id ≡ old.id)
    × (new.url ≡ or_old old.url body.url)
    × (new.label ≡ stripped_or old.label body.label)
    × (new.api_key ≡ stripped_or old.api_key body.api_key)
    × (new.api_secret ≡ or_old old.api_secret body.api_secret)
    × (new.verify_ssl ≡ or_old old.verify_ssl body.verify_ssl)
    × (new.enabled ≡ or_old old.enabled body.enabled)
    × (new.tenant_name ≡ old.tenant_name)
    × (new.created_at ≡ old.created_at)

abbrev merged : EndpointUpdateRequest → String → DataSource → DataSource
merged body now ds = record ds {
  url = or_old ds.url body.url;
  label = stripped_or ds.label body.label;
  api_key = stripped_or ds.api_key body.api_key;
  api_secret = or_old ds.api_secret body.api_secret;
  verify_ssl = or_old ds.verify_ssl body.verify_ssl;
  enabled = or_old ds.enabled body.enabled;
  updated_at = now;
}

module _ (now : String) where
  after : List Change → DataSource → DataSource
  after cs ds = set_columns (keep is_allowed cs) now ds

  url_step :
      (o : Option String) (cs : List Change) (ds : DataSource)
      → after (set_some url_to o ++ cs) ds ≡ after cs (record ds { url = or_old ds.url o })
  unfolding after keep is_allowed set_columns set_column
  url_step none cs ds = refl
  url_step (some v) cs ds = refl

  label_step :
      (o : Option String) (cs : List Change) (ds : DataSource)
      → after (set_some (λ v. label_to (strip v)) o ++ cs) ds
        ≡ after cs (record ds { label = stripped_or ds.label o })
  unfolding after keep is_allowed set_columns set_column
  label_step none cs ds = refl
  label_step (some v) cs ds = refl

  api_key_step :
      (o : Option String) (cs : List Change) (ds : DataSource)
      → after (set_some (λ v. api_key_to (strip v)) o ++ cs) ds
        ≡ after cs (record ds { api_key = stripped_or ds.api_key o })
  unfolding after keep is_allowed set_columns set_column
  api_key_step none cs ds = refl
  api_key_step (some v) cs ds = refl

  api_secret_step :
      (o : Option String) (cs : List Change) (ds : DataSource)
      → after (set_some api_secret_to o ++ cs) ds
        ≡ after cs (record ds { api_secret = or_old ds.api_secret o })
  unfolding after keep is_allowed set_columns set_column
  api_secret_step none cs ds = refl
  api_secret_step (some v) cs ds = refl

  verify_ssl_step :
      (o : Option Bool) (cs : List Change) (ds : DataSource)
      → after (set_some verify_ssl_to o ++ cs) ds
        ≡ after cs (record ds { verify_ssl = or_old ds.verify_ssl o })
  unfolding after keep is_allowed set_columns set_column
  verify_ssl_step none cs ds = refl
  verify_ssl_step (some v) cs ds = refl

  enabled_step :
      (o : Option Bool) (ds : DataSource)
      → after (set_some enabled_to o) ds
        ≡ record ds { enabled = or_old ds.enabled o; updated_at = now }
  unfolding after keep is_allowed set_columns set_column
  enabled_step none ds = refl
  enabled_step (some v) ds = refl

  pub set_columns-fields_of :
      (body : EndpointUpdateRequest) (ds : DataSource)
      → set_columns (keep is_allowed (fields_of body)) now ds ≡ merged body now ds
  unfolding fields_of after
  set_columns-fields_of body ds =
      url_step body.url _ ds
      ∙ (label_step body.label _ _
          ∙ (api_key_step body.api_key _ _
              ∙ (api_secret_step body.api_secret _ _
                  ∙ (verify_ssl_step body.verify_ssl _ _ ∙ enabled_step body.enabled _))))

  IsUpdated-of_merged :
      (body : EndpointUpdateRequest) (old new : DataSource)
      → (record new { updated_at = now }) ≡ merged body now old
      → IsUpdated body old new
  IsUpdated-of_merged body old new e = (
    ap (λ (ds : DataSource). ds.id) e,
    ap (λ (ds : DataSource). ds.url) e,
    ap (λ (ds : DataSource). ds.label) e,
    ap (λ (ds : DataSource). ds.api_key) e,
    ap (λ (ds : DataSource). ds.api_secret) e,
    ap (λ (ds : DataSource). ds.verify_ssl) e,
    ap (λ (ds : DataSource). ds.enabled) e,
    ap (λ (ds : DataSource). ds.tenant_name) e,
    ap (λ (ds : DataSource). ds.created_at) e,
  )

  -- Both where there is something to write and where there is nothing.
  pub written-IsUpdated :
      (body : EndpointUpdateRequest) (ds : DataSource)
      → IsUpdated body ds (set_columns (keep is_allowed (fields_of body)) now ds)
  written-IsUpdated body ds =
      IsUpdated-of_merged body ds (set_columns (keep is_allowed (fields_of body)) now ds)
        (ap (λ (x : DataSource). record x { updated_at = now }) (set_columns-fields_of body ds))

  pub unwritten-IsUpdated :
      (body : EndpointUpdateRequest) (ds : DataSource)
      → keep is_allowed (fields_of body) ≡ []
      → IsUpdated body ds ds
  unfolding set_columns
  unwritten-IsUpdated body ds e =
      IsUpdated-of_merged body ds ds
        (sym (ap (λ cs. set_columns cs now ds) e) ∙ set_columns-fields_of body ds)
