-- ===== src/Store/DataSources.antt =====
-- The table of backend/app/repositories/data_source_store.py: the ASoC endpoints that are read.
pub mod Refine
pub mod Spec
use app_scan_custom_dashboar.Base.{
  ℕ, ◌+◌, String, Bool, true, false, ◌&&◌, Option, none, some, List, [], ◌∷◌, keep, sort, text_le,
  length, ◌==◌, if◌then◌else◌,
}
use app_scan_custom_dashboar.Store.Table.{find_row, has_row, insert_row, update_rows, delete_rows}
use app_scan_custom_dashboar.Store.Exec.{
  DataSource, Database, World, Exec, pure, gets, write, write_new, utc_now, ◌>>=◌, ◌>>◌,
}
use app_scan_custom_dashboar.Errors.{ok}

abbrev pub data_source_key : DataSource → String
data_source_key ds = ds.id

-- `str(uuid.uuid4())`.
unfoldable pub new_id : (ℕ → String) → Exec String
new_id uuid w = (ok (uuid w.drawn), record w { drawn = w.drawn + 1 })

abbrev pub by_label : DataSource → DataSource → Bool
by_label a b = text_le a.label b.label

unfoldable pub listed : Bool → List DataSource → List DataSource
unfolding keep sort
listed include_disabled rows =
    if include_disabled then sort by_label rows else sort by_label (keep (λ ds. ds.enabled) rows)

unfoldable pub list_data_sources : Bool → Exec (List DataSource)
unfolding listed
list_data_sources include_disabled = gets (λ db. listed include_disabled db.data_sources)

unfoldable pub get_data_source : String → Exec (Option DataSource)
get_data_source ds_id = gets (λ db. find_row data_source_key ds_id db.data_sources)

-- The first row with this address and this key.
unfoldable pub find_pair : String → String → List DataSource → Option DataSource
find_pair url api_key [] = none
find_pair url api_key (ds ∷ rows) =
    let rest = find_pair url api_key rows in
    if ds.url == url && (ds.api_key == api_key) then some ds else rest

unfoldable pub get_data_source_by_url_and_key : String → String → Exec (Option DataSource)
unfolding find_pair
get_data_source_by_url_and_key url api_key = gets (λ db. find_pair url api_key db.data_sources)

unfoldable pub insert_data_source : DataSource → Database → Option Database
insert_data_source ds db = elim (insert_row data_source_key ds db.data_sources) [
  | none ↦ none
  | some rows ↦ some (record db { data_sources = rows })
]

-- The row that `create_data_source` inserts and returns.
abbrev pub new_row : String → String → String → String → String → String → Bool → Bool → DataSource
new_row ds_id now label url api_key api_secret verify_ssl enabled = record {
  id = ds_id;
  label = label;
  url = url;
  api_key = api_key;
  api_secret = api_secret;
  verify_ssl = verify_ssl;
  enabled = enabled;
  tenant_name = "";
  api_user_name = "";
  api_user_role = "";
  api_user_email = "";
  last_probed_at = none;
  last_probe_ok = none;
  created_at = now;
  updated_at = now;
}

-- One keyword argument of `update_data_source`, by its column; `another` is a name that the table
-- does not allow.
pub data Change : Type 0 where
  label_to : String → Change
  url_to : String → Change
  api_key_to : String → Change
  api_secret_to : String → Change
  verify_ssl_to : Bool → Change
  enabled_to : Bool → Change
  tenant_name_to : String → Change
  api_user_name_to : String → Change
  api_user_role_to : String → Change
  api_user_email_to : String → Change
  last_probed_at_to : Option String → Change
  last_probe_ok_to : Option Bool → Change
  another : String → Change

unfoldable pub is_allowed : Change → Bool
is_allowed (another name) = false
is_allowed (_) = true

unfoldable pub set_column : Change → DataSource → DataSource
set_column (label_to v) ds = record ds { label = v }
set_column (url_to v) ds = record ds { url = v }
set_column (api_key_to v) ds = record ds { api_key = v }
set_column (api_secret_to v) ds = record ds { api_secret = v }
set_column (verify_ssl_to v) ds = record ds { verify_ssl = v }
set_column (enabled_to v) ds = record ds { enabled = v }
set_column (tenant_name_to v) ds = record ds { tenant_name = v }
set_column (api_user_name_to v) ds = record ds { api_user_name = v }
set_column (api_user_role_to v) ds = record ds { api_user_role = v }
set_column (api_user_email_to v) ds = record ds { api_user_email = v }
set_column (last_probed_at_to v) ds = record ds { last_probed_at = v }
set_column (last_probe_ok_to v) ds = record ds { last_probe_ok = v }
set_column (another name) ds = ds

-- `SET …, updated_at = now`.
unfoldable pub set_columns : List Change → String → DataSource → DataSource
unfolding set_column
set_columns [] now ds = record ds { updated_at = now }
set_columns (c ∷ changes) now ds = set_columns changes now (set_column c ds)

unfoldable pub delete_data_source : String → Exec Bool
delete_data_source ds_id = do
  there ← gets (λ db. has_row data_source_key ds_id db.data_sources)
  write (λ db. record db { data_sources = delete_rows data_source_key ds_id db.data_sources })
  pure there

unfoldable pub count_data_sources : Exec ℕ
count_data_sources = gets (λ db. length db.data_sources)

module _ (clock uuid : ℕ → String) where
  unfoldable pub create_data_source :
      String → String → String → String → Bool → Bool → Exec DataSource
  unfolding new_id insert_data_source
  create_data_source label url api_key api_secret verify_ssl enabled = do
    ds_id ← new_id uuid
    now ← utc_now clock
    write_new
        (insert_data_source (new_row ds_id now label url api_key api_secret verify_ssl enabled))
    pure (new_row ds_id now label url api_key api_secret verify_ssl enabled)

module _ (clock : ℕ → String) where
  -- Without a change that the table allows, nothing is written and the clock is not read.
  unfoldable pub write_updates : String → List Change → Exec (Option DataSource)
  unfolding get_data_source set_columns
  write_updates ds_id [] = get_data_source ds_id
  write_updates ds_id (c ∷ changes) = do
    now ← utc_now clock
    write (λ db. record db {
      data_sources =
          update_rows data_source_key ds_id (set_columns (c ∷ changes) now) db.data_sources;
    })
    get_data_source ds_id

  unfoldable pub update_data_source : String → List Change → Exec (Option DataSource)
  unfolding write_updates keep is_allowed
  update_data_source ds_id fields = write_updates ds_id (keep is_allowed fields)
