-- ===== src/Store/Dashboards.antt =====
-- Dashboards and their versions in backend/app/repositories/postgres_store.py.
pub mod Effects
pub mod Versions
use app_scan_custom_dashboar.Base.{
  ℕ, ◌+◌, max, String, ◌<>◌, Bool, true, false, ◌&&◌, not, Option, none, some, List, [], ◌∷◌, ◌++◌,
  ◌==◌, if◌then◌else◌, eqb, leb, keep, first_where, sort, text_le, take,
}
use app_scan_custom_dashboar.Json.{Fields, end}
use app_scan_custom_dashboar.Store.Table.{find_row, has_row, insert_row, update_rows, delete_rows}
use app_scan_custom_dashboar.Store.Exec.{
  Dashboard, DashboardVersion, Database, World, Exec, pure, gets, write, write_new, utc_now, ◌>>=◌,
  ◌>>◌,
}

abbrev pub dashboard_key : Dashboard → String
dashboard_key d = d.id

abbrev pub version_key : DashboardVersion → String
version_key v = v.id

unfoldable pub list_dashboards : Exec (List Dashboard)
list_dashboards = gets (λ db. sort (λ a b. text_le b.updated_at a.updated_at) db.dashboards)

unfoldable pub get_dashboard : String → Exec (Option Dashboard)
get_dashboard dashboard_id = gets (λ db. find_row dashboard_key dashboard_id db.dashboards)

insert_dashboard : Dashboard → Database → Option Database
insert_dashboard d db = elim (insert_row dashboard_key d db.dashboards) [
  | none ↦ none
  | some rows ↦ some (record db { dashboards = rows })
]

-- `blueprint or {}`.
blueprint_or_empty : Option Fields → Fields
blueprint_or_empty none = end
blueprint_or_empty (some b) = b

-- SELECT MAX(version) … WHERE dashboard_id = id: 0 where there is none.
unfoldable pub max_version : String → List DashboardVersion → ℕ
max_version id [] = 0
max_version id (v ∷ vs) =
    let rest = max_version id vs in if v.dashboard_id == id then max v.version rest else rest

unfoldable pub next_dashboard_version : String → Exec ℕ
next_dashboard_version dashboard_id =
    gets (λ db. max_version dashboard_id db.dashboard_versions + 1)

insert_version : DashboardVersion → Database → Option Database
insert_version v db = elim (insert_row version_key v db.dashboard_versions) [
  | none ↦ none
  | some rows ↦ some (record db { dashboard_versions = rows })
]

-- ORDER BY version DESC LIMIT limit.
unfoldable pub list_dashboard_versions : String → ℕ → Exec (List DashboardVersion)
list_dashboard_versions dashboard_id limit = gets λ db. take limit (
    sort (λ a b. leb b.version a.version)
      (keep (λ v. v.dashboard_id == dashboard_id) db.dashboard_versions))

unfoldable pub get_dashboard_version : String → ℕ → Exec (Option DashboardVersion)
get_dashboard_version dashboard_id version = gets λ db.
    first_where (λ v. v.dashboard_id == dashboard_id && eqb v.version version) db.dashboard_versions

-- The columns that an update sets; `none` is None, which keeps the old value.
given {ℓ} : {A : Type ℓ} → Option A → A → A
given none old = old
given (some new) old = new

changed : Option String → Option (List Fields) → Option Fields → String → Dashboard → Dashboard
unfolding given
changed name widgets blueprint now d = record d {
  name = given name d.name;
  widgets = given widgets d.widgets;
  blueprint = given blueprint d.blueprint;
  updated_at = now;
}

set_dashboard : String → (Dashboard → Dashboard) → Database → Database
set_dashboard id f db = record db { dashboards = update_rows dashboard_key id f db.dashboards }

remove_dashboard : String → Database → Database
remove_dashboard id db = record db { dashboards = delete_rows dashboard_key id db.dashboards }

module _ (clock : ℕ → String) where
  unfoldable pub create_dashboard :
      String → String → List Fields → String → Option Fields → Exec Dashboard
  unfolding insert_dashboard blueprint_or_empty
  create_dashboard dashboard_id name widgets owner blueprint = do
    now ← utc_now clock
    let d : Dashboard = record {
      id = dashboard_id;
      name = name;
      widgets = widgets;
      blueprint = blueprint_or_empty blueprint;
      owner = owner;
      created_at = now;
      updated_at = now;
    }
    write_new (insert_dashboard d)
    pure d

  unfoldable pub append_dashboard_version :
      String → String → String → List Fields → String → String → Exec DashboardVersion
  unfolding insert_version
  append_dashboard_version version_id dashboard_id name widgets owner change_note = do
    created_at ← utc_now clock
    version ← next_dashboard_version dashboard_id
    let v : DashboardVersion = record {
      id = version_id;
      dashboard_id = dashboard_id;
      version = version;
      name = name;
      widgets = widgets;
      owner = owner;
      change_note = change_note;
      created_at = created_at;
    }
    write_new (insert_version v)
    pure v

  update_found :
      String
      → Option String
      → Option (List Fields)
      → Option Fields
      → Option Dashboard
      → Exec (Option Dashboard)
  unfolding changed set_dashboard
  update_found dashboard_id name widgets blueprint none = pure none
  update_found dashboard_id name widgets blueprint (some existing) = do
    updated_at ← utc_now clock
    write (set_dashboard dashboard_id (changed name widgets blueprint updated_at))
    pure (some (changed name widgets blueprint updated_at existing))

  unfoldable pub update_dashboard :
      String → Option String → Option (List Fields) → Option Fields → Exec (Option Dashboard)
  unfolding update_found
  update_dashboard dashboard_id name widgets blueprint = do
    existing ← get_dashboard dashboard_id
    update_found dashboard_id name widgets blueprint existing

-- True if a row was deleted.
unfoldable pub delete_dashboard : String → Exec Bool
unfolding remove_dashboard
delete_dashboard dashboard_id = do
  there ← gets (λ db. has_row dashboard_key dashboard_id db.dashboards)
  write (remove_dashboard dashboard_id)
  pure there
