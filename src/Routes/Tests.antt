-- ===== src/Routes/Tests.antt =====
-- Runs of the routes of backend/app/api/v1/routes on small tables.
use app_scan_custom_dashboar.Base.{
  ℕ, String, ◌<>◌, ◌≡◌, refl, false, none, some, List, [], ◌∷◌, ◌++◌, decimal, text_take, member,
  lookup, first_where, ◌==◌, ◌&&◌, eqb,
}
use app_scan_custom_dashboar.Json.{field, text, end}
use app_scan_custom_dashboar.Errors.{Exception, ok, err, http_exception}
use app_scan_custom_dashboar.Security.Policy.{
  assert_action_allowed, allowed_roles, role_action_policy,
}
use app_scan_custom_dashboar.Security.Session.{UserContext}
use app_scan_custom_dashboar.Store.Table.{find_row, has_row}
use app_scan_custom_dashboar.Store.Exec.{Dashboard, DashboardVersion, Database, World}
use app_scan_custom_dashboar.Store.Dashboards as Rows
use app_scan_custom_dashboar.Store.Dashboards.Versions.{IsNumbered, numbers}
use app_scan_custom_dashboar.Routes.Dashboard.{
  CreateRequest, UpdateRequest, create_dashboard, rollback_dashboard_version,
}
use app_scan_custom_dashboar.Routes.Dashboard.Numbering.{
  Request, create, update, delete, rollback, serve, serve_all, serve_all-IsNumbered,
}
use app_scan_custom_dashboar.Routes.Dashboard.Outcomes.{
  serve-refused, rollback-restores, restored, rolled, create-get, created, action_of,
}

abbrev clock : ℕ → String
clock n = "t" <> decimal n

abbrev uuid : ℕ → String
uuid n = "0123456789" <> decimal n

abbrev owner : UserContext
owner = record { subject = "ann"; role = "AppOwner"; asset_group_ids = "g1" ∷ [] }

abbrev developer : UserContext
developer = record { subject = "dev"; role = "Developer"; asset_group_ids = [] }

abbrev no_rows : Database
no_rows = record {
  dashboards = [];
  dashboard_versions = [];
  dashboard_templates = [];
  report_templates = [];
  report_history = [];
  report_schedules = [];
  report_artifacts = [];
  audit_events = [];
  analytics_snapshots = [];
  data_sources = [];
}

abbrev start : World
start = record { db = no_rows; drawn = 0; ticks = 0 }

abbrev payload : CreateRequest
payload = record { name = "Risk"; widgets = []; blueprint = none }

abbrev change : UpdateRequest
change = record { name = some "Risks"; widgets = none; blueprint = none }

start-IsNumbered : IsNumbered no_rows
unfolding numbers
start-IsNumbered = record { at = λ id. tt }

abbrev requests : List (UserContext × Request)
requests =
    (owner, create payload)
    ∷ (owner, update "d-01234567" change)
    ∷ (developer, delete "d-01234567")
    ∷ (owner, rollback "d-01234567" 1)
    ∷ []

serve_all-IsNumbered_example : IsNumbered (serve_all clock uuid requests start).db
serve_all-IsNumbered_example = serve_all-IsNumbered clock uuid requests start start-IsNumbered

abbrev forbidden : Exception
forbidden = http_exception 403 "Insufficient role for requested action"

developer_creates_nothing :
    assert_action_allowed (action_of (create payload)) developer.role ≡ err forbidden
unfolding action_of assert_action_allowed allowed_roles role_action_policy member lookup
developer_creates_nothing = refl

serve-refused_example : serve clock uuid developer (create payload) start ≡ (err forbidden, start)
serve-refused_example =
    serve-refused clock uuid developer (create payload) forbidden start developer_creates_nothing

owner_creates : assert_action_allowed "create_dashboard" owner.role ≡ ok tt
unfolding assert_action_allowed allowed_roles role_action_policy member lookup
owner_creates = refl

no_row : {A : Type 0} (key : A → String) (k : String) → has_row key k [] ≡ false
unfolding has_row
no_row key k = refl

create-get_example :
    let (r, w') = create_dashboard clock uuid owner payload start in
    (r ≡ ok (created clock uuid owner payload start))
    × (find_row Rows.dashboard_key (created clock uuid owner payload start).id w'.db.dashboards
        ≡ some (created clock uuid owner payload start))
create-get_example =
    create-get clock uuid owner payload start owner_creates (no_row _ _) (no_row _ _) (no_row _ _)

abbrev risk : Dashboard
risk = record {
  id = "d-1";
  name = "Risks";
  widgets = [];
  blueprint = end;
  owner = "ann";
  created_at = "t";
  updated_at = "t";
}

abbrev first_version : DashboardVersion
first_version = record {
  id = "dv-1";
  dashboard_id = "d-1";
  version = 1;
  name = "Risk";
  widgets = field "type" (text "bar") end ∷ [];
  owner = "ann";
  change_note = "initial creation";
  created_at = "t";
}

abbrev filled : World
filled = record {
  db = record no_rows { dashboards = risk ∷ []; dashboard_versions = first_version ∷ [] };
  drawn = 0;
  ticks = 0;
}

risk_found : find_row Rows.dashboard_key "d-1" filled.db.dashboards ≡ some risk
unfolding find_row
risk_found = refl

version_found :
    first_where
      (λ (r : DashboardVersion). r.dashboard_id == "d-1" && eqb r.version 1)
      filled.db.dashboard_versions
    ≡ some first_version
unfolding first_where
version_found = refl

fresh_version :
    has_row Rows.version_key
      ("dv-" <> text_take 10 (uuid filled.drawn))
      filled.db.dashboard_versions
    ≡ false
unfolding has_row text_take decimal
fresh_version = refl

rollback-restores_example :
    let (r, w') = rollback_dashboard_version clock uuid owner "d-1" 1 filled in
    (r ≡ ok (restored clock uuid owner risk first_version filled))
    × (find_row Rows.dashboard_key "d-1" w'.db.dashboards
        ≡ some (restored clock uuid owner risk first_version filled))
    × (w'.db.dashboard_versions
        ≡ filled.db.dashboard_versions
          ++ (rolled clock uuid owner "d-1" 1 risk first_version filled ∷ []))
rollback-restores_example =
    rollback-restores clock uuid owner "d-1" 1 risk first_version filled owner_creates risk_found
      version_found fresh_version (no_row _ _)
