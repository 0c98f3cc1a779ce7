-- ===== src/Routes/Endpoints/Tests.antt =====
-- The data-source routes of backend/app/api/v1/routes/endpoints.py, and the service and the table
-- behind them, on a few rows.
use app_scan_custom_dashboar.Base.{
  if◌then◌else◌, ◌==◌, Option, ℕ, zero, suc, ◌≤◌, String, Bool, true, false, none, some, List, [],
  ◌∷◌, ◌≡◌, refl, ap, sym, ◌≢◌, length, decimal, ◌<>◌,
}
use Prim.Native.Char.{Char}
use app_scan_custom_dashboar.Config.{Endpoint}
use app_scan_custom_dashboar.Errors.{ok}
use app_scan_custom_dashboar.Security.Session.{UserContext}
use app_scan_custom_dashboar.Store.Exec.{DataSource, Database, World, ◌>>=◌, utc_now}
use app_scan_custom_dashboar.Store.Table.{insert_row, has_row}
use app_scan_custom_dashboar.Store.DataSources.{new_row, label_to, another}
use app_scan_custom_dashboar.Store.DataSources.Spec.{Call, create, update, delete, get}
use app_scan_custom_dashboar.Store.DataSources.Spec as Map
use app_scan_custom_dashboar.Store.DataSources.Refine.{view, calls, calls_refine}
use app_scan_custom_dashboar.Json.{Value, text, arr, obj, end, nil, cons}
use app_scan_custom_dashboar.Services.DataSources.{
  Source, load_sources, get_identities, get_endpoint_labels, bootstrap_from_env,
}
use app_scan_custom_dashboar.Services.DataSources.Bootstrap.{
  Ends, Reads, rows_of, pairs, bootstrap_from_env-imports,
}
use app_scan_custom_dashboar.Services.DataSources.Chosen.{ReadFrom, load_sources-ReadFrom}
use app_scan_custom_dashboar.Services.DataSources.Display.{rekeyed, display-rekeyed}
use app_scan_custom_dashboar.Services.DataSources.Merge.{aggregate_list}
use app_scan_custom_dashboar.Services.DataSources.Merge.Origin.{IsMerge, aggregate_list-IsMerge}
use app_scan_custom_dashboar.Routes.Endpoints.{
  EndpointCreateRequest, EndpointUpdateRequest, create_endpoint, update_endpoint, delete_endpoint,
}
use app_scan_custom_dashboar.Routes.Endpoints.Managed.{
  Added, Changed, Removed, ManagedEnd, managing_routes-End,
}

abbrev clock : ℕ → String
clock n = "2026-01-0" <> decimal n

-- Ids that never repeat.
abbrev uuid : ℕ → String
uuid zero = ""
uuid (suc n) = String.◌∷◌ (Char.char 120 tt) (uuid n)

abbrev rest : String → String
rest String.[] = ""
rest (String.◌∷◌ c s) = s

abbrev blank : String → Bool
blank String.[] = true
blank (String.◌∷◌ c s) = false

true_is_not_false : true ≢ false
true_is_not_false e = cc

uuid-apart : (i j : ℕ) → uuid i ≡ uuid j → i ≡ j
uuid-apart zero zero e = refl
uuid-apart zero (suc j) e = absurd (true_is_not_false (ap blank e))
uuid-apart (suc i) zero e = absurd (true_is_not_false (ap blank (sym e)))
uuid-apart (suc i) (suc j) e = ap suc (uuid-apart i j (ap rest e))

abbrev row : String → Bool → DataSource
row id enabled = record (new_row id "t" ("label " <> id) "https://eu" "k" "s" true enabled) {
  tenant_name = "acme";
}

abbrev no_rows : Database
no_rows = record {
  dashboards = [];
  dashboard_versions = [];
  dashboard_templates = [];
  report_templates = [];
  report_history = [];
  report_schedules = [];
  report_artifacts = [];
  audit_events = [];
  analytics_snapshots = [];
  data_sources = [];
}

abbrev empty_world : World
empty_world = record { db = no_rows; drawn = 0; ticks = 0 }

abbrev world : World
world = record {
  db = record no_rows { data_sources = row "b" true ∷ row "a" true ∷ row "c" false ∷ [] };
  drawn = 1;
  ticks = 0;
}

abbrev env : List Endpoint
env =
    record { url = "https://eu/"; key = "k"; secret = "s"; label = "EU"; verify = true }
    ∷ record { url = "https://eu"; key = "k"; secret = "s"; label = "EU again"; verify = true }
    ∷ record { url = "https://us"; key = ""; secret = ""; label = "US"; verify = true }
    ∷ []

abbrev manager : UserContext
manager = record { subject = "ann"; role = "PlatformAdmin"; asset_group_ids = [] }

abbrev two_calls : List Call
two_calls =
    create "EU" "https://eu" "k" "s" true true
    ∷ update "x" (label_to "Europe" ∷ another "id" ∷ [])
    ∷ get "u"
    ∷ delete "u"
    ∷ get "u"
    ∷ []

calls_refine_example : calls clock uuid two_calls world ≡ Map.run clock uuid two_calls (view world)
calls_refine_example = calls_refine clock uuid two_calls world

bootstrap_from_env-imports_example :
    Ends
      (λ m w.
        (length (rows_of w) ≡ m)
        × Reads env w
        × ((url key : String) → pairs url key (rows_of w) ≤ 1))
      (bootstrap_from_env clock uuid env empty_world)
bootstrap_from_env-imports_example =
    bootstrap_from_env-imports clock uuid uuid-apart env empty_world refl

one_is_imported : (bootstrap_from_env clock uuid env empty_world).0 ≡ ok 1
unfolding bootstrap_from_env ◌>>=◌ utc_now insert_row has_row
one_is_imported = refl

load_sources-ReadFrom_example :
    (sources : List Source) × (load_sources env ("b" ∷ "x" ∷ []) world ≡ (ok sources, world))
    × ReadFrom env ("b" ∷ "x" ∷ []) world.db.data_sources sources
load_sources-ReadFrom_example = load_sources-ReadFrom env ("b" ∷ "x" ∷ []) world

display-rekeyed_example :
    ((get_identities (rekeyed (λ ds. ds.id) (λ _. "") world)).0 ≡ (get_identities world).0)
    × ((get_endpoint_labels env (rekeyed (λ ds. ds.id) (λ _. "") world)).0
        ≡ (get_endpoint_labels env world).0)
display-rekeyed_example = display-rekeyed (λ ds. ds.id) (λ _. "") env world

abbrev body : EndpointCreateRequest
body = record {
  url = "https://us";
  label = "US";
  api_key = "k2";
  api_secret = "";
  verify_ssl = true;
}

abbrev changes : EndpointUpdateRequest
changes = record {
  url = none;
  label = some " B ";
  api_key = none;
  api_secret = none;
  verify_ssl = none;
  enabled = some false;
}

managing_routes-End_example :
    ManagedEnd clock uuid env manager
      (Added body)
      world.db
      (create_endpoint clock uuid env manager body world)
    × ManagedEnd clock uuid env manager
        (Changed "b" changes)
        world.db
        (update_endpoint clock uuid env manager "b" changes world)
    × ManagedEnd clock uuid env manager
        (Removed "b")
        world.db
        (delete_endpoint clock uuid env manager "b" world)
managing_routes-End_example = managing_routes-End clock uuid env manager "b" body changes world

abbrev two_issues : Source → Option Value
two_issues ds = if ds.id == "a" then none else some (arr (cons (obj end) (cons (text "x") nil)))

aggregate_list-IsMerge_example :
    (sources : List Source) × (merged : List Value) × (load_sources env [] world
      ≡ (ok sources, world))
    × (aggregate_list two_issues env [] world ≡ (ok merged, world))
    × IsMerge two_issues sources merged
aggregate_list-IsMerge_example = aggregate_list-IsMerge two_issues env [] world
