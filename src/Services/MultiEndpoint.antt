-- ===== src/Services/MultiEndpoint.antt =====
-- The other merges of backend/app/services/multi_endpoint.py: `aggregate_risk_heatmap`,
-- `aggregate_status_distribution` and `aggregate_top_apps`. A service is what its calls answer: `none`
-- is an exception. The calls of `gather` are asked one after the other, and its results come in the
-- order of the calls. Counts are natural numbers.
pub mod Sums
pub mod Statuses
pub mod TopApps
use app_scan_custom_dashboar.Base.{
  ℕ, ◌+◌, String, Bool, true, false, not, ◌&&◌, Option, none, some, List, [], ◌∷◌, ◌++◌, map, ◌==◌,
  if◌then◌else◌, lower, strip, take, sort, higher, Dict, lookup, lookup_or, insert, keys, sum_of,
}
use app_scan_custom_dashboar.Json.{Fields, Value, text_or, or_text, get_or, text}

-- The counts of an application that the source reads.
pub record AppCounts : Type 0 where
  pub total : ℕ
  pub critical : ℕ
  pub high : ℕ

pub record Service : Type 0 where
  pub count_cell : String → String → Option ℕ
  pub count_status : String → Option ℕ
  pub applications : Option (List Fields)
  pub count_app : String → Option AppCounts

abbrev pub or_zero : Option ℕ → ℕ
or_zero none = 0
or_zero (some n) = n

abbrev pub severity_names : List String
severity_names = "Critical" ∷ "High" ∷ "Medium" ∷ "Low" ∷ []

abbrev pub technology_names : List String
technology_names = "SAST" ∷ "DAST" ∷ "SCA" ∷ "IAST" ∷ []

abbrev pub status_names : List String
status_names = "Open" ∷ "Fixed" ∷ "InProgress" ∷ "Noise" ∷ []

pub record Cell : Type 0 where
  pub severity : String
  pub technology : String
  pub count : ℕ

-- `[_one_cell(svc, sev, tech) for svc in services for sev in … for tech in …]`.
cells_of_severity : Service → String → List String → List Cell
cells_of_severity svc severity [] = []
cells_of_severity svc severity (technology ∷ rest) =
    record {
      severity = severity;
      technology = technology;
      count = or_zero (svc.count_cell severity technology);
    }
    ∷ cells_of_severity svc severity rest

cells_of_service : Service → List String → List Cell
unfolding cells_of_severity
cells_of_service svc [] = []
cells_of_service svc (severity ∷ rest) =
    cells_of_severity svc severity technology_names ++ cells_of_service svc rest

all_cells : List Service → List Cell
unfolding cells_of_service
all_cells [] = []
all_cells (svc ∷ services) = cells_of_service svc severity_names ++ all_cells services

-- `cells[severity][technology] += count`.
add_cell : Cell → Dict (Dict ℕ) → Dict (Dict ℕ)
unfolding lookup_or insert lower
add_cell c cells =
    let row = lookup_or c.severity [] cells in
    insert c.severity
      (insert (lower c.technology) (lookup_or (lower c.technology) 0 row + c.count) row) cells

add_cells : List Cell → Dict (Dict ℕ) → Dict (Dict ℕ)
unfolding add_cell
add_cells [] cells = cells
add_cells (c ∷ cs) cells = add_cells cs (add_cell c cells)

zero_row : Dict ℕ
unfolding lower
zero_row = map (λ t. (lower t, 0)) technology_names

zero_cells : Dict (Dict ℕ)
unfolding zero_row
zero_cells = map (λ s. (s, zero_row)) severity_names

pub record Heatmap : Type 0 where
  pub matrix : List (String × Dict ℕ)
  pub totals : Dict ℕ

-- Without a service the loop adds nothing, and the answer is the one of the early return.
unfoldable pub aggregate_risk_heatmap : List Service → Heatmap
unfolding all_cells add_cells zero_cells lookup_or lower sum_of
aggregate_risk_heatmap services =
    let cells = add_cells (all_cells services) zero_cells in
    record {
      matrix = map (λ s. (s, lookup_or s [] cells)) severity_names;
      totals =
          map
            (λ t.
              (lower t, sum_of (λ s. lookup_or (lower t) 0 (lookup_or s [] cells)) severity_names))
            technology_names;
    }

-- `aggregate_status_distribution`.
statuses_of : Service → List String → List (String × ℕ)
statuses_of svc [] = []
statuses_of svc (status ∷ rest) = (status, or_zero (svc.count_status status)) ∷ statuses_of svc rest

all_statuses : List Service → List (String × ℕ)
unfolding statuses_of
all_statuses [] = []
all_statuses (svc ∷ services) = statuses_of svc status_names ++ all_statuses services

add_statuses : List (String × ℕ) → Dict ℕ → Dict ℕ
unfolding lookup_or insert
add_statuses [] totals = totals
add_statuses ((status, count) ∷ rest) totals =
    add_statuses rest (insert status (lookup_or status 0 totals + count) totals)

unfoldable pub aggregate_status_distribution : List Service → List (String × ℕ)
unfolding all_statuses add_statuses lookup_or
aggregate_status_distribution services =
    let totals = add_statuses (all_statuses services) (map (λ s. (s, 0)) status_names) in
    map (λ s. (s, lookup_or s 0 totals)) status_names

-- `aggregate_top_apps`: the names of the applications, by the first service that lists them.
app_id_of : Fields → String
unfolding text_or
app_id_of app = strip (text_or "id" "" app)

app_name_of : Fields → String
unfolding text_or app_id_of
app_name_of app = strip (text_or "name" (app_id_of app) app)

abbrev is_missing : Option String → Bool
is_missing none = true
is_missing (some name) = false

add_app : Fields → Dict String → Dict String
unfolding app_id_of app_name_of lookup insert
add_app app app_map =
    if not (app_id_of app == "") && is_missing (lookup (app_id_of app) app_map)
    then insert (app_id_of app) (app_name_of app) app_map
    else app_map

add_apps : List Fields → Dict String → Dict String
unfolding add_app
add_apps [] app_map = app_map
add_apps (app ∷ apps) app_map = add_apps apps (add_app app app_map)

-- A service that fails lists nothing.
apps_of : Option (List Fields) → List Fields
apps_of none = []
apps_of (some apps) = apps

unfoldable pub app_map_of : List Service → Dict String → Dict String
unfolding add_apps apps_of
app_map_of [] app_map = app_map
app_map_of (svc ∷ services) app_map =
    app_map_of services (add_apps (apps_of svc.applications) app_map)

abbrev pub no_counts : AppCounts
no_counts = record { total = 0; critical = 0; high = 0 }

abbrev pub counts_or_none : Option AppCounts → AppCounts
counts_or_none none = no_counts
counts_or_none (some c) = c

add_counts : AppCounts → AppCounts → AppCounts
add_counts b c = record {
  total = b.total + c.total;
  critical = b.critical + c.critical;
  high = b.high + c.high;
}

-- The counts of one service for each application, added to the buckets.
merge_service : Service → List String → Dict AppCounts → Dict AppCounts
unfolding lookup_or insert add_counts
merge_service svc [] merged = merged
merge_service svc (id ∷ ids) merged = merge_service svc ids (
    insert id (add_counts (lookup_or id no_counts merged) (counts_or_none (svc.count_app id)))
      merged)

merge_services : List Service → List String → Dict AppCounts → Dict AppCounts
unfolding merge_service
merge_services [] ids merged = merged
merge_services (svc ∷ services) ids merged =
    merge_services services ids (merge_service svc ids merged)

pub record AppRow : Type 0 where
  pub app_id : String
  pub app_name : String
  pub total : ℕ
  pub critical : ℕ
  pub high : ℕ

unfoldable pub merged_counts : List Service → Dict AppCounts
unfolding app_map_of merge_services keys
merged_counts services = merge_services services (keys (app_map_of services [])) []

abbrev pub entry_total : String × AppCounts → ℕ
entry_total e = e.1.total

unfoldable pub top_entries : ℕ → List Service → List (String × AppCounts)
unfolding merged_counts sort
top_entries limit services = take limit (sort (higher entry_total) (merged_counts services))

unfoldable pub aggregate_top_apps : ℕ → List Service → List AppRow
unfolding top_entries app_map_of lookup_or
aggregate_top_apps limit services =
    map
      (λ e. record {
        app_id = e.0;
        app_name = lookup_or e.0 e.0 (app_map_of services []);
        total = e.1.total;
        critical = e.1.critical;
        high = e.1.high;
      })
      (top_entries limit services)
