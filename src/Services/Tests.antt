-- ===== src/Services/Tests.antt =====
-- The issue counts of backend/app/services/multi_endpoint.py and its other merges.
use app_scan_custom_dashboar.Base.{
  String, ◌≡◌, refl, none, some, List, [], ◌∷◌, map, ◌==◌, if◌then◌else◌, lookup_or, sum_of, lower,
  strip, member, All, Best, sort,
}
use app_scan_custom_dashboar.Services.IssueCounts.{SourceResult, counts, number, other}
use app_scan_custom_dashboar.Json.{end, field, text}
use app_scan_custom_dashboar.Services.MultiEndpoint.{
  Service, AppCounts, severity_names, aggregate_risk_heatmap, aggregate_top_apps, entry_total,
  merged_counts, top_entries,
}
use app_scan_custom_dashboar.Services.MultiEndpoint.Sums.{cell_total, aggregate_risk_heatmap-sums}
use app_scan_custom_dashboar.Services.MultiEndpoint.TopApps.{Counted, top_entries-Best}

abbrev first : SourceResult
first = counts (("total", number 5) ∷ ("high", number 2) ∷ ("note", other) ∷ [])

abbrev second : SourceResult
second = counts (("total", number 7) ∷ [])

-- Two services: one answers, one fails.
abbrev answering : Service
answering = record {
  count_cell = λ s t. some 3;
  count_status = λ s. some 4;
  applications =
      some (
        field "id" (text " a1") (field "name" (text "Shop") end) ∷ field "id" (text "a2") end ∷ []);
  count_app = λ id. some (record { total = if id == "a1" then 2 else 9; critical = 1; high = 1 });
}

abbrev down : Service
down = record {
  count_cell = λ s t. none;
  count_status = λ s. none;
  applications = none;
  count_app = λ id. none;
}

abbrev both : List Service
both = answering ∷ down ∷ []

aggregate_risk_heatmap-sums_example :
    (lookup_or (lower "DAST") 0 (lookup_or "High" [] (aggregate_risk_heatmap both).matrix)
      ≡ cell_total both "High" "DAST")
    × (lookup_or (lower "DAST") 0 (aggregate_risk_heatmap both).totals
        ≡ sum_of (λ x. cell_total both x "DAST") severity_names)
unfolding member
aggregate_risk_heatmap-sums_example = aggregate_risk_heatmap-sums both "High" "DAST" refl refl

top_entries-Best_example :
    All (Counted both) (top_entries 1 both)
    × ((rest : List (String × AppCounts)) × Best entry_total 1
          (merged_counts both)
          (top_entries 1 both)
          rest)
top_entries-Best_example = top_entries-Best 1 both

top_app : map (λ r. r.app_id) (aggregate_top_apps 1 both) ≡ "a2" ∷ []
unfolding aggregate_top_apps top_entries sort strip
top_app = refl
