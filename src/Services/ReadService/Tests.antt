-- ===== src/Services/ReadService/Tests.antt =====
-- The functions of backend/app/services/asoc_read_service.py on a few scans and issues.
use app_scan_custom_dashboar.Base.{
  ℕ, ◌+◌, if◌then◌else◌, ◌*◌, String, true, Option, none, some, List, [], ◌∷◌, ◌≡◌, refl, ap, ◌⊎◌,
  inr, map, ◌==◌, strip, upper, lower, member, length, take, drop, count_where, sum_of, lookup, Mem,
  Best, ℤ, pos,
}
use mathlib.Core.List.{mem-cons}
use mathlib.Core.Logic.Or
use app_scan_custom_dashboar.Json.{
  Value, Items, Fields, int, text, arr, obj, end, field, nil, cons, get,
}
use app_scan_custom_dashboar.Client.Http.{World, Action, done, raised, pure, transport_error}
use app_scan_custom_dashboar.Client.Read.{dicts, items_in}
use app_scan_custom_dashboar.Services.ReadService.Normalize.{
  normalize_scan_type, normalize_severity, normalize_issue_technology, extract_items,
  extract_native_scan_severity,
}
use app_scan_custom_dashboar.Services.ReadService.Normalize.Forms.{
  Fixed, severities, technologies, scan_types, normalize-forms,
}
use app_scan_custom_dashboar.Services.ReadService.Technology.{build_app_technology_maps}
use app_scan_custom_dashboar.Services.ReadService.Technology.Primary.{
  IsPrimary, scans_of, build_app_technology_maps-IsPrimary,
}
use app_scan_custom_dashboar.Services.ReadService.Filters.{
  Filters, one_or_many, apply_filters, filter_issues_by_dimensions,
}
use app_scan_custom_dashboar.Services.ReadService.Filters.Scope.{
  dimensions, IsInScope, filter_issues_by_dimensions-apply_filters, apply_filters-IsInScope,
}
use app_scan_custom_dashboar.Services.ReadService.Statistics.{
  calculate_statistics, build_issue_filter_options, OptionItem, has_technology,
}
use app_scan_custom_dashboar.Services.ReadService.Statistics.Totals.{
  is_low, calculate_statistics-partition,
}
use app_scan_custom_dashboar.Services.ReadService.Statistics.Options.{
  is_unclassified, build_issue_filter_options-technologies,
}
use app_scan_custom_dashboar.Services.ReadService.Prioritization.{
  calculate_prioritization, severity_total, values, issue_loop, no_buckets, top_fix_groups,
  top_critical, fix_score, app_score, FixBucket, AppBucket,
}
use app_scan_custom_dashboar.Services.ReadService.Prioritization.Totals.{
  worst_counts, calculate_prioritization-totals, top-Best,
}
use app_scan_custom_dashboar.Services.ReadService.Series.{
  Point, granularity, calculate_findings_series, calculate_scan_series,
}
use app_scan_custom_dashboar.Services.ReadService.Series.Totals.{is_dated, series-total}
use app_scan_custom_dashboar.Services.ReadService.Paging.{
  fetch_all_pages, page_params, number_param, get_issue_counts, get_filtered_count,
  get_issue_counts_per_app,
}
use app_scan_custom_dashboar.Services.ReadService.Paging.Pages.{Serves, fetch_all_pages-reads}
use app_scan_custom_dashboar.Services.ReadService.Paging.Counts.{
  Answers, Anything, counted_ids, counts-Answers,
}

abbrev scan : String → String → Fields
scan app kind =
    field "application_id" (text app)
      (field "scan_type" (text kind) (field "status" (text "running") end))

abbrev scans : List Fields
scans = scan "a1" "DAST" ∷ scan "a1" "SAST" ∷ scan "a1" "sast" ∷ scan "a2" "other" ∷ []

abbrev issue : String → String → String → Fields
issue group app severity = field "application_id" (text app) (
    field "asset_group_id" (text group) (
      field "severity" (text severity)
        (field "status" (text "Open") (field "vulnerability" (text "XSS") end))))

abbrev issues : List Fields
issues = issue "g1" "a1" "High" ∷ issue "" "a1" "3" ∷ issue "g2" "a2" "info" ∷ []

abbrev no_dates : String → Option ℕ
no_dates t = none

abbrev for_group : Filters
for_group = record {
  asset_group_id = some "g1";
  asset_group_ids = [];
  application_id = none;
  application_ids = "a1" ∷ [];
  application_name = none;
  issue_technologies = "sast" ∷ [];
  vulnerabilities = "xss" ∷ [];
  scan_types = [];
  scan_statuses = [];
  from_date = none;
  to_date = none;
}

normalize-forms_example :
    ((member (normalize_scan_type (scan "a1" "DAST")) scan_types ≡ true)
      × (upper (normalize_scan_type (scan "a1" "DAST")) ≡ normalize_scan_type (scan "a1" "DAST")))
    × Fixed severities normalize_severity (extract_native_scan_severity (scan "a1" "DAST"))
    × Fixed severities normalize_severity (normalize_severity (text "Sev-4"))
    × Fixed technologies normalize_issue_technology (normalize_issue_technology (text "Sev-4"))
normalize-forms_example = normalize-forms (scan "a1" "DAST") (text "Sev-4")

build_app_technology_maps-IsPrimary_example :
    ((lookup "a1" (build_app_technology_maps scans).1 ≡ none)
      × ((u : String) → scans_of "a1" u scans ≡ 0))
    ⊎ ((t : String) × (lookup "a1" (build_app_technology_maps scans).1 ≡ some t)
        × IsPrimary scans "a1" t)
build_app_technology_maps-IsPrimary_example = build_app_technology_maps-IsPrimary scans "a1"

primary_of_a1 : lookup "a1" (build_app_technology_maps scans).1 ≡ some "SAST"
unfolding build_app_technology_maps lookup upper
primary_of_a1 = refl

filter_issues_by_dimensions-apply_filters_example :
    filter_issues_by_dimensions scans issues ("SAST" ∷ []) ("xss" ∷ [])
    ≡ (apply_filters no_dates scans issues (dimensions ("SAST" ∷ []) ("xss" ∷ []))).1
filter_issues_by_dimensions-apply_filters_example =
    filter_issues_by_dimensions-apply_filters no_dates scans issues ("SAST" ∷ []) ("xss" ∷ [])

kept_issues : (apply_filters no_dates scans issues for_group).1 ≡ take 2 issues
unfolding apply_filters build_app_technology_maps lookup upper lower strip
kept_issues = refl

abbrev kept_issue : Mem (issue "g1" "a1" "High") (apply_filters no_dates scans issues for_group).1
kept_issue = rw kept_issues (mem-cons.1 (Or.inl refl))

apply_filters-IsInScope_example :
    (Mem (issue "g1" "a1" "High") scans ⊎ Mem (issue "g1" "a1" "High") issues)
    × IsInScope ("g1" ∷ []) ("a1" ∷ []) (issue "g1" "a1" "High")
unfolding one_or_many
apply_filters-IsInScope_example =
    apply_filters-IsInScope no_dates scans issues for_group (issue "g1" "a1" "High") refl
      (inr kept_issue)

calculate_statistics-partition_example :
    ((calculate_statistics scans issues []).critical_issues
        + (calculate_statistics scans issues []).high_issues
        + (calculate_statistics scans issues []).medium_issues
        + (calculate_statistics scans issues []).low_issues
      ≡ (calculate_statistics scans issues []).total_issues)
    × ((calculate_statistics scans issues []).total_issues ≡ length issues)
    × ((calculate_statistics scans issues []).low_issues ≡ count_where is_low issues)
    × ((calculate_statistics scans issues []).active_issues
          + (calculate_statistics scans issues []).resolved_issues
        ≡ (calculate_statistics scans issues []).total_issues)
calculate_statistics-partition_example = calculate_statistics-partition scans issues

calculate_prioritization-totals_example :
    ((calculate_prioritization issues).finding_totals
      ≡ (calculate_prioritization issues).raw_findings)
    × ((calculate_prioritization issues).raw_findings.total ≡ length issues)
    × ((calculate_prioritization issues).totals
        ≡ worst_counts (values (issue_loop issues no_buckets).fix_groups))
    × (severity_total (calculate_prioritization issues).totals
        ≡ (calculate_prioritization issues).total_groups)
calculate_prioritization-totals_example = calculate_prioritization-totals issues

top-Best_example :
    ((rest : List FixBucket) × Best fix_score 25
        (values (issue_loop issues no_buckets).fix_groups)
        (top_fix_groups issues)
        rest)
    × ((rest : List AppBucket) × Best app_score 25
          (values (issue_loop issues no_buckets).app_hotspots)
          (top_critical issues)
          rest)
top-Best_example = top-Best issues

build_issue_filter_options-technologies_example :
    ((build_issue_filter_options scans issues 5).technologies
      ≡ map
          (λ t. record {
            value = t;
            label = t;
            count = count_where (has_technology scans t) issues;
          })
          ("DAST" ∷ "SAST" ∷ "SCA" ∷ "IAST" ∷ []))
    × ((build_issue_filter_options scans issues 5).unclassified_count
        ≡ count_where (is_unclassified scans) issues)
    × (sum_of (λ (o : OptionItem). o.count) (build_issue_filter_options scans issues 5).technologies
          + (build_issue_filter_options scans issues 5).unclassified_count
        ≡ length issues)
build_issue_filter_options-technologies_example =
    build_issue_filter_options-technologies scans issues 5

-- A service that answers pages of the issues.
items_of : List Fields → Items
items_of [] = nil
items_of (d ∷ ds) = cons (obj d) (items_of ds)

dicts-items_of : (ds : List Fields) → dicts (items_of ds) ≡ ds
unfolding items_of
dicts-items_of [] = refl
dicts-items_of (d ∷ ds) = ap (λ (l : List Fields). d ∷ l) (dicts-items_of ds)

skip_of : Value → ℕ
skip_of (int (pos n)) = n
skip_of _ = 0

serve_page : String → Fields → Action ℕ Fields
unfolding skip_of items_of get
serve_page path params =
    pure (field "Items" (arr (items_of (take 2 (drop (skip_of (get "$skip" params)) issues)))) end)

abbrev two : Fields
two = field "$top" (int (pos 2)) end

serve_page-Serves : Serves serve_page "/api/v4/Issues" two 2 issues
unfolding serve_page page_params get skip_of extract_items pure items_in
serve_page-Serves = record {
  answer = λ skip w. field "Items" (arr (items_of (take 2 (drop skip issues)))) end;
  after = λ skip w. w;
  answers = λ skip w. refl;
  page = λ skip w. dicts-items_of (take 2 (drop skip issues));
}

abbrev idle : World ℕ
idle = record {
  service = 0;
  access_token = none;
  access_token_expiry = none;
  owner_user_id = none;
  login_succeeded = none;
  sent = [];
  slept = [];
}

fetch_all_pages-reads_example :
    (fetch_all_pages serve_page "/api/v4/Issues" two none idle).0
    ≡ done (take (5000 * 2) (drop 0 issues))
unfolding number_param
fetch_all_pages-reads_example =
    fetch_all_pages-reads serve_page "/api/v4/Issues" two issues none idle serve_page-Serves

-- A client whose every count fails.
failing : String → Fields → Action ℕ ℤ
failing path params w = (raised transport_error, w)

counts-Answers_example :
    Answers Anything (get_issue_counts failing true (some "a1") none)
    × Answers Anything (get_filtered_count failing true (some "High") none none (some "a1"))
    × Answers
        (λ rows. map (λ row. row.0) rows ≡ counted_ids true (" a1" ∷ []))
        (get_issue_counts_per_app failing true (" a1" ∷ []))
counts-Answers_example =
    counts-Answers failing (some "a1") none (some "High") none none true (" a1" ∷ [])

abbrev dated : String → String → Fields
dated key time =
    field "application_id" (text "a1") (field "severity" (text "High") (field key (text time) end))

abbrev read_time : String → Option ℕ
read_time s = if s == "" then none else some 5

abbrev opened : List Fields
opened = dated "opened_at" "2026-01-02" ∷ dated "opened_at" "" ∷ []

abbrev created : List Fields
created = dated "created_at" "2026-01-03" ∷ []

series-total_example :
    (sum_of
        (λ (p : Point). p.row.total)
        (calculate_findings_series read_time (λ p _. p) 7 opened "week")
      ≡ count_where
          (is_dated read_time
            (λ p _. p)
            7
            "opened_at"
            (granularity ("week" ∷ "month" ∷ "year" ∷ []) "week"))
          opened)
    × (sum_of
          (λ (p : Point). p.row.total)
          (calculate_scan_series read_time (λ p _. p) 7 created opened "week" "native")
        ≡ count_where
            (is_dated read_time
              (λ p _. p)
              7
              "created_at"
              (granularity ("day" ∷ "week" ∷ "month" ∷ []) "week"))
            created)
series-total_example = series-total read_time (λ p _. p) 7 created opened "week" "native"
