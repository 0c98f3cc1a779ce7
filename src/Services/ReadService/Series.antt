-- ===== src/Services/ReadService/Series.antt =====
-- The time series of backend/app/services/asoc_read_service.py: `calculate_findings_series` and
-- `calculate_scan_series`. A datetime is a number; `name_of period` writes the day, week, month or
-- year of one, which the source does by `strftime` and `isocalendar`, and `now` is the clock.
pub mod Totals
use app_scan_custom_dashboar.Base.{
  ℕ, ◌+◌, String, Bool, true, false, not, ◌&&◌, Option, none, some, List, [], ◌∷◌, map, ◌==◌, ltb,
  if◌then◌else◌, member, lower, strip, sort, text_le, Dict, lookup_or, insert, keys,
}
use app_scan_custom_dashboar.Json.{Fields, get, text_at, text_or}
use app_scan_custom_dashboar.Services.ReadService.Normalize.{normalize_severity, is_active_issue}
use app_scan_custom_dashboar.Services.ReadService.Filters.{parse_dt}
use app_scan_custom_dashboar.Services.ReadService.Prioritization.{
  Severities, empty_counts, add_severity, severity_of,
}

pub record SeriesRow : Type 0 where
  pub counts : Severities
  pub total : ℕ

abbrev pub empty_row : SeriesRow
empty_row = record { counts = empty_counts; total = 0 }

pub record Point : Type 0 where
  pub period : String
  pub row : SeriesRow

-- `period if period in {…} else "month"`.
unfoldable pub granularity : List String → String → String
unfolding member
granularity known period = if member period known then period else "month"

-- `_period_bucket`: an empty name is passed over too.
named_bucket : String → Option String
named_bucket name = if name == "" then none else some name

-- `row[sev] += 1; row["total"] += 1`.
add_row : String → SeriesRow → SeriesRow
unfolding add_severity
add_row sev row = record { counts = add_severity sev row.counts; total = row.total + 1 }

add_at : Option String → String → Dict SeriesRow → Dict SeriesRow
unfolding add_row lookup_or insert
add_at none sev buckets = buckets
add_at (some bucket) sev buckets =
    insert bucket (add_row sev (lookup_or bucket empty_row buckets)) buckets

abbrev severity_rank : String → ℕ
severity_rank sev =
    if sev == "critical"
    then 4
    else if sev == "high"
    then 3
    else if sev == "medium"
    then 2
    else if sev == "low"
    then 1
    else 0

-- The highest severity of the active issues of each application.
raise_severity : Fields → Dict String → Dict String
unfolding is_active_issue text_or severity_of lookup_or insert
raise_severity issue app_severity =
    let app_id = text_or "application_id" "" issue in
    let current = lookup_or app_id "unknown" app_severity in
    if is_active_issue issue
      && not (app_id == "")
      && ltb (severity_rank current) (severity_rank (severity_of issue))
    then insert app_id (severity_of issue) app_severity
    else app_severity

app_severities : List Fields → Dict String → Dict String
unfolding raise_severity
app_severities [] app_severity = app_severity
app_severities (issue ∷ issues) app_severity =
    app_severities issues (raise_severity issue app_severity)

severity_mode : String → String
unfolding member
severity_mode source =
    let mode = lower (strip source) in
    if member mode ("derived" ∷ "native" ∷ "hybrid" ∷ []) then mode else "hybrid"

scan_severity : String → Dict String → Fields → String
unfolding lookup_or text_or normalize_severity get
scan_severity mode app_severity scan =
    let derived = lookup_or (text_or "application_id" "" scan) "unknown" app_severity in
    let native = normalize_severity (get "native_severity" scan) in
    if mode == "derived"
    then derived
    else if mode == "native"
    then native
    else if not (native == "unknown")
    then native
    else derived

module _ (fromisoformat : String → Option ℕ) (name_of : String → ℕ → String) (now : ℕ) where
  unfoldable pub period_bucket : String → String → Option String
  unfolding parse_dt named_bucket
  period_bucket value period = elim (parse_dt fromisoformat value) [
    | none ↦ none
    | some time ↦ named_bucket (name_of period time)
  ]

  -- The rows in the order of their periods; without one, an empty row for the current period.
  points : String → Dict SeriesRow → List Point
  unfolding keys sort lookup_or
  points period [] = record { period = name_of period now; row = empty_row } ∷ []
  points period (e ∷ es) =
      map (λ k. record { period = k; row = lookup_or k empty_row (e ∷ es) })
        (sort text_le (keys (e ∷ es)))

  finding_loop : String → List Fields → Dict SeriesRow → Dict SeriesRow
  unfolding add_at period_bucket text_at severity_of
  finding_loop period [] buckets = buckets
  finding_loop period (issue ∷ issues) buckets =
      finding_loop period issues
        (add_at (period_bucket (text_at "opened_at" issue) period) (severity_of issue) buckets)

  unfoldable pub calculate_findings_series : List Fields → String → List Point
  unfolding finding_loop points granularity
  calculate_findings_series issues period =
      let known = granularity ("week" ∷ "month" ∷ "year" ∷ []) period in
      points known (finding_loop known issues [])

  scan_loop : String → String → Dict String → List Fields → Dict SeriesRow → Dict SeriesRow
  unfolding add_at period_bucket text_at scan_severity
  scan_loop period mode app_severity [] buckets = buckets
  scan_loop period mode app_severity (scan ∷ scans) buckets =
      scan_loop period mode app_severity scans (
        add_at (period_bucket (text_at "created_at" scan) period)
          (scan_severity mode app_severity scan) buckets)

  unfoldable pub calculate_scan_series : List Fields → List Fields → String → String → List Point
  unfolding scan_loop points granularity severity_mode app_severities
  calculate_scan_series scans issues period severity_source =
      let known = granularity ("day" ∷ "week" ∷ "month" ∷ []) period in
      points known
        (scan_loop known (severity_mode severity_source) (app_severities issues []) scans [])
