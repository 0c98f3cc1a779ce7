-- ===== src/Services/ReadService/Prioritization.antt =====
-- `calculate_prioritization` of backend/app/services/asoc_read_service.py. A bucket is a dict of texts
-- and counters in the source and a record here; a set of names is the list of them, each once.
pub mod Totals
use app_scan_custom_dashboar.Base.{
  ℕ, ◌+◌, ◌*◌, String, ◌<>◌, Bool, true, false, List, [], ◌∷◌, map, ◌==◌, if◌then◌else◌, ltb, leb,
  length, take, keep, sort, text_le, higher, member, Dict, lookup_or, insert, sum_of, sum_values,
}
use app_scan_custom_dashboar.Json.{Fields, get, text_or}
use app_scan_custom_dashboar.Services.ReadService.Normalize.{normalize_severity}

-- The counters under the five severities.
pub record Severities : Type 0 where
  pub critical : ℕ
  pub high : ℕ
  pub medium : ℕ
  pub low : ℕ
  pub unknown : ℕ

abbrev pub empty_counts : Severities
empty_counts = record { critical = 0; high = 0; medium = 0; low = 0; unknown = 0 }

-- `counts[sev] += 1`, for a normalised severity.
unfoldable pub add_severity : String → Severities → Severities
add_severity sev s =
    if sev == "critical"
    then record s { critical = s.critical + 1 }
    else if sev == "high"
    then record s { high = s.high + 1 }
    else if sev == "medium"
    then record s { medium = s.medium + 1 }
    else if sev == "low"
    then record s { low = s.low + 1 }
    else record s { unknown = s.unknown + 1 }

pub record AppBucket : Type 0 where
  pub application_id : String
  pub application_name : String
  pub total : ℕ
  pub counts : Severities

pub record FixBucket : Type 0 where
  pub fix_group_id : String
  pub fix_group_name : String
  pub total : ℕ
  pub applications : List String
  pub counts : Severities

pub record CorrelationBucket : Type 0 where
  pub correlation_key : String
  pub total : ℕ
  pub applications : List String
  pub counts : Severities

pub record Buckets : Type 0 where
  pub raw_counts : Severities
  pub fix_groups : Dict FixBucket
  pub app_hotspots : Dict AppBucket
  pub correlations : Dict CorrelationBucket

add_name : String → List String → List String
unfolding member
add_name name names = if member name names then names else name ∷ names

unfoldable pub severity_of : Fields → String
unfolding normalize_severity get
severity_of issue = normalize_severity (get "severity" issue)

app_id_of : Fields → String
unfolding text_or
app_id_of issue = text_or "application_id" "unknown" issue

app_name_of : Fields → String
unfolding text_or app_id_of
app_name_of issue = text_or "application_name" (app_id_of issue) issue

fix_group_id_of : Fields → String
unfolding text_or
fix_group_id_of issue = text_or "fix_group_id" "unassigned" issue

fix_group_name_of : Fields → String
unfolding text_or
fix_group_name_of issue = text_or "fix_group_name" "Unassigned" issue

fix_group_key : Fields → String
unfolding fix_group_id_of fix_group_name_of
fix_group_key issue = fix_group_id_of issue <> ":" <> fix_group_name_of issue

-- `correlation_key or fg_name or "uncorrelated"`.
correlation_of : Fields → String
unfolding text_or fix_group_name_of
correlation_of issue =
    text_or "correlation_key"
      (if fix_group_name_of issue == "" then "uncorrelated" else fix_group_name_of issue) issue

new_app : Fields → AppBucket
unfolding app_id_of app_name_of
new_app issue = record {
  application_id = app_id_of issue;
  application_name = app_name_of issue;
  total = 0;
  counts = empty_counts;
}

new_fix_group : Fields → FixBucket
unfolding fix_group_id_of fix_group_name_of
new_fix_group issue = record {
  fix_group_id = fix_group_id_of issue;
  fix_group_name = fix_group_name_of issue;
  total = 0;
  applications = [];
  counts = empty_counts;
}

new_correlation : Fields → CorrelationBucket
unfolding correlation_of
new_correlation issue = record {
  correlation_key = correlation_of issue;
  total = 0;
  applications = [];
  counts = empty_counts;
}

add_to_app : Fields → AppBucket → AppBucket
unfolding add_severity severity_of
add_to_app issue b = record b {
  total = b.total + 1;
  counts = add_severity (severity_of issue) b.counts;
}

add_to_fix_group : Fields → FixBucket → FixBucket
unfolding add_severity severity_of add_name app_name_of
add_to_fix_group issue b = record b {
  total = b.total + 1;
  applications = add_name (app_name_of issue) b.applications;
  counts = add_severity (severity_of issue) b.counts;
}

add_to_correlation : Fields → CorrelationBucket → CorrelationBucket
unfolding add_severity severity_of add_name app_name_of
add_to_correlation issue b = record b {
  total = b.total + 1;
  applications = add_name (app_name_of issue) b.applications;
  counts = add_severity (severity_of issue) b.counts;
}

-- One turn of the loop over the issues.
add_issue : Fields → Buckets → Buckets
unfolding add_to_app add_to_fix_group add_to_correlation new_app new_fix_group new_correlation
    lookup_or insert app_id_of fix_group_key correlation_of add_severity severity_of
add_issue issue b = record {
  raw_counts = add_severity (severity_of issue) b.raw_counts;
  fix_groups =
      insert (fix_group_key issue)
        (add_to_fix_group issue
          (lookup_or (fix_group_key issue) (new_fix_group issue) b.fix_groups))
        b.fix_groups;
  app_hotspots =
      insert (app_id_of issue)
        (add_to_app issue (lookup_or (app_id_of issue) (new_app issue) b.app_hotspots))
        b.app_hotspots;
  correlations =
      insert (correlation_of issue)
        (add_to_correlation issue
          (lookup_or (correlation_of issue) (new_correlation issue) b.correlations))
        b.correlations;
}

unfoldable pub issue_loop : List Fields → Buckets → Buckets
unfolding add_issue
issue_loop [] b = b
issue_loop (issue ∷ issues) b = issue_loop issues (add_issue issue b)

abbrev pub no_buckets : Buckets
no_buckets = record {
  raw_counts = empty_counts;
  fix_groups = [];
  app_hotspots = [];
  correlations = [];
}

unfoldable pub weighted_score : Severities → ℕ
weighted_score s = s.critical * 5 + s.high * 3 + s.medium * 2 + s.low

unfoldable pub dominant_severity : Severities → String
dominant_severity s =
    if ltb 0 s.critical
    then "critical"
    else if ltb 0 s.high
    then "high"
    else if ltb 0 s.medium
    then "medium"
    else if ltb 0 s.low
    then "low"
    else "unknown"

unfoldable pub values : {V : Type 0} → Dict V → List V
values d = map (λ e. e.1) d

dominant_totals : List FixBucket → Severities
unfolding add_severity dominant_severity
dominant_totals [] = empty_counts
dominant_totals (b ∷ bs) = add_severity (dominant_severity b.counts) (dominant_totals bs)

-- The counters with their total.
pub record Findings : Type 0 where
  pub by_severity : Severities
  pub total : ℕ

unfoldable pub severity_total : Severities → ℕ
severity_total s = s.critical + s.high + s.medium + s.low + s.unknown

-- `{key: sum(item[key] for item in fix_groups.values())}` and the sum of the totals.
finding_totals_of : Dict FixBucket → Findings
unfolding sum_values
finding_totals_of d = record {
  by_severity = record {
    critical = sum_values (λ (b : FixBucket). b.counts.critical) d;
    high = sum_values (λ (b : FixBucket). b.counts.high) d;
    medium = sum_values (λ (b : FixBucket). b.counts.medium) d;
    low = sum_values (λ (b : FixBucket). b.counts.low) d;
    unknown = sum_values (λ (b : FixBucket). b.counts.unknown) d;
  };
  total = sum_values (λ (b : FixBucket). b.total) d;
}

-- What the answer adds to a bucket of a ranking.
finish_fix_group : FixBucket → FixBucket
unfolding sort
finish_fix_group b = record b { applications = sort text_le b.applications }

finish_correlation : CorrelationBucket → CorrelationBucket
unfolding sort
finish_correlation b = record b { applications = sort text_le b.applications }

abbrev pub fix_score : FixBucket → ℕ
fix_score b = weighted_score b.counts

abbrev pub app_score : AppBucket → ℕ
app_score b = weighted_score b.counts

abbrev correlation_score : CorrelationBucket → ℕ
correlation_score b = weighted_score b.counts

-- A bucket of the answer, with its number of applications and its score.
pub record Scored (B : Type 0) : Type 0 where
  pub bucket : B
  pub application_count : ℕ
  pub score : ℕ

pub record Prioritization : Type 0 where
  pub raw_findings : Findings
  pub total_groups : ℕ
  pub totals : Severities
  pub finding_totals : Findings
  pub top_groups : List (Scored FixBucket)
  pub most_critical : List (AppBucket × ℕ)
  pub correlated_findings : List (Scored CorrelationBucket)
  pub critical_hotspot_total : ℕ
  pub correlated_high_risk_total : ℕ

unfoldable pub top_fix_groups : List Fields → List FixBucket
unfolding issue_loop sort values weighted_score
top_fix_groups issues =
    take 25 (sort (higher fix_score) (values (issue_loop issues no_buckets).fix_groups))

unfoldable pub top_critical : List Fields → List AppBucket
unfolding issue_loop sort values weighted_score
top_critical issues =
    take 25 (sort (higher app_score) (values (issue_loop issues no_buckets).app_hotspots))

unfoldable pub top_correlated : List Fields → List CorrelationBucket
unfolding issue_loop sort values weighted_score keep
top_correlated issues = take 25 (
    keep (λ (b : CorrelationBucket). leb 2 b.total)
      (sort (higher correlation_score) (values (issue_loop issues no_buckets).correlations)))

unfoldable pub calculate_prioritization : List Fields → Prioritization
unfolding issue_loop values dominant_totals severity_total finding_totals_of finish_fix_group
    finish_correlation top_fix_groups top_critical top_correlated sum_of weighted_score
calculate_prioritization issues =
    let b = issue_loop issues no_buckets in
    record {
      raw_findings = record { by_severity = b.raw_counts; total = severity_total b.raw_counts };
      total_groups = length b.fix_groups;
      totals = dominant_totals (values b.fix_groups);
      finding_totals = finding_totals_of b.fix_groups;
      top_groups =
          map
            (λ g. record {
              bucket = finish_fix_group g;
              application_count = length g.applications;
              score = fix_score g;
            })
            (top_fix_groups issues);
      most_critical = map (λ a. (a, app_score a)) (top_critical issues);
      correlated_findings =
          map
            (λ c. record {
              bucket = finish_correlation c;
              application_count = length c.applications;
              score = correlation_score c;
            })
            (top_correlated issues);
      critical_hotspot_total = sum_of (λ (a : AppBucket). a.counts.critical) (top_critical issues);
      correlated_high_risk_total =
          sum_of (λ (c : CorrelationBucket). c.counts.critical + c.counts.high)
            (top_correlated issues);
    }
