-- ===== src/Services/ReadService/Statistics.antt =====
-- The numbers of backend/app/services/asoc_read_service.py: `calculate_statistics`, `_counts_by`,
-- `_scans_grouped_by_application`, `build_issue_filter_options` and the counts of
-- `build_portfolio_summary`. Counts are natural numbers, so `max(a - b, 0)` is `a - b`.
pub mod Totals
pub mod Options
use app_scan_custom_dashboar.Base.{
  ℕ, ◌+◌, ◌-◌, String, Bool, true, false, not, ◌&&◌, ◌||◌, Option, none, some, List, [], ◌∷◌, map,
  ◌==◌, eqb, leb, ltb, if◌then◌else◌, member, lower, strip, length, take, count_where, keep, sort,
  text_le, Dict, lookup, lookup_or, insert, bump_key, higher,
}
use app_scan_custom_dashboar.Json.{Fields, Value, get, get_or, truthy, str, text_or, text_at}
use app_scan_custom_dashboar.Services.ReadService.Normalize.{normalize_severity, is_active_issue}
use app_scan_custom_dashboar.Services.ReadService.Technology.{
  technologies, build_app_technology_maps, resolve_issue_technology,
}

-- `_counts_by`: how many items have each value of a key.
unfoldable pub value_of : String → Fields → String
unfolding text_or
value_of key item = text_or key "unknown" item

counts_loop : String → List Fields → Dict ℕ → Dict ℕ
unfolding value_of bump_key
counts_loop key [] out = out
counts_loop key (item ∷ items) out = counts_loop key items (bump_key (value_of key item) out)

unfoldable pub counts_by : List Fields → String → Dict ℕ
unfolding counts_loop
counts_by items key = counts_loop key items []

-- `_scans_grouped_by_application`.
pub record Group : Type 0 where
  pub application_id : String
  pub application_name : String
  pub count : ℕ

grouped_app : Fields → String
unfolding text_or
grouped_app scan = text_or "application_id" "unknown" scan

new_group : Fields → Group
unfolding grouped_app text_or
new_group scan = record {
  application_id = grouped_app scan;
  application_name = text_or "application_name" (grouped_app scan) scan;
  count = 0;
}

-- `bucket["count"] += 1` of the bucket that `setdefault` gives.
group_scan : Fields → Dict Group → Dict Group
unfolding new_group lookup_or insert
group_scan scan groups =
    let bucket = lookup_or (grouped_app scan) (new_group scan) groups in
    insert (grouped_app scan) (record bucket { count = bucket.count + 1 }) groups

group_loop : List Fields → Dict Group → Dict Group
unfolding group_scan
group_loop [] groups = groups
group_loop (scan ∷ scans) groups = group_loop scans (group_scan scan groups)

unfoldable pub scans_grouped_by_application : List Fields → List Group
unfolding group_loop sort
scans_grouped_by_application scans =
    sort (higher (λ (g : Group). g.count)) (map (λ e. e.1) (group_loop scans []))

pub data CountSource : Type 0 where
  api_count : CountSource
  pagination : CountSource

pub record Statistics : Type 0 where
  pub total_issues : ℕ
  pub active_issues : ℕ
  pub resolved_issues : ℕ
  pub critical_issues : ℕ
  pub high_issues : ℕ
  pub medium_issues : ℕ
  pub low_issues : ℕ
  pub open_scans : ℕ
  pub sast_issues : ℕ
  pub dast_issues : ℕ
  pub sca_issues : ℕ
  pub iast_issues : ℕ
  pub count_source : CountSource

unfoldable pub has_severity : String → Fields → Bool
unfolding normalize_severity get
has_severity level issue = normalize_severity (get "severity" issue) == level

unfoldable pub has_technology : List Fields → String → Fields → Bool
unfolding resolve_issue_technology build_app_technology_maps
has_technology scans technology issue =
    let maps = build_app_technology_maps scans in
    resolve_issue_technology issue maps.0 maps.1 == technology

unfoldable pub open_scans_of : List Fields → ℕ
unfolding count_where text_at member
open_scans_of scans =
    count_where
      (λ scan.
        member (lower (text_at "status" scan))
          ("running" ∷ "pending" ∷ "queued" ∷ "scheduled" ∷ []))
      scans

-- What the issues themselves say.
unfoldable pub counted_statistics : List Fields → List Fields → Statistics
unfolding count_where has_severity has_technology is_active_issue open_scans_of
counted_statistics scans issues =
    let critical_count = count_where (has_severity "critical") issues in
    let high_count = count_where (has_severity "high") issues in
    let medium_count = count_where (has_severity "medium") issues in
    let active = count_where is_active_issue issues in
    record {
      total_issues = length issues;
      active_issues = active;
      resolved_issues = length issues - active;
      critical_issues = critical_count;
      high_issues = high_count;
      medium_issues = medium_count;
      low_issues = length issues - critical_count - high_count - medium_count;
      open_scans = open_scans_of scans;
      sast_issues = count_where (has_technology scans "SAST") issues;
      dast_issues = count_where (has_technology scans "DAST") issues;
      sca_issues = count_where (has_technology scans "SCA") issues;
      iast_issues = count_where (has_technology scans "IAST") issues;
      count_source = pagination;
    }

-- What the counts of the service say, where there are some.
unfoldable pub overridden_statistics : List Fields → List Fields → Dict ℕ → Statistics
unfolding lookup_or count_where is_active_issue open_scans_of
overridden_statistics scans issues overrides =
    let total = lookup_or "total" (length issues) overrides in
    let active = lookup_or "active" (count_where is_active_issue issues) overrides in
    let critical_count = lookup_or "critical" 0 overrides in
    let high_count = lookup_or "high" 0 overrides in
    let medium_count = lookup_or "medium" 0 overrides in
    record {
      total_issues = total;
      active_issues = active;
      resolved_issues = lookup_or "resolved" (total - active) overrides;
      critical_issues = critical_count;
      high_issues = high_count;
      medium_issues = medium_count;
      low_issues = lookup_or "low" (total - critical_count - high_count - medium_count) overrides;
      open_scans = open_scans_of scans;
      sast_issues = lookup_or "sast" 0 overrides;
      dast_issues = lookup_or "dast" 0 overrides;
      sca_issues = lookup_or "sca" 0 overrides;
      iast_issues = lookup_or "iast" 0 overrides;
      count_source = api_count;
    }

unfoldable pub calculate_statistics : List Fields → List Fields → Dict ℕ → Statistics
unfolding counted_statistics overridden_statistics
calculate_statistics scans issues [] = counted_statistics scans issues
calculate_statistics scans issues (e ∷ es) = overridden_statistics scans issues (e ∷ es)

-- `build_issue_filter_options`.
pub record OptionCounts : Type 0 where
  pub tech_counts : Dict ℕ
  pub unknown_count : ℕ
  pub vuln_counts : Dict ℕ
  pub vuln_labels : Dict String

unfoldable pub label_of : Fields → String
unfolding truthy str get_or text_at
label_of issue =
    let named = get_or "vulnerability" (Value.text "") issue in
    strip (if truthy named then str named else text_at "correlation_key" issue)

-- `d.setdefault(k, v)`.
set_default : String → String → Dict String → Dict String
unfolding lookup insert
set_default k v d = elim (lookup k d) [ none ↦ insert k v d | some w ↦ d ]

abbrev is_there {ℓ} : {A : Type ℓ} → Option A → Bool
is_there none = false
is_there (some a) = true

count_technology : String → OptionCounts → OptionCounts
unfolding lookup bump_key
count_technology technology c =
    if is_there (lookup technology c.tech_counts)
    then record c { tech_counts = bump_key technology c.tech_counts }
    else record c { unknown_count = c.unknown_count + 1 }

count_label : String → OptionCounts → OptionCounts
unfolding bump_key set_default
count_label label c = if label == "" then c else record c {
  vuln_counts = bump_key (lower label) c.vuln_counts;
  vuln_labels = set_default (lower label) label c.vuln_labels;
}

module _ (scans : List Fields) where
  option_loop : List Fields → OptionCounts → OptionCounts
  unfolding count_technology count_label label_of resolve_issue_technology build_app_technology_maps
  option_loop [] c = c
  option_loop (issue ∷ issues) c =
      let maps = build_app_technology_maps scans in
      let technology = resolve_issue_technology issue maps.0 maps.1 in
      option_loop issues (count_label (label_of issue) (count_technology technology c))

pub record OptionItem : Type 0 where
  pub value : String
  pub label : String
  pub count : ℕ

pub record IssueFilterOptions : Type 0 where
  pub technologies : List OptionItem
  pub unclassified_count : ℕ
  pub vulnerabilities : List OptionItem

-- `(-count, label.lower())`.
item_le : OptionItem → OptionItem → Bool
item_le x y =
    if eqb x.count y.count then text_le (lower x.label) (lower y.label) else ltb y.count x.count

abbrev no_counts : OptionCounts
no_counts = record {
  tech_counts = ("DAST", 0) ∷ ("SAST", 0) ∷ ("SCA", 0) ∷ ("IAST", 0) ∷ [];
  unknown_count = 0;
  vuln_counts = [];
  vuln_labels = [];
}

unfoldable pub build_issue_filter_options : List Fields → List Fields → ℕ → IssueFilterOptions
unfolding option_loop item_le lookup_or sort
build_issue_filter_options scans issues vulnerability_limit =
    let c = option_loop scans issues no_counts in
    let items = sort item_le (
      map (λ e. record { value = e.0; label = lookup_or e.0 e.0 c.vuln_labels; count = e.1 })
        c.vuln_counts) in
    record {
      technologies =
          map (λ t. record { value = t; label = t; count = lookup_or t 0 c.tech_counts })
            technologies;
      unclassified_count = c.unknown_count;
      vulnerabilities = if ltb 0 vulnerability_limit then take vulnerability_limit items else items;
    }
