-- ===== src/Services/ReadService/Statistics/Totals.antt =====
-- That the numbers of backend/app/services/asoc_read_service.py add up.
use app_scan_custom_dashboar.Base.{
  ℕ, ◌+◌, String, Bool, true, ◌||◌, List, [], ◌∷◌, ◌≡◌, refl, map, ◌==◌, eq_iff, member, length,
  count_where, one_if, sum_of, sum_of-Perm, sum_values, sum_values-insert, sum_values-bump_key,
  sum_values-nil, sum_of-values, count_where-le, at_key-lookup_or, lookup, lookup_or,
  lookup_or-bump_key, Dict, Bool-cases, inl, inr, arith, sort, sort-perm, higher, higher_trans,
  higher_total, Ranked, sort-Ranked, bump_key,
}
use app_scan_custom_dashboar.Json.{Fields, get}
use app_scan_custom_dashboar.Services.ReadService.Normalize.{normalize_severity, is_active_issue}
use app_scan_custom_dashboar.Services.ReadService.Normalize.Forms.{
  severities, normalize_severity-Fixed,
}
use app_scan_custom_dashboar.Services.ReadService.Statistics.{
  value_of, counts_loop, counts_by, Group, grouped_app, new_group, group_scan, group_loop,
  scans_grouped_by_application, has_severity, counted_statistics, calculate_statistics,
}

-- Each issue is of exactly one of the four columns of the statistics.
one_column :
    (s : String)
    → member s severities ≡ true
    → one_if (s == "critical")
        + one_if (s == "high")
        + one_if (s == "medium")
        + one_if (s == "low" || s == "unknown")
      ≡ 1
unfolding member
one_column s h = elim (Bool-cases (s == "critical")) [
  | inl e ↦ rw ((eq_iff s "critical").0 e) refl
  | inr not_critical ↦ elim (Bool-cases (s == "high")) [
    | inl e ↦ rw ((eq_iff s "high").0 e) refl
    | inr not_high ↦ elim (Bool-cases (s == "medium")) [
      | inl e ↦ rw ((eq_iff s "medium").0 e) refl
      | inr not_medium ↦ ground arith
    ]
  ]
]

unfoldable pub is_low : Fields → Bool
unfolding has_severity
is_low issue = has_severity "low" issue || has_severity "unknown" issue

one_issue :
    (issue : Fields)
    → one_if (has_severity "critical" issue)
        + one_if (has_severity "high" issue)
        + one_if (has_severity "medium" issue)
        + one_if (is_low issue)
      ≡ 1
unfolding has_severity is_low
one_issue issue =
    one_column (normalize_severity (get "severity" issue))
      (normalize_severity-Fixed (get "severity" issue)).0

counts-length :
    (issues : List Fields)
    → count_where (has_severity "critical") issues
        + count_where (has_severity "high") issues
        + count_where (has_severity "medium") issues
        + count_where is_low issues
      ≡ length issues
unfolding count_where
counts-length [] = refl
counts-length (issue ∷ issues) = omega (arith, counts-length issues, one_issue issue)

-- Without counts of the service, the columns of the statistics partition the issues: critical, high,
-- medium and low add up to the total, which is the number of issues, low being those whose severity is
-- low or unknown, and so do active and resolved.
pub calculate_statistics-partition :
    (scans issues : List Fields)
    → ((calculate_statistics scans issues []).critical_issues
          + (calculate_statistics scans issues []).high_issues
          + (calculate_statistics scans issues []).medium_issues
          + (calculate_statistics scans issues []).low_issues
        ≡ (calculate_statistics scans issues []).total_issues)
      × ((calculate_statistics scans issues []).total_issues ≡ length issues)
      × ((calculate_statistics scans issues []).low_issues ≡ count_where is_low issues)
      × ((calculate_statistics scans issues []).active_issues
            + (calculate_statistics scans issues []).resolved_issues
          ≡ (calculate_statistics scans issues []).total_issues)
unfolding calculate_statistics counted_statistics
calculate_statistics-partition scans issues = (
  omega (arith, counts-length issues),
  refl,
  omega (arith, counts-length issues),
  omega (arith, count_where-le is_active_issue issues),
)

lookup_or-counts_loop :
    (key k : String) (items : List Fields) (out : Dict ℕ)
    → lookup_or k 0 (counts_loop key items out)
      ≡ count_where (λ item. value_of key item == k) items + lookup_or k 0 out
unfolding counts_loop count_where
lookup_or-counts_loop key k [] out = omega arith
lookup_or-counts_loop key k (item ∷ items) out = omega (
  arith,
  lookup_or-counts_loop key k items (bump_key (value_of key item) out),
  lookup_or-bump_key (value_of key item) k out,
)

sum_values-counts_loop :
    (key : String) (items : List Fields) (out : Dict ℕ)
    → sum_values (λ n. n) (counts_loop key items out) ≡ length items + sum_values (λ n. n) out
unfolding counts_loop
sum_values-counts_loop key [] out = omega arith
sum_values-counts_loop key (item ∷ items) out = omega (
  arith,
  sum_values-counts_loop key items (bump_key (value_of key item) out),
  sum_values-bump_key (value_of key item) out,
)

-- The counts by a key: under each text stands the number of items with that value, an item without
-- one counting as unknown, and the counts together are the number of items.
pub counts_by-count_where :
    (items : List Fields) (key k : String)
    → (lookup_or k 0 (counts_by items key) ≡ count_where (λ item. value_of key item == k) items)
      × (sum_values (λ n. n) (counts_by items key) ≡ length items)
unfolding counts_by
counts_by-count_where items key k = (
  unfold lookup_or lookup in omega (arith, lookup_or-counts_loop key k items []),
  omega (arith, sum_values-counts_loop key items [], sum_values-nil (λ (n : ℕ). n)),
)

abbrev count_of : Group → ℕ
count_of g = g.count

sum_values-group_scan :
    (scan : Fields) (groups : Dict Group)
    → sum_values count_of (group_scan scan groups) ≡ sum_values count_of groups + 1
unfolding group_scan new_group
sum_values-group_scan scan groups =
    let bucket = lookup_or (grouped_app scan) (new_group scan) groups in
    omega (
      arith,
      sum_values-insert count_of (grouped_app scan) (record bucket { count = bucket.count + 1 })
          groups,
      at_key-lookup_or count_of (grouped_app scan) (new_group scan) groups refl,
    )

sum_values-group_loop :
    (scans : List Fields) (groups : Dict Group)
    → sum_values count_of (group_loop scans groups) ≡ length scans + sum_values count_of groups
unfolding group_loop
sum_values-group_loop [] groups = omega arith
sum_values-group_loop (scan ∷ scans) groups =
    omega (
      arith,
      sum_values-group_loop scans (group_scan scan groups),
      sum_values-group_scan scan groups,
    )

-- The scans by application: the counts of the groups add up to the number of scans, and they fall.
pub scans_grouped_by_application-total :
    (scans : List Fields)
    → (sum_of (λ (g : Group). g.count) (scans_grouped_by_application scans) ≡ length scans)
      × Ranked (higher (λ (g : Group). g.count)) (scans_grouped_by_application scans)
unfolding scans_grouped_by_application
scans_grouped_by_application-total scans =
    let groups = map (λ e. e.1) (group_loop scans []) in
    (
      omega (
        arith,
        sum_of-Perm count_of (sort (higher count_of) groups) groups
            (sort-perm (higher count_of) groups),
        sum_of-values count_of (group_loop scans []),
        sum_values-group_loop scans [],
        sum_values-nil count_of,
      ),
      sort-Ranked (higher count_of) (higher count_of) (higher_trans count_of) (λ x y h. h)
          (higher_total count_of) groups,
    )
