-- ===== src/Services/ReadService/Prioritization/Totals.antt =====
-- That the totals of `calculate_prioritization` in backend/app/services/asoc_read_service.py agree, and
-- what its rankings hold.
use app_scan_custom_dashboar.Base.{
  ℕ, ◌+◌, String, Bool, not, ◌&&◌, ltb, one_if, count_where, if◌then◌else◌, true, false, List, [],
  ◌∷◌, ◌≡◌, refl, ap, ◌∙◌, sym, length, drop, sum_values, sum_values-nil, sum_values-update,
  lookup_or, Dict, arith, Best, take-sort-Best, higher, sort,
}
use app_scan_custom_dashboar.Json.{Fields}
use app_scan_custom_dashboar.Services.ReadService.Prioritization.{
  Severities, empty_counts, add_severity, FixBucket, AppBucket, Buckets, add_issue, issue_loop,
  no_buckets, fix_group_key, add_to_fix_group, new_fix_group, severity_of, severity_total, values,
  dominant_totals, dominant_severity, finding_totals_of, fix_score, app_score, top_fix_groups,
  top_critical, calculate_prioritization,
}

-- A number that each issue raises by an amount of its own, in the raw counts and in a fix group alike.
record Column : Type 0 where
  raw : Severities → ℕ
  amount : String → ℕ
  raw_fresh : raw empty_counts ≡ 0
  raw_add : (sev : String) (s : Severities) → raw (add_severity sev s) ≡ raw s + amount sev

module _ (c : Column) where
  in_group : FixBucket → ℕ
  in_group b = c.raw b.counts

  add_issue-column :
      (issue : Fields) (b : Buckets)
      → (c.raw (add_issue issue b).raw_counts ≡ c.raw b.raw_counts + c.amount (severity_of issue))
        × (sum_values in_group (add_issue issue b).fix_groups
            ≡ sum_values in_group b.fix_groups + c.amount (severity_of issue))
  unfolding add_issue in_group add_to_fix_group new_fix_group
  add_issue-column issue b =
      let group = lookup_or (fix_group_key issue) (new_fix_group issue) b.fix_groups in
      (
        c.raw_add (severity_of issue) b.raw_counts,
        sum_values-update in_group (fix_group_key issue) (new_fix_group issue)
            (add_to_fix_group issue group) b.fix_groups (c.amount (severity_of issue)) c.raw_fresh
            (c.raw_add (severity_of issue) group.counts),
      )

  issue_loop-column :
      (issues : List Fields) (b : Buckets)
      → sum_values in_group b.fix_groups ≡ c.raw b.raw_counts
      → sum_values in_group (issue_loop issues b).fix_groups
        ≡ c.raw (issue_loop issues b).raw_counts
  unfolding issue_loop
  issue_loop-column [] b h = h
  issue_loop-column (issue ∷ issues) b h =
      let one = add_issue-column issue b in
      issue_loop-column issues (add_issue issue b) (omega arith)

  loop-column :
      (issues : List Fields)
      → sum_values in_group (issue_loop issues no_buckets).fix_groups
        ≡ c.raw (issue_loop issues no_buckets).raw_counts
  loop-column issues =
      issue_loop-column issues no_buckets (sum_values-nil in_group ∙ sym c.raw_fresh)

critical_add :
    (sev : String) (s : Severities)
    → (add_severity sev s).critical ≡ s.critical + (add_severity sev empty_counts).critical
unfolding add_severity
critical_add sev s = ground arith

abbrev critical_column : Column
critical_column = record {
  raw = λ s. s.critical;
  amount = λ sev. (add_severity sev empty_counts).critical;
  raw_fresh = refl;
  raw_add = critical_add;
}

high_add :
    (sev : String) (s : Severities)
    → (add_severity sev s).high ≡ s.high + (add_severity sev empty_counts).high
unfolding add_severity
high_add sev s = ground arith

abbrev high_column : Column
high_column = record {
  raw = λ s. s.high;
  amount = λ sev. (add_severity sev empty_counts).high;
  raw_fresh = refl;
  raw_add = high_add;
}

medium_add :
    (sev : String) (s : Severities)
    → (add_severity sev s).medium ≡ s.medium + (add_severity sev empty_counts).medium
unfolding add_severity
medium_add sev s = ground arith

abbrev medium_column : Column
medium_column = record {
  raw = λ s. s.medium;
  amount = λ sev. (add_severity sev empty_counts).medium;
  raw_fresh = refl;
  raw_add = medium_add;
}

low_add :
    (sev : String) (s : Severities)
    → (add_severity sev s).low ≡ s.low + (add_severity sev empty_counts).low
unfolding add_severity
low_add sev s = ground arith

abbrev low_column : Column
low_column = record {
  raw = λ s. s.low;
  amount = λ sev. (add_severity sev empty_counts).low;
  raw_fresh = refl;
  raw_add = low_add;
}

unknown_add :
    (sev : String) (s : Severities)
    → (add_severity sev s).unknown ≡ s.unknown + (add_severity sev empty_counts).unknown
unfolding add_severity
unknown_add sev s = ground arith

abbrev unknown_column : Column
unknown_column = record {
  raw = λ s. s.unknown;
  amount = λ sev. (add_severity sev empty_counts).unknown;
  raw_fresh = refl;
  raw_add = unknown_add;
}

severity_total-add_severity :
    (sev : String) (s : Severities) → severity_total (add_severity sev s) ≡ severity_total s + 1
unfolding severity_total add_severity
severity_total-add_severity sev s = ground arith

severity_total-add_issue :
    (issue : Fields) (b : Buckets)
    → severity_total (add_issue issue b).raw_counts ≡ severity_total b.raw_counts + 1
unfolding add_issue
severity_total-add_issue issue b = severity_total-add_severity (severity_of issue) b.raw_counts

severity_total-issue_loop :
    (issues : List Fields) (b : Buckets)
    → severity_total (issue_loop issues b).raw_counts ≡ length issues + severity_total b.raw_counts
unfolding issue_loop
severity_total-issue_loop [] b = omega arith
severity_total-issue_loop (issue ∷ issues) b =
    omega (
      arith,
      severity_total-issue_loop issues (add_issue issue b),
      severity_total-add_issue issue b,
    )

-- The total of each fix group is raised by one for each issue.
fix_total-add_issue :
    (issue : Fields) (b : Buckets)
    → sum_values (λ (g : FixBucket). g.total) (add_issue issue b).fix_groups
      ≡ sum_values (λ (g : FixBucket). g.total) b.fix_groups + 1
unfolding add_issue add_to_fix_group new_fix_group
fix_total-add_issue issue b =
    let group = lookup_or (fix_group_key issue) (new_fix_group issue) b.fix_groups in
    sum_values-update (λ (g : FixBucket). g.total) (fix_group_key issue) (new_fix_group issue)
      (add_to_fix_group issue group) b.fix_groups 1 refl refl

fix_total-issue_loop :
    (issues : List Fields) (b : Buckets)
    → sum_values (λ (g : FixBucket). g.total) (issue_loop issues b).fix_groups
      ≡ length issues + sum_values (λ (g : FixBucket). g.total) b.fix_groups
unfolding issue_loop
fix_total-issue_loop [] b = omega arith
fix_total-issue_loop (issue ∷ issues) b =
    omega (arith, fix_total-issue_loop issues (add_issue issue b), fix_total-add_issue issue b)

severity_total-dominant_totals :
    (groups : List FixBucket) → severity_total (dominant_totals groups) ≡ length groups
unfolding dominant_totals
severity_total-dominant_totals [] = unfold severity_total in refl
severity_total-dominant_totals (g ∷ groups) = omega (
  arith,
  severity_total-add_severity (dominant_severity g.counts) (dominant_totals groups),
  severity_total-dominant_totals groups,
)

-- For each severity, how many groups have an issue of it and none of a worse one; `unknown` counts the
-- groups without an issue of the four.
abbrev pub worst_counts : List FixBucket → Severities
worst_counts groups =
    let none_of : (FixBucket → ℕ) → FixBucket → Bool = λ f g. not (ltb 0 (f g)) in
    let some_of : (FixBucket → ℕ) → FixBucket → Bool = λ f g. ltb 0 (f g) in
    let critical : FixBucket → ℕ = λ g. g.counts.critical in
    let high : FixBucket → ℕ = λ g. g.counts.high in
    let medium : FixBucket → ℕ = λ g. g.counts.medium in
    let low : FixBucket → ℕ = λ g. g.counts.low in
    record {
      critical = count_where (some_of critical) groups;
      high = count_where (λ g. none_of critical g && some_of high g) groups;
      medium = count_where (λ g. none_of critical g && none_of high g && some_of medium g) groups;
      low =
          count_where
            (λ g. none_of critical g && none_of high g && none_of medium g && some_of low g) groups;
      unknown =
          count_where
            (λ g. none_of critical g && none_of high g && none_of medium g && none_of low g) groups;
    }

-- One group more, by which severities it has.
add_worst :
    (c h m l : Bool) (s : Severities)
    → add_severity
        (if c
          then "critical"
          else if h
          then "high"
          else if m
          then "medium"
          else if l
          then "low"
          else "unknown")
        s
      ≡ record {
        critical = one_if c + s.critical;
        high = one_if (not c && h) + s.high;
        medium = one_if (not c && not h && m) + s.medium;
        low = one_if (not c && not h && not m && l) + s.low;
        unknown = one_if (not c && not h && not m && not l) + s.unknown;
      }
unfolding add_severity
add_worst true h m l s = ground arith
add_worst false true m l s = ground arith
add_worst false false true l s = ground arith
add_worst false false false true s = ground arith
add_worst false false false false s = ground arith

dominant_totals-worst_counts :
    (groups : List FixBucket) → dominant_totals groups ≡ worst_counts groups
unfolding dominant_totals dominant_severity count_where
dominant_totals-worst_counts [] = refl
dominant_totals-worst_counts (g ∷ groups) =
    ap (add_severity (dominant_severity g.counts)) (dominant_totals-worst_counts groups)
    ∙ add_worst (ltb 0 g.counts.critical) (ltb 0 g.counts.high) (ltb 0 g.counts.medium)
        (ltb 0 g.counts.low) (worst_counts groups)

length-values : (d : Dict FixBucket) → length (values d) ≡ length d
unfolding values
length-values [] = refl
length-values (e ∷ d) = omega (arith, length-values d)

total-raw :
    (issues : List Fields)
    → severity_total (issue_loop issues no_buckets).raw_counts ≡ length issues
total-raw issues =
    let fresh : severity_total empty_counts ≡ 0 = unfold severity_total in refl in
    omega (arith, severity_total-issue_loop issues no_buckets)

total-fix_groups :
    (issues : List Fields)
    → sum_values (λ (g : FixBucket). g.total) (issue_loop issues no_buckets).fix_groups
      ≡ severity_total (issue_loop issues no_buckets).raw_counts
total-fix_groups issues = omega (
  arith,
  fix_total-issue_loop issues no_buckets,
  sum_values-nil (λ (g : FixBucket). g.total),
  total-raw issues,
)

-- The totals of the prioritization agree: the findings counted by fix group are the raw findings, under
-- each severity and in total, their total is the number of issues, each total of the groups is the
-- number of groups whose worst severity it is, and these totals add up to the number of groups.
pub calculate_prioritization-totals :
    (issues : List Fields)
    → ((calculate_prioritization issues).finding_totals
        ≡ (calculate_prioritization issues).raw_findings)
      × ((calculate_prioritization issues).raw_findings.total ≡ length issues)
      × ((calculate_prioritization issues).totals
          ≡ worst_counts (values (issue_loop issues no_buckets).fix_groups))
      × (severity_total (calculate_prioritization issues).totals
          ≡ (calculate_prioritization issues).total_groups)
unfolding calculate_prioritization finding_totals_of in_group
calculate_prioritization-totals issues =
    let b = issue_loop issues no_buckets in
    let c = loop-column critical_column issues in
    let h = loop-column high_column issues in
    let m = loop-column medium_column issues in
    let l = loop-column low_column issues in
    let u = loop-column unknown_column issues in
    (
      λ k. record {
        by_severity = record { critical = c k; high = h k; medium = m k; low = l k; unknown = u k };
        total = total-fix_groups issues k;
      },
      total-raw issues,
      dominant_totals-worst_counts (values b.fix_groups),
      severity_total-dominant_totals (values b.fix_groups) ∙ length-values b.fix_groups,
    )

-- The ranking of the fix groups holds the 25 with the highest weighted scores, or all if there are
-- fewer, highest first, and the ranking of the applications the 25 of those: together with the others
-- each is a rearrangement of the buckets, and no other bucket has a higher score than one that is
-- ranked.
pub top-Best :
    (issues : List Fields)
    → ((rest : List FixBucket) × Best fix_score 25
          (values (issue_loop issues no_buckets).fix_groups)
          (top_fix_groups issues)
          rest)
      × ((rest : List AppBucket) × Best app_score 25
            (values (issue_loop issues no_buckets).app_hotspots)
            (top_critical issues)
            rest)
unfolding top_fix_groups top_critical
top-Best issues =
    let groups = values (issue_loop issues no_buckets).fix_groups in
    let apps = values (issue_loop issues no_buckets).app_hotspots in
    (
      (drop 25 (sort (higher fix_score) groups), take-sort-Best fix_score 25 groups),
      (drop 25 (sort (higher app_score) apps), take-sort-Best app_score 25 apps),
    )
