-- ===== src/Services/ReadService/Series/Totals.antt =====
-- That the time series of backend/app/services/asoc_read_service.py count each item once.
use app_scan_custom_dashboar.Base.{
  ℕ, ◌+◌, String, Bool, true, false, Option, none, some, List, [], ◌∷◌, ◌≡◌, refl, ◌∙◌, Dict,
  lookup, lookup_or, keys, sort, sort-perm, text_le, All, Unique, insert-Unique, Unique-lookup,
  count_where, one_if, sum_of, sum_of-Perm, sum_of-map, sum_values, sum_values-nil,
  sum_values-update, arith,
}
use app_scan_custom_dashboar.Json.{Fields, text_at}
use app_scan_custom_dashboar.Services.ReadService.Prioritization.{severity_of}
use app_scan_custom_dashboar.Services.ReadService.Series.{
  SeriesRow, empty_row, Point, granularity, add_row, add_at, scan_severity, severity_mode,
  app_severities, period_bucket, points, finding_loop, calculate_findings_series, scan_loop,
  calculate_scan_series,
}

abbrev is_there : Option String → Bool
is_there none = false
is_there (some bucket) = true

abbrev row_total : SeriesRow → ℕ
row_total row = row.total

sum_values-add_at :
    (bucket : Option String) (sev : String) (buckets : Dict SeriesRow)
    → sum_values row_total (add_at bucket sev buckets)
      ≡ one_if (is_there bucket) + sum_values row_total buckets
unfolding add_at add_row
sum_values-add_at none sev buckets = omega arith
sum_values-add_at (some bucket) sev buckets =
    let row = lookup_or bucket empty_row buckets in
    omega
      (arith, sum_values-update row_total bucket empty_row (add_row sev row) buckets 1 refl refl)

add_at-Unique :
    (bucket : Option String) (sev : String) (buckets : Dict SeriesRow)
    → Unique buckets
    → Unique (add_at bucket sev buckets)
unfolding add_at
add_at-Unique none sev buckets u = u
add_at-Unique (some bucket) sev buckets u =
    insert-Unique bucket (add_row sev (lookup_or bucket empty_row buckets)) buckets u

found_total :
    (k : String) (row : SeriesRow) (d : Dict SeriesRow)
    → lookup k d ≡ some row
    → (lookup_or k empty_row d).total ≡ row.total
unfolding lookup_or
found_total k row d found = rw (lookup_or, found) refl

-- Looking every key up gives the values.
sum_of-lookups :
    (d es : Dict SeriesRow)
    → All (λ e. lookup e.0 d ≡ some e.1) es
    → sum_of (λ k. (lookup_or k empty_row d).total) (keys es) ≡ sum_values row_total es
unfolding sum_of sum_values keys lookup_or
sum_of-lookups d [] a = refl
sum_of-lookups d ((k, row) ∷ es) a = omega (arith, found_total k row d a.0, sum_of-lookups d es a.1)

sum_of-sorted_lookups :
    (d : Dict SeriesRow)
    → Unique d
    → sum_of (λ k. (lookup_or k empty_row d).total) (sort text_le (keys d)) ≡ sum_values row_total d
sum_of-sorted_lookups d u =
    sum_of-Perm (λ k. (lookup_or k empty_row d).total) (sort text_le (keys d)) (keys d)
      (sort-perm text_le (keys d))
    ∙ sum_of-lookups d d (Unique-lookup d u)

abbrev point_total : Point → ℕ
point_total p = p.row.total

module _ (fromisoformat : String → Option ℕ) (name_of : String → ℕ → String) (now : ℕ) where
  sum_of-points :
      (period : String) (d : Dict SeriesRow)
      → Unique d
      → sum_of point_total (points fromisoformat name_of now period d) ≡ sum_values row_total d
  unfolding points
  sum_of-points period [] u = unfold sum_of sum_values in refl
  sum_of-points period (e ∷ es) u =
      sum_of-map point_total (λ k. record { period = k; row = lookup_or k empty_row (e ∷ es) })
        (sort text_le (keys (e ∷ es)))
      ∙ sum_of-sorted_lookups (e ∷ es) u

  -- The item has a date that can be read, under the key.
  unfoldable pub is_dated : String → String → Fields → Bool
  unfolding period_bucket text_at
  is_dated key period item =
      is_there (period_bucket fromisoformat name_of now (text_at key item) period)

  finding_loop-total :
      (period : String) (issues : List Fields) (d : Dict SeriesRow)
      → sum_values row_total (finding_loop fromisoformat name_of now period issues d)
        ≡ count_where (is_dated "opened_at" period) issues + sum_values row_total d
  unfolding finding_loop count_where is_dated
  finding_loop-total period [] d = omega arith
  finding_loop-total period (issue ∷ issues) d =
      let bucket = period_bucket fromisoformat name_of now (text_at "opened_at" issue) period in
      omega (
        arith,
        finding_loop-total period issues (add_at bucket (severity_of issue) d),
        sum_values-add_at bucket (severity_of issue) d,
      )

  finding_loop-Unique :
      (period : String) (issues : List Fields) (d : Dict SeriesRow)
      → Unique d
      → Unique (finding_loop fromisoformat name_of now period issues d)
  unfolding finding_loop
  finding_loop-Unique period [] d u = u
  finding_loop-Unique period (issue ∷ issues) d u = finding_loop-Unique period issues _ (
      add_at-Unique (period_bucket fromisoformat name_of now (text_at "opened_at" issue) period)
        (severity_of issue) d u)

  scan_loop-total :
      (period mode : String) (a : Dict String) (scans : List Fields) (d : Dict SeriesRow)
      → sum_values row_total (scan_loop fromisoformat name_of now period mode a scans d)
        ≡ count_where (is_dated "created_at" period) scans + sum_values row_total d
  unfolding scan_loop count_where is_dated
  scan_loop-total period mode a [] d = omega arith
  scan_loop-total period mode a (scan ∷ scans) d =
      let bucket = period_bucket fromisoformat name_of now (text_at "created_at" scan) period in
      omega (
        arith,
        scan_loop-total period mode a scans (add_at bucket (scan_severity mode a scan) d),
        sum_values-add_at bucket (scan_severity mode a scan) d,
      )

  scan_loop-Unique :
      (period mode : String) (a : Dict String) (scans : List Fields) (d : Dict SeriesRow)
      → Unique d
      → Unique (scan_loop fromisoformat name_of now period mode a scans d)
  unfolding scan_loop
  scan_loop-Unique period mode a [] d u = u
  scan_loop-Unique period mode a (scan ∷ scans) d u = scan_loop-Unique period mode a scans _ (
      add_at-Unique (period_bucket fromisoformat name_of now (text_at "created_at" scan) period)
        (scan_severity mode a scan) d u)

  -- The series count each item once: the totals of the findings series add up to the number of issues
  -- whose opening date can be read, and those of the scan series to the number of scans whose creation
  -- date can, whatever severities the scans get.
  pub series-total :
      (scans issues : List Fields) (period source : String)
      → (sum_of
            (λ (p : Point). p.row.total)
            (calculate_findings_series fromisoformat name_of now issues period)
          ≡ count_where
              (is_dated "opened_at" (granularity ("week" ∷ "month" ∷ "year" ∷ []) period))
              issues)
        × (sum_of
              (λ (p : Point). p.row.total)
              (calculate_scan_series fromisoformat name_of now scans issues period source)
            ≡ count_where
                (is_dated "created_at" (granularity ("day" ∷ "week" ∷ "month" ∷ []) period))
                scans)
  unfolding calculate_findings_series calculate_scan_series
  series-total scans issues period source =
      let weeks = granularity ("week" ∷ "month" ∷ "year" ∷ []) period in
      let days = granularity ("day" ∷ "week" ∷ "month" ∷ []) period in
      let mode = severity_mode source in
      let a = app_severities issues [] in
      (
        omega (
          arith,
          sum_of-points weeks (finding_loop fromisoformat name_of now weeks issues [])
              (finding_loop-Unique weeks issues [] tt),
          finding_loop-total weeks issues [],
          sum_values-nil row_total,
        ),
        omega (
          arith,
          sum_of-points days (scan_loop fromisoformat name_of now days mode a scans [])
              (scan_loop-Unique days mode a scans [] tt),
          scan_loop-total days mode a scans [],
          sum_values-nil row_total,
        ),
      )
