-- ===== src/Services/ReadService/Statistics/Options.antt =====
-- The technology choices of `build_issue_filter_options` in
-- backend/app/services/asoc_read_service.py.
use app_scan_custom_dashboar.Base.{
  ℕ, ◌+◌, String, Bool, true, false, not, ◌&&◌, some, List, [], ◌∷◌, ◌≡◌, refl, ap, ◌∙◌, sym, map,
  ◌==◌, eq_iff, if◌then◌else◌, member, length, count_where, one_if, sum_of, lookup, lookup_or,
  lookup-insert, lookup_or-bump_key, bump_key, Dict, Bool-cases, inl, inr, arith,
}
use app_scan_custom_dashboar.Json.{Fields}
use app_scan_custom_dashboar.Services.ReadService.Technology.{
  technologies, build_app_technology_maps, resolve_issue_technology,
}
use app_scan_custom_dashboar.Services.ReadService.Statistics.{
  has_technology, OptionCounts, OptionItem, is_there, count_technology, count_label, option_loop,
  label_of, no_counts, build_issue_filter_options,
}

-- The counters are those of the four technologies.
abbrev HasFour : OptionCounts → Type 0
HasFour c = (t : String) → is_there (lookup t c.tech_counts) ≡ member t technologies

no_counts-HasFour : HasFour no_counts
unfolding lookup member
no_counts-HasFour t = ground (
  arith,
  eq_iff "DAST" t,
  eq_iff "SAST" t,
  eq_iff "SCA" t,
  eq_iff "IAST" t,
  eq_iff t "DAST",
  eq_iff t "SAST",
  eq_iff t "SCA",
  eq_iff t "IAST",
)

still :
    (technology t : String) (c : OptionCounts)
    → HasFour c
    → is_there (lookup technology c.tech_counts) ≡ true
    → is_there (
        if technology == t
        then some (lookup_or technology 0 c.tech_counts + 1)
        else lookup t c.tech_counts)
      ≡ member t technologies
still technology t c h there = elim (Bool-cases (technology == t)) [
  | inr apart ↦ rw apart (h t)
  | inl same ↦
      let listed : member technology technologies ≡ true = sym (h technology) ∙ there in
      rw same (
        sym (
          ap (λ (x : String). member x technologies) (sym ((eq_iff technology t).0 same)) ∙ listed))
]

count_technology-HasFour :
    (technology : String) (c : OptionCounts) → HasFour c → HasFour (count_technology technology c)
unfolding count_technology bump_key
count_technology-HasFour technology c h t =
    elim (Bool-cases (is_there (lookup technology c.tech_counts))) [
      | inr apart ↦ rw apart (h t)
      | inl there ↦
          rw
            (
              there,
              lookup-insert technology t (lookup_or technology 0 c.tech_counts + 1) c.tech_counts,
            )
            (still technology t c h there)
    ]

count_label-HasFour :
    (label : String) (c : OptionCounts) → HasFour c → HasFour (count_label label c)
unfolding count_label
count_label-HasFour label c h t = elim (Bool-cases (label == "")) [
  | inl empty ↦ rw empty (h t)
  | inr named ↦ rw named (h t)
]

-- One issue: its technology's counter goes up, or that of the unclassified issues.
module _ (technology t : String) (c : OptionCounts) (h : HasFour c) where
  lookup_or-count_technology :
      lookup_or t 0 (count_technology technology c).tech_counts
      ≡ one_if (member technology technologies && technology == t) + lookup_or t 0 c.tech_counts
  unfolding count_technology
  lookup_or-count_technology = elim (Bool-cases (is_there (lookup technology c.tech_counts))) [
    | inl there ↦
        rw (there, sym (h technology) ∙ there) (lookup_or-bump_key technology t c.tech_counts)
    | inr apart ↦ rw (apart, sym (h technology) ∙ apart) (omega arith)
  ]

  unknown_count-count_technology :
      (count_technology technology c).unknown_count
      ≡ one_if (not (member technology technologies)) + c.unknown_count
  unfolding count_technology
  unknown_count-count_technology = elim (Bool-cases (is_there (lookup technology c.tech_counts))) [
    | inl there ↦ rw (there, sym (h technology) ∙ there) (omega arith)
    | inr apart ↦ rw (apart, sym (h technology) ∙ apart) (omega arith)
  ]

count_label-counters :
    (label : String) (c : OptionCounts)
    → ((count_label label c).tech_counts ≡ c.tech_counts)
      × ((count_label label c).unknown_count ≡ c.unknown_count)
unfolding count_label
count_label-counters label c = elim (Bool-cases (label == "")) [
  | inl empty ↦ rw empty (refl, refl)
  | inr named ↦ rw named (refl, refl)
]

listed_and :
    (s t : String) → member t technologies ≡ true → (member s technologies && s == t) ≡ (s == t)
listed_and s t listed = elim (Bool-cases (s == t)) [
  | inl same ↦ rw (same, (eq_iff s t).0 same, listed) refl
  | inr apart ↦
      rw apart
        (elim (member s technologies) as (λ b. (b && false) ≡ false) [ true ↦ refl | false ↦ refl ])
]

count_where-ext :
    (p q : Fields → Bool) (xs : List Fields)
    → ((x : Fields) → p x ≡ q x)
    → count_where p xs ≡ count_where q xs
unfolding count_where
count_where-ext p q [] h = refl
count_where-ext p q (x ∷ xs) h = rw (h x, count_where-ext p q xs h) refl

module _ (scans : List Fields) where
  technology_of : Fields → String
  technology_of issue =
      resolve_issue_technology issue (build_app_technology_maps scans).0
        (build_app_technology_maps scans).1

  -- The technology of the issue is none of the four.
  unfoldable pub is_unclassified : Fields → Bool
  unfolding technology_of member resolve_issue_technology build_app_technology_maps
  is_unclassified issue = not (member (technology_of issue) technologies)

  step : Fields → OptionCounts → OptionCounts
  step issue c = count_label (label_of issue) (count_technology (technology_of issue) c)

  step-HasFour : (issue : Fields) (c : OptionCounts) → HasFour c → HasFour (step issue c)
  unfolding step
  step-HasFour issue c h =
      count_label-HasFour (label_of issue) (count_technology (technology_of issue) c)
        (count_technology-HasFour (technology_of issue) c h)

  -- The issue counts for a technology of the four.
  counts_for : String → Fields → Bool
  counts_for t issue = member (technology_of issue) technologies && technology_of issue == t

  step-counters :
      (t : String) (issue : Fields) (c : OptionCounts)
      → HasFour c
      → (lookup_or t 0 (step issue c).tech_counts
          ≡ one_if (counts_for t issue) + lookup_or t 0 c.tech_counts)
        × ((step issue c).unknown_count ≡ one_if (is_unclassified issue) + c.unknown_count)
  unfolding step counts_for is_unclassified
  step-counters t issue c h =
      let same = count_label-counters (label_of issue) (count_technology (technology_of issue) c) in
      (
        ap (λ (d : Dict ℕ). lookup_or t 0 d) same.0
            ∙ lookup_or-count_technology (technology_of issue) t c h,
        same.1 ∙ unknown_count-count_technology (technology_of issue) t c h,
      )

  option_loop-step :
      (issue : Fields) (issues : List Fields) (c : OptionCounts)
      → option_loop scans (issue ∷ issues) c ≡ option_loop scans issues (step issue c)
  unfolding option_loop step technology_of
  option_loop-step issue issues c = refl

  option_loop-counters :
      (t : String) (issues : List Fields) (c : OptionCounts)
      → HasFour c
      → (lookup_or t 0 (option_loop scans issues c).tech_counts
          ≡ count_where (counts_for t) issues + lookup_or t 0 c.tech_counts)
        × ((option_loop scans issues c).unknown_count
            ≡ count_where is_unclassified issues + c.unknown_count)
  unfolding count_where
  option_loop-counters t [] c h = unfold option_loop in (omega arith, omega arith)
  option_loop-counters t (issue ∷ issues) c h =
      let rest = option_loop-counters t issues (step issue c) (step-HasFour issue c h) in
      let one = step-counters t issue c h in
      rw (option_loop-step issue issues c) (omega arith, omega arith)

  counts_for-has_technology :
      (t : String) (issue : Fields)
      → member t technologies ≡ true
      → counts_for t issue ≡ has_technology scans t issue
  unfolding counts_for has_technology technology_of
  counts_for-has_technology t issue listed = listed_and (technology_of issue) t listed

  -- One of the four, or unclassified.
  one_choice :
      (t : String)
      → one_if (t == "DAST")
          + one_if (t == "SAST")
          + one_if (t == "SCA")
          + one_if (t == "IAST")
          + one_if (not (member t technologies))
        ≡ 1
  unfolding member
  one_choice t = elim (Bool-cases (t == "DAST")) [
    | inl e ↦ rw ((eq_iff t "DAST").0 e) refl
    | inr not_dast ↦ elim (Bool-cases (t == "SAST")) [
      | inl e ↦ rw ((eq_iff t "SAST").0 e) refl
      | inr not_sast ↦ elim (Bool-cases (t == "SCA")) [
        | inl e ↦ rw ((eq_iff t "SCA").0 e) refl
        | inr not_sca ↦ ground arith
      ]
    ]
  ]

  choice :
      (issue : Fields)
      → one_if (has_technology scans "DAST" issue)
          + one_if (has_technology scans "SAST" issue)
          + one_if (has_technology scans "SCA" issue)
          + one_if (has_technology scans "IAST" issue)
          + one_if (is_unclassified issue)
        ≡ 1
  unfolding has_technology is_unclassified technology_of
  choice issue = one_choice (technology_of issue)

  choices-length :
      (issues : List Fields)
      → count_where (has_technology scans "DAST") issues
          + count_where (has_technology scans "SAST") issues
          + count_where (has_technology scans "SCA") issues
          + count_where (has_technology scans "IAST") issues
          + count_where is_unclassified issues
        ≡ length issues
  unfolding count_where
  choices-length [] = refl
  choices-length (issue ∷ issues) = omega (arith, choices-length issues, choice issue)

  technology_count :
      (t : String) (issues : List Fields)
      → member t technologies ≡ true
      → lookup_or t 0 no_counts.tech_counts ≡ 0
      → lookup_or t 0 (option_loop scans issues no_counts).tech_counts
        ≡ count_where (has_technology scans t) issues
  technology_count t issues listed fresh =
      let counted = (option_loop-counters t issues no_counts no_counts-HasFour).0 in
      let same =
        count_where-ext (counts_for t) (has_technology scans t) issues
          (λ issue. counts_for-has_technology t issue listed) in
      omega arith

  -- The technology choices of a dashboard: the four technologies, each with the number of issues that
  -- are resolved to it; these numbers and that of the unclassified issues add up to the number of
  -- issues, and the unclassified are those that are resolved to none of the four.
  pub build_issue_filter_options-technologies :
      (issues : List Fields) (vulnerability_limit : ℕ)
      → ((build_issue_filter_options scans issues vulnerability_limit).technologies
          ≡ map
              (λ t. record {
                value = t;
                label = t;
                count = count_where (has_technology scans t) issues;
              })
              technologies)
        × ((build_issue_filter_options scans issues vulnerability_limit).unclassified_count
            ≡ count_where is_unclassified issues)
        × (sum_of
                (λ (o : OptionItem). o.count)
                (build_issue_filter_options scans issues vulnerability_limit).technologies
              + (build_issue_filter_options scans issues vulnerability_limit).unclassified_count
            ≡ length issues)
  unfolding build_issue_filter_options lookup_or lookup member sum_of
  build_issue_filter_options-technologies issues vulnerability_limit =
      let d = technology_count "DAST" issues refl refl in
      let s = technology_count "SAST" issues refl refl in
      let c = technology_count "SCA" issues refl refl in
      let i = technology_count "IAST" issues refl refl in
      let u = (option_loop-counters "DAST" issues no_counts no_counts-HasFour).1 in
      (rw (d, s, c, i) refl, omega arith, omega (arith, choices-length issues))
