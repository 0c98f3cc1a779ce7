-- ===== src/Services/ReadService/Filters/Scope.antt =====
-- What the filters of backend/app/services/asoc_read_service.py let through.
use app_scan_custom_dashboar.Base.{
  ℕ, String, Bool, true, false, not, ◌&&◌, ◌||◌, Option, none, some, List, [], ◌∷◌, ◌≡◌, refl, sym,
  ◌∙◌, ◌==◌, eq_iff, if◌then◌else◌, member, keep, Mem, mem-of_keep, Bool-cases, inl, inr, arith,
  ◌⊎◌, Dict,
}
use app_scan_custom_dashboar.Json.{Fields, text_at}
use app_scan_custom_dashboar.Services.ReadService.Technology.{build_app_technology_maps}
use app_scan_custom_dashboar.Services.ReadService.Filters.{
  Filters, is_empty, filter_by_period, one_or_many, group_match, application_match, name_match,
  technology_match, vulnerability_match, scan_match, issue_match, scan_filter_active,
  issue_technology_set, vulnerability_set, apply_filters, filter_issues_by_dimensions, needle,
  scan_type_set, scan_status_set,
}

-- No filter but the technologies and the vulnerabilities.
abbrev pub dimensions : List String → List String → Filters
dimensions issue_technologies vulnerabilities = record {
  asset_group_id = none;
  asset_group_ids = [];
  application_id = none;
  application_ids = [];
  application_name = none;
  issue_technologies = issue_technologies;
  vulnerabilities = vulnerabilities;
  scan_types = [];
  scan_statuses = [];
  from_date = none;
  to_date = none;
}

keep-ext :
    (p q : Fields → Bool) (xs : List Fields) → ((x : Fields) → p x ≡ q x) → keep p xs ≡ keep q xs
unfolding keep
keep-ext p q [] h = refl
keep-ext p q (x ∷ xs) h = rw (h x, keep-ext p q xs h) refl

keep-all : (p : Fields → Bool) (xs : List Fields) → ((x : Fields) → p x ≡ true) → keep p xs ≡ xs
unfolding keep
keep-all p [] h = refl
keep-all p (x ∷ xs) h = rw (h x, keep-all p xs h) refl

both : Dict (List String) × Dict String → List String → List String → Fields → Bool
both maps wanted wanted_vulnerabilities item =
    technology_match maps.0 maps.1 wanted item && vulnerability_match wanted_vulnerabilities item

and-true : (b : Bool) → (b && true) ≡ b
and-true true = refl
and-true false = refl

issue_match-dimensions :
    (scans filtered : List Fields) (technologies vulnerabilities : List String) (item : Fields)
    → issue_match scans filtered (dimensions technologies vulnerabilities) item
      ≡ both
          (build_app_technology_maps scans)
          (issue_technology_set technologies)
          (vulnerability_set vulnerabilities)
          item
unfolding issue_match both group_match application_match name_match one_or_many needle
    scan_filter_active scan_type_set scan_status_set keep
issue_match-dimensions scans filtered technologies vulnerabilities item = ground arith

both-empty :
    (maps : Dict (List String) × Dict String) (wanted wanted_vulnerabilities : List String)
    → (is_empty wanted && is_empty wanted_vulnerabilities) ≡ true
    → (item : Fields) → both maps wanted wanted_vulnerabilities item ≡ true
unfolding both technology_match vulnerability_match
both-empty maps wanted wanted_vulnerabilities h item = ground arith

filter_issues_by_dimensions-keep :
    (scans issues : List Fields) (technologies vulnerabilities : List String)
    → filter_issues_by_dimensions scans issues technologies vulnerabilities
      ≡ keep
          (both
            (build_app_technology_maps scans)
            (issue_technology_set technologies)
            (vulnerability_set vulnerabilities))
          issues
unfolding filter_issues_by_dimensions both
filter_issues_by_dimensions-keep scans issues technologies vulnerabilities =
    let wanted = issue_technology_set technologies in
    let wanted_vulnerabilities = vulnerability_set vulnerabilities in
    elim (Bool-cases (is_empty wanted && is_empty wanted_vulnerabilities)) [
      | inl none_wanted ↦ rw none_wanted (
          sym (
            keep-all (both (build_app_technology_maps scans) wanted wanted_vulnerabilities) issues (
              both-empty (build_app_technology_maps scans) wanted wanted_vulnerabilities
                none_wanted)))
      | inr some_wanted ↦ rw some_wanted refl
    ]

-- Filtering issues by technologies and vulnerabilities alone gives what the general filter gives for a
-- request that names nothing else.
pub filter_issues_by_dimensions-apply_filters :
    (fromisoformat : String → Option ℕ) (scans issues : List Fields)
    (technologies vulnerabilities : List String)
    → filter_issues_by_dimensions scans issues technologies vulnerabilities
      ≡ (apply_filters fromisoformat scans issues (dimensions technologies vulnerabilities)).1
unfolding apply_filters filter_by_period
filter_issues_by_dimensions-apply_filters fromisoformat scans issues technologies vulnerabilities =
    filter_issues_by_dimensions-keep scans issues technologies vulnerabilities
    ∙ sym (
        keep-ext _ _ issues (
          issue_match-dimensions scans
            (keep (scan_match (dimensions technologies vulnerabilities)) scans) technologies
            vulnerabilities))

-- The item is of one of the groups, or of none and of one of the applications.
unfoldable pub IsInScope : List String → List String → Fields → Type 0
unfolding text_at member
IsInScope groups applications item =
    (member (text_at "asset_group_id" item) groups ≡ true)
    ⊎ ((text_at "asset_group_id" item ≡ "")
        × (member (text_at "application_id" item) applications ≡ true))

no_group :
    (groups applications : List String) (missing in_groups : Bool)
    → is_empty groups ≡ false
    → missing ≡ true
    → (is_empty groups || (if missing then not (is_empty applications) else in_groups)) ≡ true
    → is_empty applications ≡ false
no_group groups applications missing in_groups e m h = ground arith

grouped :
    (groups applications : List String) (missing in_groups : Bool)
    → is_empty groups ≡ false
    → missing ≡ false
    → (is_empty groups || (if missing then not (is_empty applications) else in_groups)) ≡ true
    → in_groups ≡ true
grouped groups applications missing in_groups e m h = ground arith

scoped_app :
    (applications : List String) (id : String)
    → is_empty applications ≡ false
    → (is_empty applications || member id applications) ≡ true
    → member id applications ≡ true
scoped_app applications id e h = ground arith

match-IsInScope :
    (groups applications : List String) (item : Fields)
    → is_empty groups ≡ false
    → group_match groups applications item ≡ true
    → application_match applications item ≡ true
    → IsInScope groups applications item
unfolding IsInScope group_match application_match
match-IsInScope groups applications item some_group g a =
    elim (Bool-cases (text_at "asset_group_id" item == "")) [
      | inl missing ↦ inr (
        (eq_iff (text_at "asset_group_id" item) "").0 missing,
        scoped_app applications (text_at "application_id" item)
            (no_group groups applications _ _ some_group missing g) a,
      )
      | inr there ↦ inl (grouped groups applications _ _ some_group there g)
    ]

filter_by_period-mem :
    (fromisoformat : String → Option ℕ) (items : List Fields) (key : String)
    (from_dt to_dt : Option ℕ) (item : Fields)
    → Mem item (filter_by_period fromisoformat items key from_dt to_dt)
    → Mem item items
unfolding filter_by_period
filter_by_period-mem fromisoformat items key none none item m = m
filter_by_period-mem fromisoformat items key none (some t) item m = (mem-of_keep _ item items m).0
filter_by_period-mem fromisoformat items key (some s) none item m = (mem-of_keep _ item items m).0
filter_by_period-mem fromisoformat items key (some s) (some t) item m =
    (mem-of_keep _ item items m).0

abbrev Grouped : Filters → Fields → Type 0
Grouped filters item =
    (group_match (one_or_many filters.asset_group_id filters.asset_group_ids)
        (one_or_many filters.application_id filters.application_ids) item
      ≡ true)
    × (application_match (one_or_many filters.application_id filters.application_ids) item ≡ true)

scan_match-group :
    (filters : Filters) (item : Fields) → scan_match filters item ≡ true → Grouped filters item
unfolding scan_match
scan_match-group filters item h = (ground arith, ground arith)

issue_match-group :
    (scans filtered : List Fields) (filters : Filters) (item : Fields)
    → issue_match scans filtered filters item ≡ true
    → Grouped filters item
unfolding issue_match
issue_match-group scans filtered filters item h = (ground arith, ground arith)

-- A request for asset groups sees no scan and no issue of another group: what the filters keep is among
-- the given scans or issues, and is of one of the groups, or has no group and is of one of the
-- applications that are asked for.
pub apply_filters-IsInScope :
    (fromisoformat : String → Option ℕ) (scans issues : List Fields) (filters : Filters)
    (item : Fields)
    → is_empty (one_or_many filters.asset_group_id filters.asset_group_ids) ≡ false
    → Mem item (apply_filters fromisoformat scans issues filters).0
      ⊎ Mem item (apply_filters fromisoformat scans issues filters).1
    → (Mem item scans ⊎ Mem item issues)
      × IsInScope
          (one_or_many filters.asset_group_id filters.asset_group_ids)
          (one_or_many filters.application_id filters.application_ids)
          item
unfolding apply_filters
apply_filters-IsInScope fromisoformat scans issues filters item some_group (inl m) =
    let kept = mem-of_keep (scan_match filters) item scans (
      filter_by_period-mem fromisoformat (keep (scan_match filters) scans) "created_at" _ _ item
        m) in
    (
      inl kept.0,
      match-IsInScope _ _ item some_group (scan_match-group filters item kept.1).0
          (scan_match-group filters item kept.1).1,
    )
apply_filters-IsInScope fromisoformat scans issues filters item some_group (inr m) =
    let filtered = keep (scan_match filters) scans in
    let kept = mem-of_keep (issue_match scans filtered filters) item issues (
      filter_by_period-mem fromisoformat (keep (issue_match scans filtered filters) issues)
        "opened_at" _ _ item m) in
    (
      inr kept.0,
      match-IsInScope _ _ item some_group (issue_match-group scans filtered filters item kept.1).0
          (issue_match-group scans filtered filters item kept.1).1,
    )
