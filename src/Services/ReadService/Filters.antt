-- ===== src/Services/ReadService/Filters.antt =====
-- Which scans and issues a request sees: `apply_filters` and `filter_issues_by_dimensions` of
-- backend/app/services/asoc_read_service.py. A datetime is a number, and `fromisoformat` is
-- `datetime.fromisoformat` in UTC, `none` where it raises; a set is a list of its elements.
pub mod Scope
use app_scan_custom_dashboar.Base.{
  ℕ, String, Bool, true, false, not, ◌&&◌, ◌||◌, Option, none, some, List, [], ◌∷◌, map, ◌==◌, ◌<>◌,
  eqb, ltb, if◌then◌else◌, member, contains, strip, upper, lower, keep, Dict,
}
use Prim.Native.Char.{code}
use app_scan_custom_dashboar.Json.{Fields, Value, get_or, truthy, str, text_or, text_at}
use app_scan_custom_dashboar.Services.ReadService.Normalize.{normalize_issue_technology}
use app_scan_custom_dashboar.Services.ReadService.Technology.{
  build_app_technology_maps, resolve_issue_technology, type_of,
}

-- `s.replace("Z", "+00:00")`.
replace_z : String → String
replace_z String.[] = ""
replace_z (String.◌∷◌ c s) =
    if eqb (code c) 90 then "+00:00" <> replace_z s else String.◌∷◌ c (replace_z s)

-- `bool(s)` of a text, and of a set or a list.
abbrev pub is_empty {ℓ} : {A : Type ℓ} → List A → Bool
is_empty [] = true
is_empty (x ∷ xs) = false

unfoldable pub parse_dt : (String → Option ℕ) → String → Option ℕ
unfolding replace_z
parse_dt fromisoformat value = if value == "" then none else fromisoformat (replace_z value)

abbrev parse_optional : (String → Option ℕ) → Option String → Option ℕ
parse_optional fromisoformat none = none
parse_optional fromisoformat (some t) = parse_dt fromisoformat t

after : Option ℕ → ℕ → Bool
after none time = true
after (some from_dt) time = not (ltb time from_dt)

until : Option ℕ → ℕ → Bool
until none time = true
until (some to_dt) time = not (ltb to_dt time)

in_period : Option ℕ → Option ℕ → Option ℕ → Bool
unfolding after until
in_period from_dt to_dt none = false
in_period from_dt to_dt (some time) = after from_dt time && until to_dt time

abbrev is_none {ℓ} : {A : Type ℓ} → Option A → Bool
is_none none = true
is_none (some a) = false

unfoldable pub filter_by_period :
    (String → Option ℕ) → List Fields → String → Option ℕ → Option ℕ → List Fields
unfolding in_period keep text_at
filter_by_period fromisoformat items key from_dt to_dt =
    if is_none from_dt && is_none to_dt
    then items
    else keep (λ item. in_period from_dt to_dt (parse_dt fromisoformat (text_at key item))) items

-- The keyword arguments; `None` for a list is the empty list, which the source treats alike.
pub record Filters : Type 0 where
  pub asset_group_id : Option String
  pub asset_group_ids : List String
  pub application_id : Option String
  pub application_ids : List String
  pub application_name : Option String
  pub issue_technologies : List String
  pub vulnerabilities : List String
  pub scan_types : List String
  pub scan_statuses : List String
  pub from_date : Option String
  pub to_date : Option String

-- `set(many or ([] if not one else [one]))`.
unfoldable pub one_or_many : Option String → List String → List String
one_or_many none [] = []
one_or_many (some one) [] = if one == "" then [] else one ∷ []
one_or_many one (id ∷ ids) = id ∷ ids

needle : Option String → String
needle none = ""
needle (some name) = lower name

unfoldable pub issue_technology_set : List String → List String
unfolding normalize_issue_technology keep
issue_technology_set values =
    keep (λ t. not (t == "UNKNOWN")) (map (λ v. normalize_issue_technology (Value.text v)) values)

unfoldable pub vulnerability_set : List String → List String
unfolding keep
vulnerability_set values = map (λ v. lower (strip v)) (keep (λ v. not (strip v == "")) values)

scan_type_set : List String → List String
unfolding keep member
scan_type_set values =
    keep (λ t. member t ("DAST" ∷ "SAST" ∷ "SCA" ∷ "IAST" ∷ "OTHER" ∷ []))
      (map (λ v. upper (strip v)) values)

scan_status_set : List String → List String
unfolding keep
scan_status_set values = keep (λ t. not (t == "")) (map (λ v. lower (strip v)) values)

-- The group of the item is asked for; an item without one needs an application scope.
unfoldable pub group_match : List String → List String → Fields → Bool
unfolding text_at member
group_match groups applications item =
    is_empty groups
    || (if text_at "asset_group_id" item == ""
        then not (is_empty applications)
        else member (text_at "asset_group_id" item) groups)

unfoldable pub application_match : List String → Fields → Bool
unfolding text_at member
application_match applications item =
    is_empty applications || member (text_at "application_id" item) applications

unfoldable pub name_match : String → Fields → Bool
unfolding text_at contains
name_match app_name_needle item =
    app_name_needle == "" || contains (lower (text_at "application_name" item)) app_name_needle

-- The vulnerability of an issue: that, or its correlation key.
unfoldable pub vulnerability_of : Fields → String
unfolding truthy str get_or text_at
vulnerability_of item =
    let named = get_or "vulnerability" (Value.text "") item in
    lower (strip (if truthy named then str named else text_at "correlation_key" item))

unfoldable pub technology_match : Dict (List String) → Dict String → List String → Fields → Bool
unfolding resolve_issue_technology member
technology_match app_technology_map app_primary_technology wanted item =
    let technology = resolve_issue_technology item app_technology_map app_primary_technology in
    is_empty wanted || not (technology == "UNKNOWN" || not (member technology wanted))

unfoldable pub vulnerability_match : List String → Fields → Bool
unfolding vulnerability_of member
vulnerability_match wanted item = is_empty wanted || member (vulnerability_of item) wanted

unfoldable pub scan_match : Filters → Fields → Bool
unfolding group_match application_match name_match one_or_many needle issue_technology_set
    scan_type_set scan_status_set member text_or
scan_match filters item =
    let groups = one_or_many filters.asset_group_id filters.asset_group_ids in
    let applications = one_or_many filters.application_id filters.application_ids in
    let wanted = issue_technology_set filters.issue_technologies in
    let types = scan_type_set filters.scan_types in
    let statuses = scan_status_set filters.scan_statuses in
    group_match groups applications item
    && application_match applications item
    && name_match (needle filters.application_name) item
    && (is_empty wanted || member (type_of item) wanted)
    && (is_empty types || member (type_of item) types)
    && (is_empty statuses || member (lower (text_or "status" "" item)) statuses)

-- An issue of an application that has one of the scans.
unfoldable pub in_scanned_app : List Fields → Fields → Bool
unfolding keep member text_at
in_scanned_app scans item =
    not (text_at "application_id" item == "")
    && member (text_at "application_id" item)
        (keep (λ id. not (id == "")) (map (λ scan. text_at "application_id" scan) scans))

unfoldable pub scan_filter_active : Filters → Bool
unfolding scan_type_set scan_status_set
scan_filter_active filters =
    not (is_empty (scan_type_set filters.scan_types))
    || not (is_empty (scan_status_set filters.scan_statuses))

unfoldable pub issue_match : List Fields → List Fields → Filters → Fields → Bool
unfolding group_match application_match name_match technology_match vulnerability_match
    in_scanned_app scan_filter_active one_or_many needle issue_technology_set vulnerability_set
    build_app_technology_maps
issue_match scans filtered_scans filters item =
    let maps = build_app_technology_maps scans in
    let groups = one_or_many filters.asset_group_id filters.asset_group_ids in
    let applications = one_or_many filters.application_id filters.application_ids in
    group_match groups applications item
    && application_match applications item
    && name_match (needle filters.application_name) item
    && technology_match maps.0 maps.1 (issue_technology_set filters.issue_technologies) item
    && vulnerability_match (vulnerability_set filters.vulnerabilities) item
    && (not (scan_filter_active filters) || in_scanned_app filtered_scans item)

unfoldable pub apply_filters :
    (String → Option ℕ) → List Fields → List Fields → Filters → List Fields × List Fields
unfolding keep scan_match issue_match filter_by_period
apply_filters fromisoformat scans issues filters =
    let from_dt = parse_optional fromisoformat filters.from_date in
    let to_dt = parse_optional fromisoformat filters.to_date in
    let filtered_scans = keep (scan_match filters) scans in
    let filtered_issues = keep (issue_match scans filtered_scans filters) issues in
    (
      filter_by_period fromisoformat filtered_scans "created_at" from_dt to_dt,
      filter_by_period fromisoformat filtered_issues "opened_at" from_dt to_dt,
    )

unfoldable pub filter_issues_by_dimensions :
    List Fields → List Fields → List String → List String → List Fields
unfolding keep technology_match vulnerability_match issue_technology_set vulnerability_set
    build_app_technology_maps
filter_issues_by_dimensions scans issues issue_technologies vulnerabilities =
    let wanted = issue_technology_set issue_technologies in
    let wanted_vulnerabilities = vulnerability_set vulnerabilities in
    let maps = build_app_technology_maps scans in
    if is_empty wanted && is_empty wanted_vulnerabilities
    then issues
    else keep
        (λ item.
          technology_match maps.0 maps.1 wanted item
          && vulnerability_match wanted_vulnerabilities item)
        issues
