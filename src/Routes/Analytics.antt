-- ===== src/Routes/Analytics.antt =====
-- How backend/app/api/v1/routes/analytics.py reads a request: the normalisation of its lists, the check
-- of its scope, the catalogue that it sees, the freshness of a snapshot and the table of locks. A
-- datetime is a number, and `fromisoformat` is `datetime.fromisoformat` in UTC, `none` where it raises.
pub mod Lists
pub mod Locks
pub mod Scope
mod Tests
use app_scan_custom_dashboar.Base.{
  ℕ, suc, String, ◌<>◌, Bool, true, false, not, ◌&&◌, ◌||◌, Option, none, some, List, [], ◌∷◌, ◌++◌,
  map, ◌==◌, eqb, leb, ltb, if◌then◌else◌, member, contains, strip, upper, lower, keep, sort,
  text_le, distinct, length, drop, Dict, lookup, insert, ℤ, pos,
}
use Prim.Native.Char.{code}
use app_scan_custom_dashboar.Json.{
  Value, Fields, null, bool, int, float, text, arr, obj, end, field, get, text_at,
}
use app_scan_custom_dashboar.Errors.{Result, ok, err, http_exception}
use app_scan_custom_dashboar.Security.Session.{UserContext}
use app_scan_custom_dashboar.Client.Read.{int_of}
use app_scan_custom_dashboar.Services.ReadService.Filters.{parse_dt, is_empty}

-- `value.split(",")`: the part before the first comma that is read, and the parts behind it.
split_from : String → String → List String
split_from part String.[] = part ∷ []
split_from part (String.◌∷◌ c s) = elim (eqb (code c) 44) [
  | true ↦ part ∷ split_from "" s
  | false ↦ split_from (part <> String.◌∷◌ c "") s
]

unfoldable pub split_commas : String → List String
unfolding split_from
split_commas s = split_from "" s

-- `for item in …: if not accept(item) or item in seen: continue; out.append(item); seen.add(item)`.
unfoldable pub collect : (String → Bool) → List String → List String → List String
unfolding member
collect accept seen [] = []
collect accept seen (item ∷ items) = elim (accept item && not (member item seen)) [
  | true ↦ item ∷ collect accept (item ∷ seen) items
  | false ↦ collect accept seen items
]

-- The single value, if there is one, in front of the list.
unfoldable pub raw_values : List String → Option String → List String
raw_values values none = values
raw_values values (some single) = if single == "" then values else single ∷ values

unfoldable pub tokens : List String → List String
unfolding split_commas
tokens [] = []
tokens (value ∷ values) = map strip (split_commas value) ++ tokens values

abbrev pub is_text : String → Bool
is_text t = not (t == "")

unfoldable pub normalize_id_list : List String → Option String → List String
unfolding collect tokens raw_values
normalize_id_list values single = collect is_text [] (tokens (raw_values values single))

-- The four lists that have a normal form of their own.
unfoldable pub normalize_list :
    (String → Bool) → (String → String) → List String → Option String → List String
unfolding collect normalize_id_list
normalize_list accept normalize values single =
    collect accept [] (map normalize (normalize_id_list values single))

abbrev pub is_technology : String → Bool
is_technology t = member t ("DAST" ∷ "SAST" ∷ "SCA" ∷ "IAST" ∷ [])

abbrev pub is_scan_type : String → Bool
is_scan_type t = member t ("DAST" ∷ "SAST" ∷ "SCA" ∷ "IAST" ∷ "OTHER" ∷ [])

abbrev pub is_scan_status : String → Bool
is_scan_status t =
    member t
      ("completed" ∷ "running" ∷ "pending" ∷ "failed" ∷ "unknown" ∷ "queued" ∷ "scheduled" ∷ [])

abbrev pub upper_form : String → String
upper_form value = upper (strip value)

abbrev pub lower_form : String → String
lower_form value = lower (strip value)

unfoldable pub normalize_issue_technology_list : List String → Option String → List String
unfolding normalize_list
normalize_issue_technology_list = normalize_list is_technology upper_form

unfoldable pub normalize_vulnerability_list : List String → Option String → List String
unfolding normalize_list
normalize_vulnerability_list = normalize_list is_text lower_form

unfoldable pub normalize_scan_type_list : List String → Option String → List String
unfolding normalize_list
normalize_scan_type_list = normalize_list is_scan_type upper_form

unfoldable pub normalize_scan_status_list : List String → Option String → List String
unfolding normalize_list
normalize_scan_status_list = normalize_list is_scan_status lower_form

-- `_resolve_issue_filters` and `_resolve_scan_filters`.
unfoldable pub resolve_issue_filters :
    Option String → List String → Option String → List String → List String × List String
unfolding normalize_issue_technology_list normalize_vulnerability_list
resolve_issue_filters issue_technology issue_technologies vulnerability vulnerabilities = (
  normalize_issue_technology_list issue_technologies issue_technology,
  normalize_vulnerability_list vulnerabilities vulnerability,
)

unfoldable pub resolve_scan_filters :
    Option String → List String → Option String → List String → List String × List String
unfolding normalize_scan_type_list normalize_scan_status_list
resolve_scan_filters scan_type scan_types scan_status scan_statuses = (
  normalize_scan_type_list scan_types scan_type,
  normalize_scan_status_list scan_statuses scan_status,
)

-- `", ".join(names)`.
comma_joined : List String → String
comma_joined [] = ""
comma_joined (name ∷ []) = name
comma_joined (name ∷ other ∷ names) = name <> ", " <> comma_joined (other ∷ names)

abbrev pub sees_all : UserContext → Bool
sees_all user = member user.role ("PlatformAdmin" ∷ "SecurityManager" ∷ [])

unfoldable pub resolve_scope_filters :
    UserContext
    → Option String
    → List String
    → Option String
    → List String
    → Result (List String × List String)
unfolding normalize_id_list comma_joined keep distinct sort member
resolve_scope_filters user asset_group_id asset_group_ids application_id application_ids =
    let groups = normalize_id_list asset_group_ids asset_group_id in
    let applications = normalize_id_list application_ids application_id in
    let denied = keep (λ item. not (member item user.asset_group_ids)) groups in
    if not (sees_all user) && not (is_empty groups) && not (is_empty denied)
    then err (
        http_exception 403
          ("Access denied for asset groups: " <> comma_joined (sort text_le (distinct denied))))
    else ok (groups, applications)

-- `_apply_scope_filters_to_catalog`.
keep_ids : String → List String → List Fields → List Fields
unfolding keep text_at member
keep_ids key allowed items =
    if is_empty allowed then items else keep (λ item. member (text_at key item) allowed) items

keep_named : Option String → List Fields → List Fields
unfolding keep text_at contains
keep_named none apps = apps
keep_named (some name) apps =
    if name == ""
    then apps
    else keep (λ item. contains (lower (text_at "name" item)) (lower name)) apps

unfoldable pub apply_scope_filters_to_catalog :
    List Fields
    → List Fields
    → List String
    → List String
    → Option String
    → List Fields × List Fields
unfolding keep_ids keep_named
apply_scope_filters_to_catalog applications asset_groups asset_group_ids application_ids name = (
  keep_named name
      (keep_ids "id" application_ids (keep_ids "asset_group_id" asset_group_ids applications)),
  keep_ids "id" asset_group_ids asset_groups,
)

-- `_is_snapshot_fresh`; `_from_iso` is the same function as `_parse_dt` of the read service.
unfoldable pub is_snapshot_fresh : (String → Option ℕ) → ℕ → Fields → Bool
unfolding parse_dt text_at
is_snapshot_fresh fromisoformat now end = false
is_snapshot_fresh fromisoformat now (field k v fs) =
    elim (parse_dt fromisoformat (text_at "expires_at" (field k v fs))) [
      | none ↦ false
      | some expires_at ↦ ltb now expires_at
    ]

required_sections : List String
required_sections =
    "statistics" ∷ "trend_active" ∷ "trend_all" ∷ "kpi" ∷ "mttr" ∷ "portfolio_summary"
    ∷ "prioritization" ∷ "findings_series" ∷ "scan_series" ∷ "scan_series_by_source"
    ∷ "workbench_trends" ∷ "chart_data" ∷ []

field_names : Fields → List String
field_names end = []
field_names (field k v fs) = k ∷ field_names fs

all_in : List String → List String → Bool
unfolding member
all_in [] names = true
all_in (x ∷ xs) names = member x names && all_in xs names

unfoldable pub bundle_has_required_sections : Value → Bool
unfolding required_sections field_names all_in
bundle_has_required_sections (obj payload) = all_in required_sections (field_names payload)
bundle_has_required_sections _ = false

-- The three modes of a request, each with its default.
one_of_or : List String → String → Option String → String
unfolding member
one_of_or modes default none = default
one_of_or modes default (some value) =
    if member (lower (strip value)) modes then lower (strip value) else default

unfoldable pub normalize_scan_severity_source : Option String → String
unfolding one_of_or
normalize_scan_severity_source = one_of_or ("derived" ∷ "native" ∷ "hybrid" ∷ []) "hybrid"

unfoldable pub normalize_compliance_rule : Option String → String
unfolding one_of_or
normalize_compliance_rule = one_of_or ("critical_high" ∷ "any_open" ∷ "custom" ∷ []) "critical_high"

unfoldable pub normalize_compliance_threshold : Option String → String
unfolding one_of_or
normalize_compliance_threshold = one_of_or ("critical" ∷ "high" ∷ "medium" ∷ "low" ∷ []) "high"

-- `_to_int` and `_coerce_counts_map`: `trunc` is `int` of a float.
unfoldable pub to_int : (String → ℤ) → Value → ℤ → ℤ
unfolding int_of
to_int trunc v default = elim (int_of trunc v) [ none ↦ default | some n ↦ n ]

coerce_fields : (String → ℤ) → Fields → Dict ℤ → Dict ℤ
unfolding to_int insert
coerce_fields trunc end out = out
coerce_fields trunc (field k v fs) out =
    coerce_fields trunc fs (insert (lower k) (to_int trunc v (pos 0)) out)

unfoldable pub coerce_counts_map : (String → ℤ) → Value → Dict ℤ
unfolding coerce_fields
coerce_counts_map trunc (obj raw) = coerce_fields trunc raw []
coerce_counts_map trunc _ = []

-- `_CACHE_LOCKS`: a lock is a number, and `made` locks were created so far.
pub record LockTable : Type 0 where
  pub locks : Dict ℕ
  pub made : ℕ

-- A new lock, behind an eviction of the oldest hundred where the table is full.
new_lock : ℕ → String → LockTable → LockTable × ℕ
unfolding insert
new_lock limit cache_key t =
    let left = if leb limit (length t.locks) then drop 100 t.locks else t.locks in
    (record { locks = insert cache_key t.made left; made = suc t.made }, t.made)

unfoldable pub get_lock : ℕ → String → LockTable → LockTable × ℕ
unfolding new_lock lookup
get_lock limit cache_key t = elim (lookup cache_key t.locks) [
  | some lock ↦ (t, lock)
  | none ↦ new_lock limit cache_key t
]
