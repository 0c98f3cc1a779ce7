-- ===== src/Services/ReadService/Normalize.antt =====
-- The normalisers of backend/app/services/asoc_read_service.py, which give every scan and issue one of
-- a few types, states, severities and technologies.
pub mod Forms
use app_scan_custom_dashboar.Base.{
  String, Bool, true, false, not, ◌&&◌, ◌||◌, List, [], ◌∷◌, ◌==◌, if◌then◌else◌, contains, strip,
  upper, lower, member,
}
use app_scan_custom_dashboar.Json.{Value, Fields, null, arr, obj, str, get, or_text, text_at}
use app_scan_custom_dashboar.Client.Read.{dicts, items_in}

-- `_extract_items`: the dicts of a list, or of the first of four keys that holds a list.
unfoldable pub extract_items : Value → List Fields
extract_items (arr vs) = dicts vs
extract_items (obj payload) = items_in ("Items" ∷ "items" ∷ "value" ∷ "data" ∷ []) payload
extract_items _ = []

-- `value is not None`.
abbrev pub is_null : Value → Bool
is_null null = true
is_null _ = false

-- `_first`.
unfoldable pub first : List String → String → Fields → String
unfolding str get
first [] fallback item = fallback
first (key ∷ key_names) fallback item =
    let rest = first key_names fallback item in
    let value = get key item in
    if not (is_null value) && not (str value == "") then str value else rest

-- The name decides where the type says nothing.
type_of_name : String → String
unfolding contains
type_of_name name_hint =
    if contains name_hint "DAST"
    then "DAST"
    else if contains name_hint "SAST"
    then "SAST"
    else if contains name_hint "SCA"
    then "SCA"
    else if contains name_hint "IAST"
    then "IAST"
    else "OTHER"

-- The loop over the four known types that ends the source's function comes after tests of the same
-- text for the same four, so it never finds one.
unfoldable pub normalize_scan_type : Fields → String
unfolding type_of_name first contains
normalize_scan_type item =
    let raw =
      first
        ("ScanType" ∷ "Type" ∷ "Technology" ∷ "scanType" ∷ "type" ∷ "ScanTechnology" ∷ "TestType"
          ∷ [])
        "Unknown" item in
    let value = upper (strip raw) in
    if contains value "DYNAMIC" || contains value "DAST"
    then "DAST"
    else if contains value "STATIC" || contains value "SAST"
    then "SAST"
    else if contains value "SCA"
    then "SCA"
    else if contains value "IAST"
    then "IAST"
    else type_of_name (upper (text_at "Name" item))

latest_text : List String → Value → String
unfolding first
latest_text key_names (obj latest) = first key_names "" latest
latest_text key_names _ = ""

status_of_text : String → String
unfolding member
status_of_text value =
    if member value ("completed" ∷ "complete" ∷ "finished" ∷ "done" ∷ [])
    then "completed"
    else if member value ("ready" ∷ "finishedwithwarning" ∷ "readywithissues" ∷ [])
    then "completed"
    else if member value ("failed" ∷ "error" ∷ "aborted" ∷ "canceled" ∷ "cancelled" ∷ [])
    then "failed"
    else if member value ("running" ∷ "inprogress" ∷ "in progress" ∷ [])
    then "running"
    else if member value ("pending" ∷ "queued" ∷ "scheduled" ∷ [])
    then "pending"
    else if value == ""
    then "unknown"
    else value

unfoldable pub normalize_scan_status : Fields → String
unfolding status_of_text latest_text first
normalize_scan_status item =
    let latest_status =
      latest_text ("Status" ∷ "ExecutionStatusType" ∷ "StatusType" ∷ "State" ∷ [])
        (get "LatestExecution" item) in
    status_of_text (
      lower (
        strip (
          first ("Status" ∷ "status" ∷ "ExecutionStatus" ∷ "State" ∷ [])
            (if latest_status == "" then "Unknown" else latest_status) item)))

severity_of_text : String → String
unfolding member
severity_of_text level =
    if member level ("critical" ∷ "4" ∷ "sev4" ∷ "sev-4" ∷ "veryhigh" ∷ [])
    then "critical"
    else if member level ("high" ∷ "3" ∷ "sev3" ∷ "sev-3" ∷ [])
    then "high"
    else if member level ("medium" ∷ "moderate" ∷ "2" ∷ "sev2" ∷ "sev-2" ∷ [])
    then "medium"
    else if member level ("low" ∷ "1" ∷ "sev1" ∷ "sev-1" ∷ "info" ∷ "informational" ∷ "0" ∷ [])
    then "low"
    else "unknown"

unfoldable pub normalize_severity : Value → String
unfolding severity_of_text or_text
normalize_severity value = severity_of_text (lower (strip (or_text "" value)))

abbrev severity_keys : List String
severity_keys =
    "Severity" ∷ "RiskLevel" ∷ "Risk" ∷ "MaxSeverity" ∷ "HighestSeverity" ∷ "IssueSeverity" ∷ []

unfoldable pub extract_native_scan_severity : Fields → String
unfolding normalize_severity latest_text first
extract_native_scan_severity item =
    normalize_severity (
      Value.text
        (first severity_keys (latest_text severity_keys (get "LatestExecution" item)) item))

unfoldable pub is_active_issue : Fields → Bool
unfolding text_at member
is_active_issue item =
    not (member (lower (strip (text_at "status" item))) ("closed" ∷ "fixed" ∷ "resolved" ∷ []))

technology_of_text : String → String
unfolding contains
technology_of_text raw =
    if raw == ""
    then "UNKNOWN"
    else if contains raw "DAST" || contains raw "DYNAMIC"
    then "DAST"
    else if contains raw "SAST" || contains raw "STATIC"
    then "SAST"
    else if contains raw "SCA"
    then "SCA"
    else if contains raw "IAST"
    then "IAST"
    else "UNKNOWN"

unfoldable pub normalize_issue_technology : Value → String
unfolding technology_of_text or_text
normalize_issue_technology value = technology_of_text (upper (strip (or_text "" value)))
