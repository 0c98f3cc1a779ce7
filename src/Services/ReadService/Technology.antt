-- ===== src/Services/ReadService/Technology.antt =====
-- Which technology an issue counts for: `_build_app_technology_maps` and `_resolve_issue_technology`
-- of backend/app/services/asoc_read_service.py. A set of texts is the list of them, each once.
pub mod Primary
use app_scan_custom_dashboar.Base.{
  ℕ, ◌+◌, String, Bool, true, false, not, ◌&&◌, ◌||◌, Option, none, some, List, [], ◌∷◌, ◌==◌, eqb,
  ltb, if◌then◌else◌, member, upper, Dict, lookup, lookup_or, insert, bump_key, keep, sort, text_le,
}
use app_scan_custom_dashboar.Json.{Value, Fields, text, str, get_or, text_or}
use app_scan_custom_dashboar.Services.ReadService.Normalize.{normalize_issue_technology}

abbrev pub technologies : List String
technologies = "DAST" ∷ "SAST" ∷ "SCA" ∷ "IAST" ∷ []

unfoldable pub app_of : Fields → String
unfolding text_or
app_of scan = text_or "application_id" "" scan

unfoldable pub type_of : Fields → String
unfolding text_or
type_of scan = upper (text_or "scan_type" "" scan)

-- The scans that the loop does not pass over.
unfoldable pub is_counted : Fields → Bool
unfolding app_of type_of member
is_counted scan = not (app_of scan == "") && member (type_of scan) technologies

-- `s.add(t)`.
add_text : String → List String → List String
unfolding member
add_text t ts = if member t ts then ts else t ∷ ts

record Maps : Type 0 where
  app_technology_map : Dict (List String)
  app_technology_counts : Dict (Dict ℕ)

-- One turn of the loop over the scans.
add_scan : Fields → Maps → Maps
unfolding is_counted add_text lookup_or insert bump_key
add_scan scan maps =
    if is_counted scan
    then (record {
      app_technology_map =
          insert (app_of scan)
            (add_text (type_of scan) (lookup_or (app_of scan) [] maps.app_technology_map))
            maps.app_technology_map;
      app_technology_counts =
          insert (app_of scan)
            (bump_key (type_of scan) (lookup_or (app_of scan) [] maps.app_technology_counts))
            maps.app_technology_counts;
    })
    else maps

scan_loop : List Fields → Maps → Maps
unfolding add_scan
scan_loop [] maps = maps
scan_loop (scan ∷ scans) maps = scan_loop scans (add_scan scan maps)

unfoldable pub priority : String → ℕ
priority t =
    if t == "DAST"
    then 4
    else if t == "SAST"
    then 3
    else if t == "SCA"
    then 2
    else if t == "IAST"
    then 1
    else 0

-- `sorted(…, key=(-count, -priority, name))`.
unfoldable pub before : String × ℕ → String × ℕ → Bool
unfolding priority
before (s, m) (t, n) =
    if eqb m n
    then (if eqb (priority s) (priority t) then text_le s t else ltb (priority t) (priority s))
    else ltb n m

winner : Dict ℕ → String
unfolding sort before
winner counts = elim (sort before counts) [ [] ↦ "" | e ∷ es ↦ e.0 ]

primaries : Dict (Dict ℕ) → Dict String
unfolding winner
primaries [] = []
primaries ((app_id, counts) ∷ rest) = (app_id, winner counts) ∷ primaries rest

unfoldable pub build_app_technology_maps : List Fields → Dict (List String) × Dict String
unfolding scan_loop primaries
build_app_technology_maps scans =
    let maps = scan_loop scans (record { app_technology_map = []; app_technology_counts = [] }) in
    (maps.app_technology_map, primaries maps.app_technology_counts)

resolved : List String → Option String → String
resolved (t ∷ []) primary = t
resolved ts none = "UNKNOWN"
resolved ts (some t) = t

unfoldable pub resolve_issue_technology : Fields → Dict (List String) → Dict String → String
unfolding normalize_issue_technology text_or lookup lookup_or keep member resolved
resolve_issue_technology issue app_technology_map app_primary_technology =
    let explicit = normalize_issue_technology (text (text_or "issue_technology" "" issue)) in
    let app_id = text_or "application_id" "" issue in
    if not (explicit == "UNKNOWN")
    then explicit
    else resolved (keep (λ t. member t technologies) (lookup_or app_id [] app_technology_map))
        (lookup app_id app_primary_technology)
