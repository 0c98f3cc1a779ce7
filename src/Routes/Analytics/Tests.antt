-- ===== src/Routes/Analytics/Tests.antt =====
-- Requests of backend/app/api/v1/routes/analytics.py with some lists.
use app_scan_custom_dashboar.Base.{
  ◌≤◌, String, ◌≡◌, refl, none, some, List, [], ◌∷◌, map, length, arith, pos, lookup, upper, lower,
  strip, parse_int,
}
use app_scan_custom_dashboar.Json.{null, text, obj, end, field}
use app_scan_custom_dashboar.Security.Session.{UserContext}
use app_scan_custom_dashboar.Routes.Analytics.{
  LockTable, get_lock, is_text, is_technology, is_scan_type, is_scan_status, upper_form, lower_form,
  tokens, raw_values, normalize_id_list, normalize_issue_technology_list,
  normalize_vulnerability_list, normalize_scan_type_list, normalize_scan_status_list,
  resolve_scope_filters, coerce_counts_map,
}
use app_scan_custom_dashboar.Routes.Analytics.Lists.{IsNormal, lists-IsNormal}
use app_scan_custom_dashboar.Routes.Analytics.Locks.{get_locks, get_locks-bounds}
use app_scan_custom_dashboar.Routes.Analytics.Scope.{Verdict, resolve_scope_filters-Verdict}

abbrev given : List String
given = "a, b" ∷ "b,,SAST" ∷ []

ids : normalize_id_list given (some "sast") ≡ "sast" ∷ "a" ∷ "b" ∷ "SAST" ∷ []
unfolding normalize_id_list strip
ids = refl

technology_ids : normalize_issue_technology_list given (some "sast") ≡ "SAST" ∷ []
unfolding normalize_issue_technology_list upper strip
technology_ids = refl

lists-IsNormal_example :
    IsNormal is_text
      (tokens (raw_values given (some "sast")))
      (normalize_id_list given (some "sast"))
    × IsNormal is_technology
        (map upper_form (normalize_id_list given (some "sast")))
        (normalize_issue_technology_list given (some "sast"))
    × IsNormal is_text
        (map lower_form (normalize_id_list given (some "sast")))
        (normalize_vulnerability_list given (some "sast"))
    × IsNormal is_scan_type
        (map upper_form (normalize_id_list given (some "sast")))
        (normalize_scan_type_list given (some "sast"))
    × IsNormal is_scan_status
        (map lower_form (normalize_id_list given (some "sast")))
        (normalize_scan_status_list given (some "sast"))
lists-IsNormal_example = lists-IsNormal given (some "sast")

abbrev reader : UserContext
reader = record { subject = "joe"; role = "Developer"; asset_group_ids = "g1" ∷ [] }

resolve_scope_filters-Verdict_example :
    Verdict reader
      (normalize_id_list ("g1,g2" ∷ []) none)
      (normalize_id_list [] none)
      (resolve_scope_filters reader none ("g1,g2" ∷ []) none [])
resolve_scope_filters-Verdict_example =
    resolve_scope_filters-Verdict reader none ("g1,g2" ∷ []) none []

abbrev no_locks : LockTable
no_locks = record { locks = []; made = 0 }

get_locks-bounds_example :
    (length (get_locks 1 ("k" ∷ "j" ∷ []) no_locks).locks ≤ 1)
    × (get_lock 1 "k" (get_lock 1 "k" no_locks).0 ≡ get_lock 1 "k" no_locks)
get_locks-bounds_example =
    get_locks-bounds 1 ("k" ∷ "j" ∷ []) "k" no_locks (omega arith) (omega arith)

coerced :
    lookup "failed"
      (coerce_counts_map (λ t. pos 0) (obj (field "Failed" (text "7") (field "x" null end))))
    ≡ some (pos 7)
unfolding coerce_counts_map lookup lower strip parse_int
coerced = refl
