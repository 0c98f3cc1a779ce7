-- ===== src/Services/IssueCounts.antt =====
-- `aggregate_issue_counts` of backend/app/services/multi_endpoint.py: the issue counts of several data
-- sources. Counts are natural numbers.
pub mod Sums
use app_scan_custom_dashboar.Base.{
  ℕ, ◌+◌, String, Bool, true, false, Option, none, some, List, [], ◌∷◌, Dict, lookup, lookup_or,
  insert,
}

-- A value of a result: a number, or something that is no `int`.
pub data CountValue : Type 0 where
  number : ℕ → CountValue
  other : CountValue

-- What `gather` gives for one source: an exception, something that is no dict, or a dict.
pub data SourceResult : Type 0 where
  failed : SourceResult
  no_dict : SourceResult
  counts : List (String × CountValue) → SourceResult

unfoldable pub expected_keys : List String
expected_keys =
    "total" ∷ "active" ∷ "resolved" ∷ "critical" ∷ "high" ∷ "medium" ∷ "low" ∷ "sast" ∷ "dast"
    ∷ "sca" ∷ "iast" ∷ []

-- `merged[key] = merged.get(key, 0) + value`.
add_entries : List (String × CountValue) → Dict ℕ → Dict ℕ
add_entries [] merged = merged
add_entries ((key, number value) ∷ rest) merged =
    add_entries rest (insert key (lookup_or key 0 merged + value) merged)
add_entries ((key, other) ∷ rest) merged = add_entries rest merged

add_results : List SourceResult → Dict ℕ → Dict ℕ
unfolding add_entries
add_results [] merged = merged
add_results (failed ∷ rest) merged = add_results rest merged
add_results (no_dict ∷ rest) merged = add_results rest merged
add_results (counts entries ∷ rest) merged = add_results rest (add_entries entries merged)

-- `merged.setdefault(key, 0)`.
default_entry : String → Dict ℕ → Option ℕ → Dict ℕ
default_entry key merged none = insert key 0 merged
default_entry key merged (some n) = merged

default_entries : List String → Dict ℕ → Dict ℕ
unfolding default_entry
default_entries [] merged = merged
default_entries (key ∷ key_names) merged =
    default_entries key_names (default_entry key merged (lookup key merged))

-- With no source the answer is the dict of zeros.
unfoldable pub aggregate_issue_counts : List SourceResult → Dict ℕ
unfolding add_results default_entries
aggregate_issue_counts [] = default_entries expected_keys []
aggregate_issue_counts (result ∷ results) =
    default_entries expected_keys (add_results (result ∷ results) [])
