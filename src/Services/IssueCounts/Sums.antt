-- ===== src/Services/IssueCounts/Sums.antt =====
-- What `aggregate_issue_counts` of backend/app/services/multi_endpoint.py answers under each key.
use app_scan_custom_dashboar.Base.{
  ℕ, ◌+◌, String, ◌≡◌, refl, sym, ◌∙◌, List, [], ◌∷◌, Dict, lookup, lookup_or, insert,
  lookup-insert, if◌then◌else◌, ◌==◌, eq_iff, arith, sum_of, sum_of-Perm, Option-cases, inl, inr,
}
use mathlib.Core.List.{Perm}
use app_scan_custom_dashboar.Services.IssueCounts.{
  CountValue, number, other, SourceResult, failed, no_dict, counts, expected_keys, add_entries,
  add_results, default_entry, default_entries, aggregate_issue_counts,
}

-- What one entry, and one source, say of a key.
unfoldable pub entry_count : String → String × CountValue → ℕ
entry_count k (key, number n) = if key == k then n else 0
entry_count k (key, other) = 0

unfoldable pub source_count : String → SourceResult → ℕ
source_count k failed = 0
source_count k no_dict = 0
source_count k (counts entries) = sum_of (entry_count k) entries

lookup_or-insert :
    (k key : String) (n : ℕ) (d : Dict ℕ)
    → lookup_or k 0 (insert key (lookup_or key 0 d + n) d)
      ≡ lookup_or k 0 d + (if key == k then n else 0)
unfolding lookup_or
lookup_or-insert k key n d =
    ground (arith, lookup-insert key k (lookup_or key 0 d + n) d, eq_iff key k)

lookup_or-add_entries :
    (k : String) (entries : List (String × CountValue)) (d : Dict ℕ)
    → lookup_or k 0 (add_entries entries d) ≡ lookup_or k 0 d + sum_of (entry_count k) entries
unfolding add_entries sum_of entry_count
lookup_or-add_entries k [] d = omega arith
lookup_or-add_entries k ((key, number n) ∷ rest) d = omega (
  arith,
  lookup_or-add_entries k rest (insert key (lookup_or key 0 d + n) d),
  lookup_or-insert k key n d,
)
lookup_or-add_entries k ((key, other) ∷ rest) d = omega (arith, lookup_or-add_entries k rest d)

lookup_or-add_results :
    (k : String) (results : List SourceResult) (d : Dict ℕ)
    → lookup_or k 0 (add_results results d) ≡ lookup_or k 0 d + sum_of (source_count k) results
unfolding add_results sum_of source_count
lookup_or-add_results k [] d = omega arith
lookup_or-add_results k (failed ∷ rest) d = omega (arith, lookup_or-add_results k rest d)
lookup_or-add_results k (no_dict ∷ rest) d = omega (arith, lookup_or-add_results k rest d)
lookup_or-add_results k (counts entries ∷ rest) d =
    omega (
      arith,
      lookup_or-add_results k rest (add_entries entries d),
      lookup_or-add_entries k entries d,
    )

lookup_or-default_entry :
    (k key : String) (d : Dict ℕ)
    → lookup_or k 0 (default_entry key d (lookup key d)) ≡ lookup_or k 0 d
unfolding default_entry lookup_or
lookup_or-default_entry k key d = elim (Option-cases (lookup key d)) [
  | inl missing ↦ rw missing (ground (arith, lookup-insert key k 0 d, eq_iff key k))
  | inr (n, there) ↦ rw there refl
]

lookup_or-default_entries :
    (k : String) (key_names : List String) (d : Dict ℕ)
    → lookup_or k 0 (default_entries key_names d) ≡ lookup_or k 0 d
unfolding default_entries
lookup_or-default_entries k [] d = refl
lookup_or-default_entries k (key ∷ rest) d =
    lookup_or-default_entries k rest (default_entry key d (lookup key d))
    ∙ lookup_or-default_entry k key d

-- Under every key the answer is the sum, over the sources that answered with a dict, of the numbers
-- that they have under the key; a source that failed adds nothing.
pub aggregate_issue_counts-sum :
    (k : String) (results : List SourceResult)
    → lookup_or k 0 (aggregate_issue_counts results) ≡ sum_of (source_count k) results
unfolding aggregate_issue_counts sum_of lookup_or
aggregate_issue_counts-sum k [] = lookup_or-default_entries k expected_keys []
aggregate_issue_counts-sum k (r ∷ rs) = omega (
  arith,
  lookup_or-default_entries k expected_keys (add_results (r ∷ rs) []),
  lookup_or-add_results k (r ∷ rs) [],
)

-- The order in which the sources answer does not matter.
pub aggregate_issue_counts-order :
    (k : String) (results others : List SourceResult)
    → Perm results others
    → lookup_or k 0 (aggregate_issue_counts results) ≡ lookup_or k 0 (aggregate_issue_counts others)
aggregate_issue_counts-order k results others same =
    aggregate_issue_counts-sum k results
    ∙ sum_of-Perm (source_count k) results others same
    ∙ sym (aggregate_issue_counts-sum k others)
