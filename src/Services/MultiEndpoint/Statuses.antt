-- ===== src/Services/MultiEndpoint/Statuses.antt =====
-- That the status distribution of backend/app/services/multi_endpoint.py is a sum over the services.
use app_scan_custom_dashboar.Base.{
  ℕ, ◌+◌, String, true, List, [], ◌∷◌, ◌≡◌, refl, map, ◌==◌, eq_iff, if◌then◌else◌, Dict, lookup,
  lookup_or, insert, lookup_or-insert, sum_of, sum_of-append, one_of_four, arith, member,
}
use app_scan_custom_dashboar.Services.MultiEndpoint.{
  Service, or_zero, status_names, statuses_of, all_statuses, add_statuses,
  aggregate_status_distribution,
}

status_count : String → String × ℕ → ℕ
status_count s (status, n) = if status == s then n else 0

lookup_or-add_statuses :
    (s : String) (xs : List (String × ℕ)) (totals : Dict ℕ)
    → lookup_or s 0 (add_statuses xs totals) ≡ sum_of (status_count s) xs + lookup_or s 0 totals
unfolding add_statuses sum_of status_count
lookup_or-add_statuses s [] totals = omega arith
lookup_or-add_statuses s ((status, n) ∷ rest) totals = ground (
  arith,
  lookup_or-add_statuses s rest (insert status (lookup_or status 0 totals + n) totals),
  lookup_or-insert status s (lookup_or status 0 totals + n) 0 totals,
  eq_iff status s,
)

unfoldable pub status_total : List Service → String → ℕ
unfolding sum_of
status_total services s = sum_of (λ (svc : Service). or_zero (svc.count_status s)) services

OneStatus : Service → String → Type 0
OneStatus svc s =
    sum_of (status_count s) (statuses_of svc status_names) ≡ or_zero (svc.count_status s)

one_status : (svc : Service) (s : String) → member s status_names ≡ true → OneStatus svc s
unfolding OneStatus statuses_of status_count sum_of
one_status svc s h =
    one_of_four (OneStatus svc) "Open" "Fixed" "InProgress" "Noise" s h (omega arith) (omega arith)
      (omega arith) (omega arith)

all_statuses-sum :
    (services : List Service) (s : String)
    → member s status_names ≡ true
    → sum_of (status_count s) (all_statuses services) ≡ status_total services s
unfolding all_statuses status_total sum_of OneStatus
all_statuses-sum [] s h = refl
all_statuses-sum (svc ∷ services) s h = omega (
  arith,
  sum_of-append (status_count s) (statuses_of svc status_names) (all_statuses services),
  one_status svc s h,
  all_statuses-sum services s h,
)

abbrev zero_statuses : Dict ℕ
zero_statuses = map (λ s. (s, 0)) status_names

status_entry :
    (services : List Service) (s : String)
    → member s status_names ≡ true
    → lookup_or s 0 zero_statuses ≡ 0
    → lookup_or s 0 (add_statuses (all_statuses services) zero_statuses) ≡ status_total services s
status_entry services s h fresh = omega (
  arith,
  lookup_or-add_statuses s (all_statuses services) zero_statuses,
  all_statuses-sum services s h,
)

-- The status distribution: the four statuses in their order, each with the sum of what the services
-- count, where a call that fails counts nothing.
pub aggregate_status_distribution-sums :
    (services : List Service)
    → aggregate_status_distribution services ≡ map (λ s. (s, status_total services s)) status_names
unfolding aggregate_status_distribution lookup_or lookup member
aggregate_status_distribution-sums services =
    rw
      (
        status_entry services "Open" refl refl,
        status_entry services "Fixed" refl refl,
        status_entry services "InProgress" refl refl,
        status_entry services "Noise" refl refl,
      )
      refl
