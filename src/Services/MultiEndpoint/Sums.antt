-- ===== src/Services/MultiEndpoint/Sums.antt =====
-- That the heat map of backend/app/services/multi_endpoint.py is a sum over the services.
use app_scan_custom_dashboar.Base.{
  ℕ, ◌+◌, String, true, ◌&&◌, List, [], ◌∷◌, ◌≡◌, refl, map, ◌==◌, eq_iff, eq_refl, if◌then◌else◌,
  lower, Dict, lookup, lookup_or, insert, lookup_or-insert, sum_of, sum_of-append, one_of_four,
  Bool-cases, inl, inr, arith, member,
}
use app_scan_custom_dashboar.Services.MultiEndpoint.{
  Service, Cell, or_zero, severity_names, technology_names, cells_of_severity, cells_of_service,
  all_cells, add_cell, add_cells, zero_row, zero_cells, aggregate_risk_heatmap,
}

-- What a cell adds to the count under a severity and a technology.
cell_count : String → String → Cell → ℕ
cell_count s t c = if c.severity == s && lower c.technology == t then c.count else 0

at_cell : String → String → Dict (Dict ℕ) → ℕ
at_cell s t cells = lookup_or t 0 (lookup_or s [] cells)

added :
    (k s t : String) (c : Cell) (cells : Dict (Dict ℕ))
    → c.severity == s ≡ true
    → (if k == t
        then lookup_or k 0 (lookup_or c.severity [] cells) + c.count
        else lookup_or t 0 (lookup_or c.severity [] cells))
      ≡ (if k == t then c.count else 0) + lookup_or t 0 (lookup_or s [] cells)
added k s t c cells same = rw ((eq_iff c.severity s).0 same) (elim (Bool-cases (k == t)) [
  | inl hit ↦ rw ((eq_iff k t).0 hit, eq_refl t) (omega arith)
  | inr miss ↦ rw miss (omega arith)
])

at_cell-add_cell :
    (s t : String) (c : Cell) (cells : Dict (Dict ℕ))
    → at_cell s t (add_cell c cells) ≡ cell_count s t c + at_cell s t cells
unfolding at_cell add_cell cell_count
at_cell-add_cell s t c cells =
    let row = lookup_or c.severity [] cells in
    let n = lookup_or (lower c.technology) 0 row in
    elim (Bool-cases (c.severity == s)) [
      | inr apart ↦
          rw
            (
              lookup_or-insert c.severity s (insert (lower c.technology) (n + c.count) row) []
                  cells,
              apart,
            )
            (omega arith)
      | inl same ↦
          rw
            (
              lookup_or-insert c.severity s (insert (lower c.technology) (n + c.count) row) []
                  cells,
              same,
              lookup_or-insert (lower c.technology) t (n + c.count) 0 row,
            )
            (added (lower c.technology) s t c cells same)
    ]

at_cell-add_cells :
    (s t : String) (cs : List Cell) (cells : Dict (Dict ℕ))
    → at_cell s t (add_cells cs cells) ≡ sum_of (cell_count s t) cs + at_cell s t cells
unfolding add_cells sum_of
at_cell-add_cells s t [] cells = omega arith
at_cell-add_cells s t (c ∷ cs) cells =
    omega (arith, at_cell-add_cells s t cs (add_cell c cells), at_cell-add_cell s t c cells)

-- The cells of one service under a severity and a technology.
OneCell : Service → String → String → Type 0
OneCell svc s t =
    sum_of (cell_count s (lower t)) (cells_of_service svc severity_names)
    ≡ or_zero (svc.count_cell s t)

row-OneCell :
    (svc : Service) (s : String)
    → OneCell svc s "SAST"
    → OneCell svc s "DAST"
    → OneCell svc s "SCA"
    → OneCell svc s "IAST"
    → (t : String) → member t technology_names ≡ true
    → OneCell svc s t
row-OneCell svc s sast dast sca iast t h =
    one_of_four (OneCell svc s) "SAST" "DAST" "SCA" "IAST" t h sast dast sca iast

one_service :
    (svc : Service) (s t : String)
    → member s severity_names ≡ true
    → member t technology_names ≡ true
    → OneCell svc s t
unfolding OneCell cells_of_service cells_of_severity cell_count sum_of lower
one_service svc s t hs ht =
    one_of_four (λ x. OneCell svc x t) "Critical" "High" "Medium" "Low" s hs
      (row-OneCell svc "Critical" (omega arith) (omega arith) (omega arith) (omega arith) t ht)
      (row-OneCell svc "High" (omega arith) (omega arith) (omega arith) (omega arith) t ht)
      (row-OneCell svc "Medium" (omega arith) (omega arith) (omega arith) (omega arith) t ht)
      (row-OneCell svc "Low" (omega arith) (omega arith) (omega arith) (omega arith) t ht)

unfoldable pub cell_total : List Service → String → String → ℕ
unfolding sum_of
cell_total services s t = sum_of (λ (svc : Service). or_zero (svc.count_cell s t)) services

all_cells-sum :
    (services : List Service) (s t : String)
    → member s severity_names ≡ true
    → member t technology_names ≡ true
    → sum_of (cell_count s (lower t)) (all_cells services) ≡ cell_total services s t
unfolding all_cells cell_total sum_of OneCell
all_cells-sum [] s t hs ht = refl
all_cells-sum (svc ∷ services) s t hs ht = omega (
  arith,
  sum_of-append (cell_count s (lower t)) (cells_of_service svc severity_names) (all_cells services),
  one_service svc s t hs ht,
  all_cells-sum services s t hs ht,
)

NoCount : String → String → Type 0
NoCount s t = at_cell s (lower t) zero_cells ≡ 0

zero_cells-NoCount :
    (s t : String) → member s severity_names ≡ true → member t technology_names ≡ true → NoCount s t
unfolding NoCount at_cell zero_cells zero_row lookup_or lookup lower
zero_cells-NoCount s t hs ht =
    one_of_four (λ x. NoCount x t) "Critical" "High" "Medium" "Low" s hs
      (one_of_four (NoCount "Critical") "SAST" "DAST" "SCA" "IAST" t ht refl refl refl refl)
      (one_of_four (NoCount "High") "SAST" "DAST" "SCA" "IAST" t ht refl refl refl refl)
      (one_of_four (NoCount "Medium") "SAST" "DAST" "SCA" "IAST" t ht refl refl refl refl)
      (one_of_four (NoCount "Low") "SAST" "DAST" "SCA" "IAST" t ht refl refl refl refl)

cells-total :
    (services : List Service) (s t : String)
    → member s severity_names ≡ true
    → member t technology_names ≡ true
    → at_cell s (lower t) (add_cells (all_cells services) zero_cells) ≡ cell_total services s t
unfolding NoCount
cells-total services s t hs ht = omega (
  arith,
  at_cell-add_cells s (lower t) (all_cells services) zero_cells,
  all_cells-sum services s t hs ht,
  zero_cells-NoCount s t hs ht,
)

matrix_row :
    (f : String → Dict ℕ) (s : String)
    → member s severity_names ≡ true
    → lookup_or s [] (map (λ x. (x, f x)) severity_names) ≡ f s
unfolding lookup_or lookup
matrix_row f s h =
    one_of_four (λ x. lookup_or x [] (map (λ y. (y, f y)) severity_names) ≡ f x) "Critical" "High"
      "Medium" "Low" s h refl refl refl refl

total_entry :
    (f : String → ℕ) (t : String)
    → member t technology_names ≡ true
    → lookup_or (lower t) 0 (map (λ x. (lower x, f x)) technology_names) ≡ f t
unfolding lookup_or lookup lower
total_entry f t h =
    one_of_four (λ x. lookup_or (lower x) 0 (map (λ y. (lower y, f y)) technology_names) ≡ f x)
      "SAST" "DAST" "SCA" "IAST" t h refl refl refl refl

column :
    (services : List Service) (t : String)
    → member t technology_names ≡ true
    → sum_of
        (λ x. lookup_or (lower t) 0 (lookup_or x [] (add_cells (all_cells services) zero_cells)))
        severity_names
      ≡ sum_of (λ x. cell_total services x t) severity_names
unfolding sum_of at_cell member
column services t ht = omega (
  arith,
  cells-total services "Critical" t refl ht,
  cells-total services "High" t refl ht,
  cells-total services "Medium" t refl ht,
  cells-total services "Low" t refl ht,
)

-- Each cell of the heat map is the sum, over the services, of what they count under its severity and its
-- technology, where a call that fails counts nothing, and each total is the sum of its column.
pub aggregate_risk_heatmap-sums :
    (services : List Service) (s t : String)
    → member s severity_names ≡ true
    → member t technology_names ≡ true
    → (lookup_or (lower t) 0 (lookup_or s [] (aggregate_risk_heatmap services).matrix)
        ≡ cell_total services s t)
      × (lookup_or (lower t) 0 (aggregate_risk_heatmap services).totals
          ≡ sum_of (λ x. cell_total services x t) severity_names)
unfolding aggregate_risk_heatmap
aggregate_risk_heatmap-sums services s t hs ht =
    let cells = add_cells (all_cells services) zero_cells in
    (
      rw (matrix_row (λ x. lookup_or x [] cells) s hs)
          (unfold at_cell in cells-total services s t hs ht),
      rw
          (total_entry
            (λ x. sum_of (λ y. lookup_or (lower x) 0 (lookup_or y [] cells)) severity_names) t ht)
          (column services t ht),
    )
