-- ===== src/Services/DataSources/Chosen.antt =====
-- Which data sources backend/app/services/multi_endpoint.py reads.
use app_scan_custom_dashboar.Base.{
  ◌<◌, if◌then◌else◌, length-sort, Option, some, none, any_of, sort, sort-perm, length, Bool-cases,
  inl, inr, String, Bool, true, false, ◌&&◌, List, [], ◌∷◌, ◌≡◌, refl, ap, sym, map, keep, member,
  take, All, eq_refl, arith,
}
use app_scan_custom_dashboar.Config.{Endpoint}
use app_scan_custom_dashboar.Errors.{ok}
use mathlib.Core.List.{Perm, filter_map}
use mathlib.Core.List.Perm
use app_scan_custom_dashboar.Store.Exec.{DataSource, World, gets, pure, ◌>>=◌}
use app_scan_custom_dashboar.Store.DataSources.{listed, by_label, list_data_sources}
use app_scan_custom_dashboar.Services.DataSources.{
  Source, source_of, env_sources, or_env, list_all, restrict, load_sources, max_data_source_ids,
}

-- Named by the request: in the first twenty of its ids, or anything if it has none.
abbrev pub is_chosen : List String → Source → Bool
is_chosen [] ds = true
is_chosen (i ∷ ids) ds = member ds.id (take max_data_source_ids (i ∷ ids))

Known : List Source → List String → Type 0
Known sources known = All (λ ds. member ds.id known ≡ true) sources

Known-later :
    (x : String) (sources : List Source) (known : List String)
    → Known sources known
    → Known sources (x ∷ known)
unfolding Known member
Known-later x [] known a = tt
Known-later x (ds ∷ sources) known a = (ground (arith, a.0), Known-later x sources known a.1)

ids-Known : (sources : List Source) → Known sources (map (λ s. s.id) sources)
unfolding Known member
ids-Known [] = tt
ids-Known (ds ∷ sources) = (
  rw (eq_refl ds.id) refl,
  Known-later ds.id sources (map (λ s. s.id) sources) (ids-Known sources),
)

keep-Known :
    (test : Source → Bool) (known : List String) (sources : List Source)
    → Known sources known
    → keep (λ ds. test ds && member ds.id known) sources ≡ keep test sources
unfolding keep Known
keep-Known test known [] a = refl
keep-Known test known (ds ∷ sources) a = ground (arith, a.0, keep-Known test known sources a.1)

keep_all : (sources : List Source) → keep (λ _. true) sources ≡ sources
unfolding keep
keep_all [] = refl
keep_all (ds ∷ sources) = ap (λ rest. ds ∷ rest) (keep_all sources)

restrict-keep :
    (ids : List String) (sources : List Source)
    → restrict ids sources ≡ keep (is_chosen ids) sources
unfolding restrict
restrict-keep [] sources = sym (keep_all sources)
restrict-keep (i ∷ ids) sources = keep-Known _ _ sources (ids-Known sources)

-- The choice, in the order of `list_all`.
pub load_sources-keep :
    (eps : List Endpoint) (ids : List String) (w : World)
    → load_sources eps ids w
      ≡ (ok (keep (is_chosen ids) (or_env eps (listed false w.db.data_sources))), w)
unfolding load_sources list_all list_data_sources gets pure ◌>>=◌
load_sources-keep eps ids w =
    ap (λ xs. (ok xs, w)) (restrict-keep ids (or_env eps (listed false w.db.data_sources)))

abbrev chosen_or_none : (Source → Bool) → Source → Option Source
chosen_or_none test s = if test s then some s else none

keep-filter_map :
    (test : Source → Bool) (xs : List Source) → keep test xs ≡ filter_map (chosen_or_none test) xs
unfolding keep filter_map
keep-filter_map test [] = refl
keep-filter_map test (x ∷ xs) = elim (Bool-cases (test x)) [
  | inl here ↦ rw here (ap (λ rest. x ∷ rest) (keep-filter_map test xs))
  | inr gone ↦ rw gone (keep-filter_map test xs)
]

keep-Perm :
    (test : Source → Bool) (xs ys : List Source) → Perm xs ys → Perm (keep test xs) (keep test ys)
keep-Perm test xs ys p =
    rw (keep-filter_map test xs, keep-filter_map test ys) (Perm.filter_map (chosen_or_none test) p)

-- Where a row is enabled, the sources are a rearrangement of what is chosen of the enabled rows; the
-- environment's endpoints otherwise.
abbrev pub ReadFrom : List Endpoint → List String → List DataSource → List Source → Type 0
ReadFrom eps ids rows sources =
    if any_of (λ (ds : DataSource). ds.enabled) rows
    then Perm sources
        (keep (is_chosen ids) (map source_of (keep (λ (ds : DataSource). ds.enabled) rows)))
    else sources ≡ keep (is_chosen ids) (env_sources 0 eps)

none_enabled :
    (rows : List DataSource)
    → any_of (λ (ds : DataSource). ds.enabled) rows ≡ false
    → listed false rows ≡ []
unfolding listed any_of keep sort
none_enabled rows off = ap (sort by_label) (no_row rows off)
  where
    no_row :
        (rows : List DataSource)
        → any_of (λ (ds : DataSource). ds.enabled) rows ≡ false
        → keep (λ (ds : DataSource). ds.enabled) rows ≡ []
    no_row [] off = refl
    no_row (r ∷ rows) off = ground (arith, no_row rows)

some_enabled :
    (rows : List DataSource)
    → any_of (λ (ds : DataSource). ds.enabled) rows ≡ true
    → 0 < length (keep (λ (ds : DataSource). ds.enabled) rows)
unfolding any_of keep
some_enabled [] on = cc
some_enabled (r ∷ rows) on = ground (arith, some_enabled rows)

pub or_env-rows :
    (eps : List Endpoint) (rows : List DataSource)
    → 0 < length rows
    → or_env eps rows ≡ map source_of rows
unfolding or_env
or_env-rows eps [] h = absurd (omega arith)
or_env-rows eps (r ∷ rows) h = refl

listed-Perm :
    (rows : List DataSource)
    → Perm (listed false rows) (keep (λ (ds : DataSource). ds.enabled) rows)
unfolding listed
listed-Perm rows = sort-perm by_label (keep (λ ds. ds.enabled) rows)

listed-positive :
    (rows : List DataSource)
    → any_of (λ (ds : DataSource). ds.enabled) rows ≡ true
    → 0 < length (listed false rows)
unfolding listed
listed-positive rows on = omega (
  arith,
  some_enabled rows on,
  length-sort by_label (keep (λ (ds : DataSource). ds.enabled) rows),
)

chosen-ReadFrom :
    (eps : List Endpoint) (ids : List String) (rows : List DataSource)
    → ReadFrom eps ids rows (keep (is_chosen ids) (or_env eps (listed false rows)))
chosen-ReadFrom eps ids rows = elim (Bool-cases (any_of (λ (ds : DataSource). ds.enabled) rows)) [
  | inl on ↦
      rw (on, or_env-rows eps (listed false rows) (listed-positive rows on))
        (keep-Perm (is_chosen ids) (map source_of (listed false rows))
          (map source_of (keep (λ (ds : DataSource). ds.enabled) rows))
          (Perm.map source_of (listed-Perm rows)))
  | inr off ↦ rw (off, none_enabled rows off) (unfold or_env in refl)
]

-- If a row is enabled, the sources that are read are, in some order, those of the enabled rows that the
-- request names among its first twenty ids, or all of them if it names none. If no row is enabled, even
-- where the table has rows, they are the endpoints of the environment, chosen in the same way. Nothing is
-- written.
pub load_sources-ReadFrom :
    (eps : List Endpoint) (ids : List String) (w : World)
    → (sources : List Source) × (load_sources eps ids w ≡ (ok sources, w))
      × ReadFrom eps ids w.db.data_sources sources
load_sources-ReadFrom eps ids w = (
  keep (is_chosen ids) (or_env eps (listed false w.db.data_sources)),
  load_sources-keep eps ids w,
  chosen-ReadFrom eps ids w.db.data_sources,
)
