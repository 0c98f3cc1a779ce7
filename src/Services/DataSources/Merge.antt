-- ===== src/Services/DataSources/Merge.antt =====
-- `aggregate_list` and `aggregate_tenant_info` of backend/app/services/multi_endpoint.py. What a call of
-- a source's service answers is a parameter: none is an exception.
pub mod Origin
use app_scan_custom_dashboar.Base.{
  ℕ, ◌+◌, String, Option, none, some, List, [], ◌∷◌, ◌++◌, map, Mem, All, ◌≡◌, refl, ◌∙◌, ap,
  sum_of, length, length-append, All-append, arith, false, ◌⊎◌, inl, inr,
}
use mathlib.Core.List.{mem-cons, mem-cons_of_mem}
use mathlib.Core.Logic.Or
use app_scan_custom_dashboar.Config.{Endpoint}
use app_scan_custom_dashboar.Errors.{Result, ok, err}
use app_scan_custom_dashboar.Json.{
  Value, Fields, Items, null, bool, int, float, text, arr, obj, end, put, find, find-put, elements,
}
use app_scan_custom_dashboar.Store.Exec.{World, Exec, pure, ◌>>=◌}
use app_scan_custom_dashboar.Store.DataSources.{listed}
use app_scan_custom_dashboar.Services.DataSources.{Source, load_sources, or_env}
use app_scan_custom_dashboar.Services.DataSources.Chosen.{is_chosen, load_sources-keep}

-- A dict names the source that it is from.
unfoldable pub tag : Source → Value → Value
unfolding put
tag ds (obj item) =
    obj (put "_data_source_label" (text ds.label) (put "_data_source_id" (text ds.id) item))
tag ds (v) = v

-- `_fetch_one`, and nothing for an exception.
unfoldable pub fetch_one : Option Value → List Value
fetch_one (some (arr items)) = elements items
fetch_one (_) = []

module _ (answer : Source → Option Value) where
  unfoldable pub merge : List Source → List Value
  unfolding tag fetch_one
  merge [] = []
  merge (ds ∷ sources) = map (tag ds) (fetch_one (answer ds)) ++ merge sources

  unfoldable pub aggregate_list : List Endpoint → List String → Exec (List Value)
  unfolding merge
  aggregate_list eps data_source_ids = do
    sources ← load_sources eps data_source_ids
    pure (merge sources)

  -- The first answer that is a dict.
  first_dict : List Source → Fields
  first_dict [] = end
  first_dict (ds ∷ sources) =
      let rest = first_dict sources in
      elim (answer ds) [ none ↦ rest | some v ↦ elim v [ obj result ↦ result | _ ↦ rest ] ]

  unfoldable pub aggregate_tenant_info : List Endpoint → List String → Exec Fields
  unfolding first_dict
  aggregate_tenant_info eps data_source_ids = do
    sources ← load_sources eps data_source_ids
    pure (first_dict sources)
