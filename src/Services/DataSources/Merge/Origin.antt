-- ===== src/Services/DataSources/Merge/Origin.antt =====
-- That the merged lists of backend/app/services/multi_endpoint.py say where each item is from.
use app_scan_custom_dashboar.Base.{
  String, if◌then◌else◌, ◌==◌, none, ◌++◌, Option, some, List, [], ◌∷◌, map, ◌≡◌, refl, false, keep,
}
use app_scan_custom_dashboar.Config.{Endpoint}
use app_scan_custom_dashboar.Errors.{ok}
use app_scan_custom_dashboar.Json.{
  Value, Fields, elements, null, bool, int, float, text, arr, obj, put, find, find-put,
}
use app_scan_custom_dashboar.Store.Exec.{World, pure, ◌>>=◌}
use app_scan_custom_dashboar.Store.DataSources.{listed}
use app_scan_custom_dashboar.Services.DataSources.{Source, or_env, load_sources}
use app_scan_custom_dashboar.Services.DataSources.Chosen.{is_chosen, load_sources-keep}
use app_scan_custom_dashboar.Services.DataSources.Merge.{tag, fetch_one, merge, aggregate_list}

-- What is merged of one answered value: a dict as it was, but with the id and the label of the source
-- under its two keys; any other value unchanged.
abbrev pub IsCopy : Source → Value → Value → Type 0
IsCopy ds (obj item) v =
    (copy : Fields) × (v ≡ obj copy)
    × ((key : String)
        → find key copy ≡ (
            if "_data_source_label" == key
            then some (text ds.label)
            else if "_data_source_id" == key
            then some (text ds.id)
            else find key item))
IsCopy ds (item) v = v ≡ item

abbrev pub Copies : Source → List Value → List Value → Type 0
Copies ds [] vs = vs ≡ []
Copies ds (item ∷ items) vs =
    (v : Value) × (rest : List Value) × (vs ≡ v ∷ rest) × IsCopy ds item v × Copies ds items rest

-- A list is answered; an exception and anything else count for none.
abbrev pub answered : Option Value → List Value
answered (some (arr items)) = elements items
answered (_) = []

-- One stretch for each source, in their order, with the copies of what that source answered.
abbrev pub IsMerge : (Source → Option Value) → List Source → List Value → Type 0
IsMerge answer [] merged = merged ≡ []
IsMerge answer (ds ∷ sources) merged =
    (block : List Value) × (rest : List Value) × (merged ≡ block ++ rest)
    × Copies ds (answered (answer ds)) block
    × IsMerge answer sources rest

tag-IsCopy : (ds : Source) (v : Value) → IsCopy ds v (tag ds v)
unfolding tag
tag-IsCopy ds null = refl
tag-IsCopy ds (bool b) = refl
tag-IsCopy ds (int i) = refl
tag-IsCopy ds (float t) = refl
tag-IsCopy ds (text t) = refl
tag-IsCopy ds (arr items) = refl
tag-IsCopy ds (obj item) =
    let with_id = put "_data_source_id" (text ds.id) item in
    (
      put "_data_source_label" (text ds.label) with_id,
      refl,
      λ key.
          rw
            (
              find-put "_data_source_label" key (text ds.label) with_id,
              find-put "_data_source_id" key (text ds.id) item,
            )
            refl,
    )

tags-Copies : (ds : Source) (vs : List Value) → Copies ds vs (map (tag ds) vs)
tags-Copies ds [] = refl
tags-Copies ds (v ∷ vs) = (tag ds v, map (tag ds) vs, refl, tag-IsCopy ds v, tags-Copies ds vs)

fetch_one-answered : (o : Option Value) → fetch_one o ≡ answered o
unfolding fetch_one
fetch_one-answered none = refl
fetch_one-answered (some null) = refl
fetch_one-answered (some (bool b)) = refl
fetch_one-answered (some (int i)) = refl
fetch_one-answered (some (float t)) = refl
fetch_one-answered (some (text t)) = refl
fetch_one-answered (some (arr items)) = refl
fetch_one-answered (some (obj item)) = refl

module _ (answer : Source → Option Value) where
  merge-IsMerge : (sources : List Source) → IsMerge answer sources (merge answer sources)
  unfolding merge
  merge-IsMerge [] = refl
  merge-IsMerge (ds ∷ sources) = (
    map (tag ds) (fetch_one (answer ds)),
    merge answer sources,
    refl,
    rw (fetch_one-answered (answer ds)) (tags-Copies ds (answered (answer ds))),
    merge-IsMerge sources,
  )

  -- Whichever sources fail, the list is answered and nothing is written. It is, for each source that the
  -- request may read, in their order, what that source answered, item by item: a dict with its own
  -- fields and the id and the label of that source, any other value unchanged. A source that fails or
  -- answers no list adds nothing.
  pub aggregate_list-IsMerge :
      (eps : List Endpoint) (ids : List String) (w : World)
      → (sources : List Source) × (merged : List Value) × (load_sources eps ids w ≡ (ok sources, w))
        × (aggregate_list answer eps ids w ≡ (ok merged, w))
        × IsMerge answer sources merged
  unfolding aggregate_list ◌>>=◌ pure
  aggregate_list-IsMerge eps ids w =
      let sources = keep (is_chosen ids) (or_env eps (listed false w.db.data_sources)) in
      (
        sources,
        merge answer sources,
        load_sources-keep eps ids w,
        rw (load_sources-keep eps ids w) refl,
        merge-IsMerge sources,
      )
