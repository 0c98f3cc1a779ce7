-- ===== src/Store/DataSources/Spec.antt =====
-- What backend/app/repositories/data_source_store.py promises: a finite map from ids to data sources.
use app_scan_custom_dashboar.Base.{
  ℕ, ◌+◌, String, Bool, true, false, Option, none, some, List, [], ◌∷◌, keep, ◌==◌, if◌then◌else◌,
}
use app_scan_custom_dashboar.Store.Exec.{DataSource}
use app_scan_custom_dashboar.Errors.{Result, ok, err, integrity_error}
use app_scan_custom_dashboar.Store.DataSources.{new_row, Change, is_allowed, set_columns}

-- The calls, with their arguments.
pub data Call : Type 0 where
  create : String → String → String → String → Bool → Bool → Call
  update : String → List Change → Call
  delete : String → Call
  get : String → Call

pub data Reply : Type 0 where
  created : Result DataSource → Reply
  found : Result (Option DataSource) → Reply
  deleted : Result Bool → Reply

pub record Sources : Type 0 where
  pub at : String → Option DataSource
  pub drawn : ℕ
  pub ticks : ℕ

abbrev pub is_some : Option DataSource → Bool
is_some none = false
is_some (some ds) = true

abbrev pub applied : (DataSource → DataSource) → Option DataSource → Option DataSource
applied f none = none
applied f (some ds) = some (f ds)

abbrev pub put :
    String → Option DataSource → (String → Option DataSource) → String → Option DataSource
put k v m j = if k == j then v else m j

abbrev pub inserted : DataSource → Option DataSource → Sources → Reply × Sources
inserted ds none m = (created (ok ds), record m { at = put ds.id (some ds) m.at })
inserted ds (some old) m = (created (err integrity_error), m)

module _ (clock uuid : ℕ → String) where
  abbrev pub updated : String → List Change → Sources → Reply × Sources
  updated k [] m = (found (ok (m.at k)), m)
  updated k (c ∷ cs) m =
      let v = applied (set_columns (c ∷ cs) (clock m.ticks)) (m.at k) in
      (found (ok v), record m { at = put k v m.at; ticks = m.ticks + 1 })

  abbrev pub step : Call → Sources → Reply × Sources
  step (create label url key secret verify enabled) m =
      let ds = new_row (uuid m.drawn) (clock m.ticks) label url key secret verify enabled in
      inserted ds (m.at ds.id) (record m { drawn = m.drawn + 1; ticks = m.ticks + 1 })
  step (update k fields) m = updated k (keep is_allowed fields) m
  step (delete k) m = (deleted (ok (is_some (m.at k))), record m { at = put k none m.at })
  step (get k) m = (found (ok (m.at k)), m)

  unfoldable pub run : List Call → Sources → List Reply
  run [] m = []
  run (c ∷ cs) m = let (r, m') = step c m in r ∷ run cs m'
