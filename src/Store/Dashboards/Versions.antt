-- ===== src/Store/Dashboards/Versions.antt =====
-- The version numbers of each dashboard in backend/app/repositories/postgres_store.py.
use mathlib.Core.List.{append-nil}
use app_scan_custom_dashboar.Base.{
  ℕ, suc, ◌+◌, max, String, ◌≡◌, refl, ap, Bool, true, false, Option, none, some, List, [], ◌∷◌,
  ◌++◌, if◌then◌else◌, Bool-cases, inl, inr, arith, ◌==◌, eq_iff, length,
}
use app_scan_custom_dashboar.Json.{Fields}
use app_scan_custom_dashboar.Store.Table.{insert_row, has_row}
use app_scan_custom_dashboar.Store.Exec.{
  Dashboard, DashboardVersion, Database, write, utc_now, ◌>>=◌,
}
use app_scan_custom_dashboar.Store.Exec.Keeps.{
  Keeps, Keeps-write, Keeps-write_new, KeptBy, keeps_rules,
}
use app_scan_custom_dashboar.Store.Dashboards.{
  dashboard_key, version_key, max_version, insert_dashboard, create_dashboard,
  append_dashboard_version, next_dashboard_version, update_found, update_dashboard, get_dashboard,
  set_dashboard, delete_dashboard, remove_dashboard,
}

-- The version numbers of one dashboard, in the order of their insertion.
unfoldable pub numbers : String → List DashboardVersion → List ℕ
numbers id [] = []
numbers id (v ∷ vs) =
    let rest = numbers id vs in if v.dashboard_id == id then v.version ∷ rest else rest

abbrev pub CountsFrom : ℕ → List ℕ → Type 0
CountsFrom n [] = Unit
CountsFrom n (v ∷ vs) = (v ≡ n) × CountsFrom (suc n) vs

-- Every dashboard's versions are numbered 1, 2, 3, … with no gap and no number twice.
pub record IsNumbered (db : Database) : Type 0 where
  pub at : (id : String) → CountsFrom 1 (numbers id db.dashboard_versions)

greatest : List ℕ → ℕ
greatest [] = 0
greatest (v ∷ vs) = max v (greatest vs)

max_version-eq-greatest :
    (id : String) (vs : List DashboardVersion) → max_version id vs ≡ greatest (numbers id vs)
unfolding max_version greatest numbers
max_version-eq-greatest id [] = refl
max_version-eq-greatest id (v ∷ vs) = ground (arith, max_version-eq-greatest id vs)

greatest-CountsFrom :
    (n : ℕ) (vs : List ℕ) → CountsFrom (suc n) vs → max n (greatest vs) ≡ n + length vs
unfolding greatest
greatest-CountsFrom n [] h = omega arith
greatest-CountsFrom n (v ∷ vs) (first, rest) = omega (arith, greatest-CountsFrom (suc n) vs rest)

CountsFrom-append :
    (n : ℕ) (vs : List ℕ) → CountsFrom n vs → CountsFrom n (vs ++ ((n + length vs) ∷ []))
CountsFrom-append n [] h = (omega arith, tt)
CountsFrom-append n (v ∷ vs) (first, rest) = (first, rw (shift) (CountsFrom-append (suc n) vs rest))
  where
    shift : n + suc (length vs) ≡ suc n + length vs
    shift = omega arith

numbers-append :
    (id : String) (vs : List DashboardVersion) (v : DashboardVersion)
    → numbers id (vs ++ (v ∷ []))
      ≡ numbers id vs ++ (if v.dashboard_id == id then v.version ∷ [] else [])
unfolding numbers
numbers-append id [] v = refl
numbers-append id (u ∷ vs) v = ground (arith, numbers-append id vs v)

-- Appending the number after the greatest one keeps the numbering.
append-CountsFrom :
    (id : String) (vs : List DashboardVersion) (v : DashboardVersion)
    → ((j : String) → CountsFrom 1 (numbers j vs))
    → v.version ≡ max_version v.dashboard_id vs + 1
    → CountsFrom 1 (numbers id (vs ++ (v ∷ [])))
append-CountsFrom id vs v all next = rw (numbers-append id vs v) (split (v.dashboard_id == id) refl)
  where
    split :
        (b : Bool)
        → (v.dashboard_id == id) ≡ b
        → CountsFrom 1 (numbers id vs ++ (if b then v.version ∷ [] else []))
    split false other = rw append-nil (all id)
    split true same =
        let e : v.version ≡ 1 + length (numbers id vs) = omega (
          arith,
          next,
          ap (λ k. max_version k vs) ((eq_iff v.dashboard_id id).0 same),
          max_version-eq-greatest id vs,
          greatest-CountsFrom 0 (numbers id vs) (all id),
        ) in
        rw e (CountsFrom-append 1 (numbers id vs) (all id))

insert_dashboard-KeptBy :
    (d : Dashboard) (db : Database) → IsNumbered db → KeptBy IsNumbered (insert_dashboard d db)
unfolding insert_dashboard insert_row
insert_dashboard-KeptBy d db h = elim (Bool-cases (has_row dashboard_key d.id db.dashboards)) [
  | inl taken ↦ rw (taken, KeptBy) tt
  | inr free ↦ rw (free, KeptBy) (record { at = h.at })
]

set_dashboard-IsNumbered :
    (id : String) (f : Dashboard → Dashboard) → Keeps IsNumbered (write (set_dashboard id f))
unfolding set_dashboard
set_dashboard-IsNumbered id f = Keeps-write (set_dashboard id f) (λ db h. record { at = h.at })

remove_dashboard-IsNumbered : (id : String) → Keeps IsNumbered (write (remove_dashboard id))
unfolding remove_dashboard
remove_dashboard-IsNumbered id = Keeps-write (remove_dashboard id) (λ db h. record { at = h.at })

module _ (clock : ℕ → String) where
  pub create_dashboard-IsNumbered :
      (id name : String) (widgets : List Fields) (owner : String) (blueprint : Option Fields)
      → Keeps IsNumbered (create_dashboard clock id name widgets owner blueprint)
  unfolding create_dashboard
  create_dashboard-IsNumbered id name widgets owner blueprint =
      search (keeps_rules, Keeps-write_new, insert_dashboard-KeptBy)

  -- The number is read and the row is written with no other statement between.
  pub append_dashboard_version-IsNumbered :
      (version_id dashboard_id name : String) (widgets : List Fields) (owner change_note : String)
      → Keeps IsNumbered
          (append_dashboard_version clock version_id dashboard_id name widgets owner change_note)
  unfolding append_dashboard_version next_dashboard_version ◌>>=◌ utc_now insert_row has_row
  append_dashboard_version-IsNumbered version_id dashboard_id name widgets owner change_note =
      record {
        at = λ w h. elim (Bool-cases (has_row version_key version_id w.db.dashboard_versions)) [
          | inl taken ↦ rw taken h
          | inr free ↦
              rw free
                (record { at = λ id. append-CountsFrom id w.db.dashboard_versions _ h.at refl })
        ];
      }

  update_found-IsNumbered :
      (id : String) (name : Option String) (widgets : Option (List Fields))
      (blueprint : Option Fields) (o : Option Dashboard)
      → Keeps IsNumbered (update_found clock id name widgets blueprint o)
  unfolding update_found
  update_found-IsNumbered id name widgets blueprint none = search keeps_rules
  update_found-IsNumbered id name widgets blueprint (some d) =
      search (keeps_rules, set_dashboard-IsNumbered)

  pub update_dashboard-IsNumbered :
      (id : String) (name : Option String) (widgets : Option (List Fields))
      (blueprint : Option Fields)
      → Keeps IsNumbered (update_dashboard clock id name widgets blueprint)
  unfolding update_dashboard get_dashboard
  update_dashboard-IsNumbered id name widgets blueprint =
      search (keeps_rules, update_found-IsNumbered)

pub delete_dashboard-IsNumbered : (id : String) → Keeps IsNumbered (delete_dashboard id)
unfolding delete_dashboard
delete_dashboard-IsNumbered id = search (keeps_rules, remove_dashboard-IsNumbered)
