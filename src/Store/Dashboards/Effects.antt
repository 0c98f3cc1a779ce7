-- ===== src/Store/Dashboards/Effects.antt =====
-- How the dashboard operations of backend/app/repositories/postgres_store.py treat the audit log.
use app_scan_custom_dashboar.Base.{
  ℕ, String, refl, ap, Option, List, Bool-cases, inl, inr, Option-cases,
}
use app_scan_custom_dashboar.Json.{Fields}
use app_scan_custom_dashboar.Errors.{require}
use app_scan_custom_dashboar.Store.Table.{insert_row, has_row, find_row, delete_rows-missing}
use app_scan_custom_dashboar.Store.Exec.{
  Dashboard, DashboardVersion, Database, gets, write_new, utc_now, or_raise, lift, ◌>>=◌,
}
use app_scan_custom_dashboar.Store.Exec.Accounts.{
  Careful, Silent, SameAudit, Silent-bind, Silent-utc_now, Silent-gets, Silent-write_new,
  Silent-pure,
}
use app_scan_custom_dashboar.Store.Dashboards.{
  dashboard_key, version_key, insert_dashboard, insert_version, create_dashboard,
  append_dashboard_version, next_dashboard_version, update_found, update_dashboard, get_dashboard,
  set_dashboard, delete_dashboard, remove_dashboard,
}

insert_dashboard-SameAudit : (d : Dashboard) (db : Database) → SameAudit db (insert_dashboard d db)
unfolding insert_dashboard insert_row
insert_dashboard-SameAudit d db = elim (Bool-cases (has_row dashboard_key d.id db.dashboards)) [
  | inl taken ↦ rw (taken, SameAudit) tt
  | inr free ↦ rw (free, SameAudit) refl
]

insert_version-SameAudit :
    (v : DashboardVersion) (db : Database) → SameAudit db (insert_version v db)
unfolding insert_version insert_row
insert_version-SameAudit v db = elim (Bool-cases (has_row version_key v.id db.dashboard_versions)) [
  | inl taken ↦ rw (taken, SameAudit) tt
  | inr free ↦ rw (free, SameAudit) refl
]

module _ (clock : ℕ → String) where
  pub create_dashboard-Silent :
      (id name : String) (widgets : List Fields) (owner : String) (blueprint : Option Fields)
      → Silent (create_dashboard clock id name widgets owner blueprint)
  unfolding create_dashboard
  create_dashboard-Silent id name widgets owner blueprint =
      Silent-bind (utc_now clock) _ (Silent-utc_now clock) λ now.
        Silent-bind (write_new (insert_dashboard _)) _
          (Silent-write_new (insert_dashboard _) (insert_dashboard-SameAudit _))
          (λ _. Silent-pure _)

  pub append_dashboard_version-Silent :
      (version_id dashboard_id name : String) (widgets : List Fields) (owner change_note : String)
      → Silent
          (append_dashboard_version clock version_id dashboard_id name widgets owner change_note)
  unfolding append_dashboard_version next_dashboard_version
  append_dashboard_version-Silent version_id dashboard_id name widgets owner change_note =
      Silent-bind (utc_now clock) _ (Silent-utc_now clock) λ now.
        Silent-bind (gets _) _ (Silent-gets _) λ version.
          Silent-bind (write_new (insert_version _)) _
            (Silent-write_new (insert_version _) (insert_version-SameAudit _)) (λ _. Silent-pure _)

  -- A missing dashboard is a 404 before anything is written.
  pub update_or_404-Careful :
      (id : String) (name : Option String) (widgets : Option (List Fields))
      (blueprint : Option Fields) (detail : String)
      → Careful (update_dashboard clock id name widgets blueprint >>= or_raise 404 detail)
  unfolding update_dashboard get_dashboard ◌>>=◌ update_found set_dashboard utc_now
  update_or_404-Careful id name widgets blueprint detail = record {
    at = λ w. elim (Option-cases (find_row dashboard_key id w.db.dashboards)) [
      | inl missing ↦ rw missing refl
      | inr (d, found) ↦ rw found refl
    ];
  }

pub delete_or_404-Careful :
    (id detail : String)
    → Careful (delete_dashboard id >>= λ deleted. lift (require deleted 404 detail))
unfolding delete_dashboard remove_dashboard ◌>>=◌
delete_or_404-Careful id detail = record {
  at = λ w. elim (Bool-cases (has_row dashboard_key id w.db.dashboards)) [
    | inl there ↦ rw there refl
    | inr missing ↦ rw missing (
        ap (λ rows. record (w.db) { dashboards = rows })
          (delete_rows-missing dashboard_key id w.db.dashboards missing))
  ];
}
