-- ===== src/Routes/Dashboard/Numbering.antt =====
-- The routes of backend/app/api/v1/routes/dashboard.py keep the version numbers of every dashboard.
use app_scan_custom_dashboar.Base.{ℕ, String, List, [], ◌∷◌}
use app_scan_custom_dashboar.Json.{Fields}
use app_scan_custom_dashboar.Security.Session.{UserContext}
use app_scan_custom_dashboar.Store.Exec.{AuditEvent, Database, World, Exec, ◌>>◌, pure}
use app_scan_custom_dashboar.Store.Exec.Keeps.{Keeps, keeps_rules}
use app_scan_custom_dashboar.Store.Audit.Event.{append_audit_event-Keeps}
use app_scan_custom_dashboar.Store.Dashboards as Rows
use app_scan_custom_dashboar.Store.Dashboards.Versions.{
  IsNumbered, create_dashboard-IsNumbered, append_dashboard_version-IsNumbered,
  update_dashboard-IsNumbered, delete_dashboard-IsNumbered,
}
use app_scan_custom_dashboar.Routes.Dashboard.{
  CreateRequest, UpdateRequest, audit, record_version, list_dashboards, create_dashboard,
  update_dashboard, delete_dashboard, list_dashboard_versions, rollback_dashboard_version,
}

-- A request to one of the routes.
pub data Request : Type 0 where
  list_all : Request
  create : CreateRequest → Request
  update : String → UpdateRequest → Request
  delete : String → Request
  versions : String → Request
  rollback : String → ℕ → Request

abbrev forget : {A : Type 0} → Exec A → Exec (Unit {0})
forget m = m >> pure tt

module _ (clock uuid : ℕ → String) where
  unfoldable pub serve : UserContext → Request → Exec (Unit {0})
  serve user list_all = forget (list_dashboards clock uuid user)
  serve user (create payload) = forget (create_dashboard clock uuid user payload)
  serve user (update id payload) = forget (update_dashboard clock uuid user id payload)
  serve user (delete id) = forget (delete_dashboard clock uuid user id)
  serve user (versions id) = forget (list_dashboard_versions clock uuid user id)
  serve user (rollback id version) = forget (rollback_dashboard_version clock uuid user id version)

  -- One request after the other, whatever each one answers.
  unfoldable pub serve_all : List (UserContext × Request) → World → World
  serve_all [] w = w
  serve_all ((user, request) ∷ rest) w = serve_all rest (serve user request w).1

  module _ (user : UserContext) where
    audit-IsNumbered :
        (action resource_id : String) (details : Fields)
        → Keeps IsNumbered (audit clock uuid user action resource_id details)
    unfolding audit
    audit-IsNumbered action resource_id details =
        search (keeps_rules, append_audit_event-Keeps IsNumbered clock, apart)
      where
        apart :
            (db : Database) (rows : List AuditEvent)
            → IsNumbered db
            → IsNumbered (record db { audit_events = rows })
        apart db rows h = record { at = h.at }

    record_version-IsNumbered :
        (id name : String) (widgets : List Fields) (owner note : String)
        → Keeps IsNumbered (record_version clock uuid user id name widgets owner note)
    unfolding record_version
    record_version-IsNumbered id name widgets owner note =
        search (keeps_rules, append_dashboard_version-IsNumbered clock)

    list_dashboards-IsNumbered : Keeps IsNumbered (list_dashboards clock uuid user)
    unfolding list_dashboards Rows.list_dashboards
    list_dashboards-IsNumbered = search keeps_rules

    create_dashboard_route-IsNumbered :
        (payload : CreateRequest) → Keeps IsNumbered (create_dashboard clock uuid user payload)
    unfolding create_dashboard
    create_dashboard_route-IsNumbered payload =
        search
          (
            keeps_rules,
            create_dashboard-IsNumbered clock,
            record_version-IsNumbered,
            audit-IsNumbered,
          )
          depth 20

    update_dashboard_route-IsNumbered :
        (id : String) (payload : UpdateRequest)
        → Keeps IsNumbered (update_dashboard clock uuid user id payload)
    unfolding update_dashboard Rows.get_dashboard
    update_dashboard_route-IsNumbered id payload =
        search
          (
            keeps_rules,
            update_dashboard-IsNumbered clock,
            record_version-IsNumbered,
            audit-IsNumbered,
          )
          depth 24

    delete_dashboard_route-IsNumbered :
        (id : String) → Keeps IsNumbered (delete_dashboard clock uuid user id)
    unfolding delete_dashboard
    delete_dashboard_route-IsNumbered id =
        search (keeps_rules, delete_dashboard-IsNumbered, audit-IsNumbered) depth 20

    list_dashboard_versions-IsNumbered :
        (id : String) → Keeps IsNumbered (list_dashboard_versions clock uuid user id)
    unfolding list_dashboard_versions Rows.get_dashboard Rows.list_dashboard_versions
    list_dashboard_versions-IsNumbered id = search keeps_rules depth 20

    rollback_dashboard_version-IsNumbered :
        (id : String) (version : ℕ)
        → Keeps IsNumbered (rollback_dashboard_version clock uuid user id version)
    unfolding rollback_dashboard_version Rows.get_dashboard Rows.get_dashboard_version
    rollback_dashboard_version-IsNumbered id version =
        search
          (
            keeps_rules,
            update_dashboard-IsNumbered clock,
            record_version-IsNumbered,
            audit-IsNumbered,
          )
          depth 30

    serve-IsNumbered : (request : Request) → Keeps IsNumbered (serve user request)
    unfolding serve
    serve-IsNumbered list_all = search (keeps_rules, list_dashboards-IsNumbered)
    serve-IsNumbered (create payload) = search (keeps_rules, create_dashboard_route-IsNumbered)
    serve-IsNumbered (update id payload) = search (keeps_rules, update_dashboard_route-IsNumbered)
    serve-IsNumbered (delete id) = search (keeps_rules, delete_dashboard_route-IsNumbered)
    serve-IsNumbered (versions id) = search (keeps_rules, list_dashboard_versions-IsNumbered)
    serve-IsNumbered (rollback id version) =
        search (keeps_rules, rollback_dashboard_version-IsNumbered)

  -- After any sequence of requests of any users, answered one after the other and whatever each one
  -- answers, the versions of every dashboard are numbered 1, 2, 3, … in the order of their insertion,
  -- if they were before.
  pub serve_all-IsNumbered :
      (requests : List (UserContext × Request)) (w : World)
      → IsNumbered w.db
      → IsNumbered (serve_all requests w).db
  unfolding serve_all
  serve_all-IsNumbered [] w h = h
  serve_all-IsNumbered ((user, request) ∷ rest) w h =
      serve_all-IsNumbered rest (serve user request w).1 ((serve-IsNumbered user request).at w h)
