-- ===== src/Routes/Dashboard/Outcomes.antt =====
-- What the routes of backend/app/api/v1/routes/dashboard.py answer and leave in the tables.
use app_scan_custom_dashboar.Base.{
  ℕ, ◌+◌, String, ◌<>◌, ◌≡◌, refl, ◌∙◌, false, some, [], ◌∷◌, ◌++◌, decimal, text_take, first_where,
  ◌==◌, ◌&&◌, eqb, eq_refl,
}
use app_scan_custom_dashboar.Errors.{Exception, ok, err}
use app_scan_custom_dashboar.Security.Policy.{assert_action_allowed}
use app_scan_custom_dashboar.Security.Session.{UserContext}
use app_scan_custom_dashboar.Store.Table.{
  find_row, has_row, insert_row, find_row-update_found, find_row-append_new,
}
use app_scan_custom_dashboar.Store.Exec.{
  Dashboard, DashboardVersion, World, AuditEvent, ◌>>=◌, utc_now, uuid_hex,
}
use app_scan_custom_dashboar.Store.Audit.{append_audit_event}
use app_scan_custom_dashboar.Store.Dashboards as Rows
use app_scan_custom_dashboar.Routes.Dashboard.{
  CreateRequest, audit, record_version, list_dashboards, create_dashboard, update_dashboard,
  delete_dashboard, list_dashboard_versions, rollback_dashboard_version, blueprint_or_draft,
}
use app_scan_custom_dashboar.Routes.Dashboard.Numbering.{
  Request, list_all, create, update, delete, versions, rollback, serve,
}

-- The action of the policy that a route asks for.
unfoldable pub action_of : Request → String
action_of list_all = "view_dashboards"
action_of (create payload) = "create_dashboard"
action_of (update id payload) = "update_dashboard"
action_of (delete id) = "delete_dashboard"
action_of (versions id) = "view_dashboards"
action_of (rollback id version) = "create_dashboard"

module _ (clock uuid : ℕ → String) (user : UserContext) where
  -- A request whose action the policy refuses to the user's role is answered with the policy's error,
  -- whatever the tables hold and whatever it names: nothing is written, no id is drawn, and the clock is
  -- not read.
  pub serve-refused :
      (request : Request) (e : Exception) (w : World)
      → assert_action_allowed (action_of request) user.role ≡ err e
      → serve clock uuid user request w ≡ (err e, w)
  unfolding serve action_of list_dashboards create_dashboard update_dashboard delete_dashboard
      list_dashboard_versions rollback_dashboard_version ◌>>=◌
  serve-refused list_all e w refused = rw refused refl
  serve-refused (create payload) e w refused = rw refused refl
  serve-refused (update id payload) e w refused = rw refused refl
  serve-refused (delete id) e w refused = rw refused refl
  serve-refused (versions id) e w refused = rw refused refl
  serve-refused (rollback id version) e w refused = rw refused refl

  -- The dashboard after a rollback to the version `v`.
  unfoldable pub restored : Dashboard → DashboardVersion → World → Dashboard
  restored d v w = record d { name = v.name; widgets = v.widgets; updated_at = clock w.ticks }

  -- The version that a rollback writes.
  unfoldable pub rolled :
      (id : String) (version : ℕ) (d : Dashboard) → DashboardVersion → World → DashboardVersion
  unfolding restored
  rolled id version d v w = record {
    id = "dv-" <> text_take 10 (uuid w.drawn);
    dashboard_id = id;
    version = Rows.max_version id w.db.dashboard_versions + 1;
    name = v.name;
    widgets = v.widgets;
    owner = d.owner;
    change_note = "rollback to v" <> decimal version;
    created_at = clock (w.ticks + 1);
  }

  -- A rollback that the policy allows, of a dashboard and to a version that are there, with fresh ids:
  -- the answer is the dashboard with the name and the widgets of the version, its owner and blueprint
  -- as they were; the table then holds that answer under the id; and the versions are the old ones
  -- with one more behind them, numbered one above the greatest of the dashboard, with that content.
  pub rollback-restores :
      (id : String) (version : ℕ) (d : Dashboard) (v : DashboardVersion) (w : World)
      → assert_action_allowed "create_dashboard" user.role ≡ ok tt
      → find_row Rows.dashboard_key id w.db.dashboards ≡ some d
      → first_where
          (λ (r : DashboardVersion). r.dashboard_id == id && eqb r.version version)
          w.db.dashboard_versions
        ≡ some v
      → has_row Rows.version_key ("dv-" <> text_take 10 (uuid w.drawn)) w.db.dashboard_versions
        ≡ false
      → has_row
          (λ (r : AuditEvent). r.id)
          ("ae-" <> text_take 10 (uuid (w.drawn + 1)))
          w.db.audit_events
        ≡ false
      → let (r, w') = rollback_dashboard_version clock uuid user id version w in
        (r ≡ ok (restored d v w))
        × (find_row Rows.dashboard_key id w'.db.dashboards ≡ some (restored d v w))
        × (w'.db.dashboard_versions ≡ w.db.dashboard_versions ++ (rolled id version d v w ∷ []))
  unfolding rollback_dashboard_version ◌>>=◌ Rows.get_dashboard Rows.get_dashboard_version restored
      rolled Rows.update_dashboard Rows.append_dashboard_version Rows.next_dashboard_version
      record_version audit append_audit_event utc_now uuid_hex insert_row has_row
  rollback-restores id version d v w allowed found target fresh fresh_event = (
    rw (allowed, found, target, found, fresh, fresh_event) refl,
    rw (allowed, found, target, found, fresh, fresh_event)
        (find_row-update_found Rows.dashboard_key id _ w.db.dashboards d (λ x. refl) found),
    rw (allowed, found, target, found, fresh, fresh_event) refl,
  )

  -- The dashboard that a creation inserts.
  unfoldable pub created : CreateRequest → World → Dashboard
  created payload w = record {
    id = "d-" <> text_take 8 (uuid w.drawn);
    name = payload.name;
    widgets = payload.widgets;
    blueprint = blueprint_or_draft user payload.blueprint;
    owner = user.subject;
    created_at = clock w.ticks;
    updated_at = clock w.ticks;
  }

  -- A creation that the policy allows, with fresh ids, answers with the dashboard of the payload, owned
  -- by the user, and the table then holds that answer under its id.
  pub create-get :
      (payload : CreateRequest) (w : World)
      → assert_action_allowed "create_dashboard" user.role ≡ ok tt
      → has_row Rows.dashboard_key ("d-" <> text_take 8 (uuid w.drawn)) w.db.dashboards ≡ false
      → has_row Rows.version_key
          ("dv-" <> text_take 10 (uuid (w.drawn + 1)))
          w.db.dashboard_versions
        ≡ false
      → has_row
          (λ (r : AuditEvent). r.id)
          ("ae-" <> text_take 10 (uuid (w.drawn + 1 + 1)))
          w.db.audit_events
        ≡ false
      → let (r, w') = create_dashboard clock uuid user payload w in
        (r ≡ ok (created payload w))
        × (find_row Rows.dashboard_key (created payload w).id w'.db.dashboards
            ≡ some (created payload w))
  unfolding create_dashboard ◌>>=◌ created Rows.create_dashboard Rows.append_dashboard_version
      Rows.next_dashboard_version record_version audit append_audit_event utc_now uuid_hex
      insert_row has_row
  create-get payload w allowed free fresh fresh_event = (
    rw (allowed, free, fresh, fresh_event) refl,
    rw (allowed, free, fresh, fresh_event)
        (find_row-append_new Rows.dashboard_key _ w.db.dashboards (created payload w) free
          ∙ rw eq_refl refl),
  )
