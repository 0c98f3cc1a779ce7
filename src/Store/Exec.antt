-- ===== src/Store/Exec.antt =====
-- The tables, and actions on them that may raise. What was written before an exception stays
-- written: every statement of the store is committed by itself. Random ids and the time of day are
-- drawn from two streams.
pub mod Accounts
pub mod Keeps
use app_scan_custom_dashboar.Base.{
  ℕ, ◌+◌, String, Bool, Option, none, some, List, [], ◌∷◌, ◌++◌, text_take,
}
use app_scan_custom_dashboar.Json.{Fields, Value}
use app_scan_custom_dashboar.Errors.{Exception, Result, ok, err, http_exception, integrity_error}

-- A JSON column is kept as the value that it encodes.
pub record Dashboard : Type 0 where
  pub id : String
  pub name : String
  pub widgets : List Fields
  pub blueprint : Fields
  pub owner : String
  pub created_at : String
  pub updated_at : String

pub record DashboardVersion : Type 0 where
  pub id : String
  pub dashboard_id : String
  pub version : ℕ
  pub name : String
  pub widgets : List Fields
  pub owner : String
  pub change_note : String
  pub created_at : String

pub record DashboardTemplate : Type 0 where
  pub id : String
  pub name : String
  pub description : String
  pub scope : Fields
  pub layout : Fields
  pub widgets : List Fields
  pub visibility : String
  pub created_by : String
  pub created_at : String
  pub updated_at : String

pub record ReportTemplate : Type 0 where
  pub id : String
  pub name : String
  pub filters : Fields
  pub created_by : String
  pub created_at : String

pub record ReportHistory : Type 0 where
  pub id : String
  pub report_name : String
  pub format : String
  pub status : String
  pub requested_by : String
  pub filters : Fields
  pub message : String
  pub created_at : String

pub record ReportSchedule : Type 0 where
  pub id : String
  pub name : String
  pub template_id : Option String
  pub cron : String
  pub format : String
  pub enabled : Bool
  pub next_run_at : Option String
  pub retry_count : ℕ
  pub last_error : String
  pub last_attempt_at : Option String
  pub created_by : String
  pub created_at : String
  pub updated_at : String

pub record ReportArtifact : Type 0 where
  pub report_id : String
  pub file_name : String
  pub file_path : String
  pub mime_type : String
  pub size_bytes : ℕ
  pub created_at : String

pub record AuditEvent : Type 0 where
  pub id : String
  pub actor : String
  pub action : String
  pub resource_type : String
  pub resource_id : String
  pub details : Fields
  pub created_at : String

pub record AnalyticsSnapshot : Type 0 where
  pub cache_key : String
  pub payload : Fields
  pub fetched_at : String
  pub expires_at : String

pub record DataSource : Type 0 where
  pub id : String
  pub label : String
  pub url : String
  pub api_key : String
  pub api_secret : String
  pub verify_ssl : Bool
  pub enabled : Bool
  pub tenant_name : String
  pub api_user_name : String
  pub api_user_role : String
  pub api_user_email : String
  pub last_probed_at : Option String
  pub last_probe_ok : Option Bool
  pub created_at : String
  pub updated_at : String

pub record Database : Type 0 where
  pub dashboards : List Dashboard
  pub dashboard_versions : List DashboardVersion
  pub dashboard_templates : List DashboardTemplate
  pub report_templates : List ReportTemplate
  pub report_history : List ReportHistory
  pub report_schedules : List ReportSchedule
  pub report_artifacts : List ReportArtifact
  pub audit_events : List AuditEvent
  pub analytics_snapshots : List AnalyticsSnapshot
  pub data_sources : List DataSource

-- `drawn` counts the random ids so far, `ticks` the readings of the clock.
pub record World : Type 0 where
  pub db : Database
  pub drawn : ℕ
  pub ticks : ℕ

abbrev pub Exec : Type 0 → Type 0
Exec A = World → Result A × World

module _ {A : Type 0} where
  unfoldable pub pure : A → Exec A
  pure a w = (ok a, w)

  unfoldable pub raise : Exception → Exec A
  raise e w = (err e, w)

  unfoldable pub lift : Result A → Exec A
  lift r w = (r, w)

  unfoldable pub gets : (Database → A) → Exec A
  gets f w = (ok (f w.db), w)

  -- `if row is None: raise HTTPException(status, detail)`.
  unfoldable pub or_raise : ℕ → String → Option A → Exec A
  or_raise status detail none w = (err (http_exception status detail), w)
  or_raise status detail (some a) w = (ok a, w)

-- One statement that writes, `conn.execute` and `conn.commit`.
unfoldable pub write : (Database → Database) → Exec (Unit {0})
write f w = (ok tt, record w { db = f w.db })

-- A statement that may find its key taken.
abbrev committed : World → Option Database → Result (Unit {0}) × World
committed w none = (err integrity_error, w)
committed w (some db) = (ok tt, record w { db = db })

-- The connection is no part of the World: the source shares one that is not rolled back after an
-- IntegrityError, so that PostgreSQL refuses its next statements, and here they go on.
unfoldable pub write_new : (Database → Option Database) → Exec (Unit {0})
write_new f w = committed w (f w.db)

module _ {A B : Type 0} where
  abbrev pub continue : Result A → (A → Exec B) → Exec B
  continue (ok a) f w = f a w
  continue (err e) f w = (err e, w)

  infixl 5 ◌>>=◌ ◌>>◌
  unfoldable pub ◌>>=◌ : Exec A → (A → Exec B) → Exec B
  unfolding pure raise lift gets or_raise write write_new
  ◌>>=◌ m f w = let (r, w') = m w in continue r f w'

  abbrev pub ◌>>◌ : Exec A → Exec B → Exec B
  m >> n = m >>= λ _. n

-- `_utc_now()`, and the first `digits` characters of `uuid4().hex`.
unfoldable pub utc_now : (ℕ → String) → Exec String
utc_now clock w = (ok (clock w.ticks), record w { ticks = w.ticks + 1 })

unfoldable pub uuid_hex : (ℕ → String) → ℕ → Exec String
uuid_hex uuid digits w = (ok (text_take digits (uuid w.drawn)), record w { drawn = w.drawn + 1 })
