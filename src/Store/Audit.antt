-- ===== src/Store/Audit.antt =====
-- `append_audit_event` of backend/app/repositories/postgres_store.py.
pub mod Event
use app_scan_custom_dashboar.Base.{
  take, drop, sort, text_le, length, ℕ, String, Option, none, some, List, ◌<>◌,
}
use app_scan_custom_dashboar.Json.{Fields}
use app_scan_custom_dashboar.Store.Table.{insert_row}
use app_scan_custom_dashboar.Store.Exec.{
  AuditEvent, Database, World, Exec, pure, write_new, gets, utc_now, uuid_hex, ◌>>=◌, ◌>>◌,
}

insert_audit : AuditEvent → Database → Option Database
insert_audit e db = elim (insert_row (λ (r : AuditEvent). r.id) e db.audit_events) [
  | none ↦ none
  | some rows ↦ some (record db { audit_events = rows })
]

module _ (clock : ℕ → String) where
  unfoldable pub append_audit_event :
      String → String → String → String → String → Fields → Exec AuditEvent
  unfolding insert_audit
  append_audit_event event_id actor action resource_type resource_id details = do
    created_at ← utc_now clock
    let event : AuditEvent = record {
      id = event_id;
      actor = actor;
      action = action;
      resource_type = resource_type;
      resource_id = resource_id;
      details = details;
      created_at = created_at;
    }
    write_new (insert_audit event)
    pure event

-- ORDER BY created_at DESC LIMIT limit OFFSET offset. The order of events with the same time is the
-- database's, and may be another one for another page, so what a query sees before LIMIT and OFFSET is
-- a parameter.
module _ (newest_first : ℕ → ℕ → List AuditEvent → List AuditEvent) where
  unfoldable pub audit_page : ℕ → ℕ → List AuditEvent → List AuditEvent
  audit_page limit offset rows = take limit (drop offset (newest_first limit offset rows))

  unfoldable pub list_audit_events : ℕ → ℕ → Exec (List AuditEvent)
  list_audit_events limit offset = gets (λ db. audit_page limit offset db.audit_events)

unfoldable pub count_audit_events : Exec ℕ
count_audit_events = gets (λ db. length db.audit_events)
