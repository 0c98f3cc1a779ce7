-- ===== src/Store/Audit/Event.antt =====
-- `append_audit_event` writes one event of its actor, or finds the id taken and writes nothing.
use app_scan_custom_dashboar.Base.{ℕ, String, refl, List, Bool-cases, inl, inr}
use app_scan_custom_dashboar.Json.{Fields}
use app_scan_custom_dashboar.Store.Table.{insert_row, has_row}
use app_scan_custom_dashboar.Store.Exec.{AuditEvent, Database, utc_now, ◌>>=◌}
use app_scan_custom_dashboar.Store.Exec.Accounts.{Audited}
use app_scan_custom_dashboar.Store.Exec.Keeps.{Keeps}
use app_scan_custom_dashboar.Store.Audit.{append_audit_event}

pub append_audit_event-Audited :
    (clock : ℕ → String) (event_id actor action resource_type resource_id : String)
    (details : Fields)
    → Audited actor
        (append_audit_event clock event_id actor action resource_type resource_id details)
unfolding append_audit_event ◌>>=◌ utc_now insert_row has_row
append_audit_event-Audited clock event_id actor action resource_type resource_id details = record {
  at = λ w. elim (Bool-cases (has_row (λ (r : AuditEvent). r.id) event_id w.db.audit_events)) [
    | inl taken ↦ rw taken refl
    | inr free ↦ rw free (_, refl, refl)
  ];
}

-- It keeps every property that the audit log has no part in.
pub append_audit_event-Keeps :
    (P : Database → Type 0) (clock : ℕ → String)
    (event_id actor action resource_type resource_id : String) (details : Fields)
    → ((db : Database) (rows : List AuditEvent) → P db → P (record db { audit_events = rows }))
    → Keeps P (append_audit_event clock event_id actor action resource_type resource_id details)
unfolding append_audit_event ◌>>=◌ utc_now insert_row has_row
append_audit_event-Keeps P clock event_id actor action resource_type resource_id details apart =
    record {
      at = λ w h.
          elim (Bool-cases (has_row (λ (r : AuditEvent). r.id) event_id w.db.audit_events)) [
            | inl taken ↦ rw taken h
            | inr free ↦ rw free (apart w.db _ h)
          ];
    }
