-- ===== src/Routes/Reports/Stored.antt =====
-- What `generate_report` of backend/app/api/v1/routes/reports.py stores.
use app_scan_custom_dashboar.Base.{
  ℕ, ◌+◌, String, ◌<>◌, ◌≡◌, refl, ◌∙◌, Bool, false, some, text_take, eq_refl,
}
use app_scan_custom_dashboar.Json.{Fields, text, obj, field, end}
use app_scan_custom_dashboar.Errors.{Result, ok}
use app_scan_custom_dashboar.Security.Policy.{assert_action_allowed}
use app_scan_custom_dashboar.Security.Session.{UserContext}
use app_scan_custom_dashboar.Store.Table.{
  find_row, has_row, insert_row, find_row-append_new, find_row-upsert_row,
}
use app_scan_custom_dashboar.Store.Exec.{
  ReportHistory, ReportArtifact, AuditEvent, World, ◌>>=◌, utc_now, uuid_hex,
}
use app_scan_custom_dashboar.Store.Audit.{append_audit_event}
use app_scan_custom_dashboar.Store.Reports as Rows
use app_scan_custom_dashboar.Routes.Reports.{
  ReportRequest, audit, create_report_artifact, payload_of, generate_report,
}

module _ (clock uuid : ℕ → String) (exports_dir : String)
    (write_export : String → Fields → Result ℕ) (next_run : String → String → Result String)
    (valid_cron : String → Bool) (user : UserContext) where
  -- The history row and the artifact of a generated report.
  unfoldable pub queued : ReportRequest → World → ReportHistory
  queued payload w = record {
    id = "r-" <> text_take 8 (uuid w.drawn);
    report_name = payload.name;
    format = payload.format;
    status = "queued";
    requested_by = user.subject;
    filters = payload.filters;
    message = "Custom reporting capability scaffolded.";
    created_at = clock w.ticks;
  }

  -- What is written to its file.
  unfoldable pub contents : ReportRequest → World → Fields
  unfolding queued
  contents payload w = field "report_id" (text (queued payload w).id) (
      field "name" (text payload.name) (
        field "format" (text payload.format) (
          field "filters" (obj payload.filters) (
            field "status" (text "queued") (
              field "generated_at" (text (clock w.ticks))
                (field "generated_by" (text user.subject) end))))))

  unfoldable pub exported : ℕ → World → ReportArtifact
  exported size w = record {
    report_id = "r-" <> text_take 8 (uuid w.drawn);
    file_name = ("r-" <> text_take 8 (uuid w.drawn)) <> ".json";
    file_path = exports_dir <> "/" <> ("r-" <> text_take 8 (uuid w.drawn)) <> ".json";
    mime_type = "application/json";
    size_bytes = size;
    created_at = clock (w.ticks + 1);
  }

  -- A generation that the policy allows, with fresh ids, where the report can be written to the file
  -- under its id in the exports folder, whatever becomes of any other file or content: the history has
  -- the queued report of the user under the id of the answer, and the artifact of that id is that file
  -- with its size.
  pub generate_report-stored :
      (payload : ReportRequest) (size : ℕ) (w : World)
      → assert_action_allowed "generate_report" user.role ≡ ok tt
      → has_row Rows.history_key ("r-" <> text_take 8 (uuid w.drawn)) w.db.report_history ≡ false
      → has_row
          (λ (r : AuditEvent). r.id)
          ("ae-" <> text_take 10 (uuid (w.drawn + 1)))
          w.db.audit_events
        ≡ false
      → write_export (exported size w).file_path (contents payload w) ≡ ok size
      → let (r, w') =
          generate_report clock uuid exports_dir write_export next_run valid_cron user payload w in
        (r
          ≡ ok (record {
            history = queued payload w;
            download_path = "/reports/history/" <> (queued payload w).id <> "/download";
            file_name = (exported size w).file_name;
          }))
        × (find_row Rows.history_key (queued payload w).id w'.db.report_history
            ≡ some (queued payload w))
        × (find_row Rows.artifact_key (queued payload w).id w'.db.report_artifacts
            ≡ some (exported size w))
  unfolding generate_report create_report_artifact payload_of queued exported contents ◌>>=◌ utc_now
      uuid_hex Rows.append_report_history Rows.upsert_report_artifact audit append_audit_event
      insert_row has_row
  generate_report-stored payload size w allowed free fresh writes = (
    rw (allowed, free, writes, fresh) refl,
    rw (allowed, free, writes, fresh)
        (find_row-append_new Rows.history_key _ w.db.report_history (queued payload w) free
          ∙ rw eq_refl refl),
    rw (allowed, free, writes, fresh)
        (find_row-upsert_row Rows.artifact_key (exported size w) _ w.db.report_artifacts
          ∙ rw eq_refl refl),
  )
