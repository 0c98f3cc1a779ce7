-- ===== src/Workers/Scheduler/Outcomes.antt =====
-- What a run of a schedule leaves in the tables, backend/app/workers/report_scheduler.py.
use app_scan_custom_dashboar.Base.{
  ℕ, ◌+◌, String, ◌<>◌, ◌≡◌, refl, true, false, none, some, [], ◌∷◌, ◌++◌, if◌then◌else◌, leb,
  text_take, Bool-cases, inl, inr,
}
use app_scan_custom_dashboar.Json.{Fields, field, end}
use app_scan_custom_dashboar.Errors.{Exception, Result, ok, err}
use app_scan_custom_dashboar.Store.Table.{find_row, has_row, insert_row, find_row-update_found}
use app_scan_custom_dashboar.Store.Exec.{
  ReportHistory, ReportSchedule, AuditEvent, World, ◌>>=◌, utc_now, uuid_hex,
}
use app_scan_custom_dashboar.Store.Audit.{append_audit_event}
use app_scan_custom_dashboar.Store.Reports.{
  history_key, schedule_key, is_due, append_report_history, upsert_report_artifact,
  update_report_schedule, changed_schedule,
}
use app_scan_custom_dashboar.Store.Reports.Due.{disabled-not_due}
use app_scan_custom_dashboar.Workers.Scheduler.{
  SchedulerSettings, backoff_seconds, optional_text, success_change, failure_change,
  create_report_artifact, compute_next_run, execute_schedule, retry_at, retry_schedule,
}

abbrev pub event_key : AuditEvent → String
event_key e = e.id

-- What a failed run says of the row: the retry is counted, and either the schedule is off for good,
-- or its next run is the backoff after the time of the failure.
abbrev pub Retried :
    SchedulerSettings → (String → ℕ → String) → String → ReportSchedule → ReportSchedule → Type 0
Retried settings add_seconds at s row =
    (row.retry_count ≡ s.retry_count + 1)
    × (if leb settings.max_retries (s.retry_count + 1)
        then ((now : String) → is_due now row ≡ false)
        else (row.next_run_at
            ≡ some (add_seconds at (backoff_seconds settings (s.retry_count + 1))))
          × (row.enabled ≡ s.enabled))

module _ (clock uuid : ℕ → String) (settings : SchedulerSettings) (exports_dir : String)
    (write_export : String → Fields → Result ℕ) (next_run : String → String → Result String)
    (add_seconds : String → ℕ → String) (message_of : Exception → String) where
  -- After the failure of a schedule that is in the table, with a fresh id for the audit event, the
  -- handler has counted the retry; at the maximum of retries the schedule is not due at any time, and
  -- before it the next run is the backoff after the failure.
  pub retry_schedule-row :
      (s : ReportSchedule) (e : Exception) (w : World)
      → find_row schedule_key s.id w.db.report_schedules ≡ some s
      → has_row event_key ("ae-" <> text_take 10 (uuid w.drawn)) w.db.audit_events ≡ false
      → let (r, w') =
          retry_schedule clock uuid settings exports_dir write_export next_run add_seconds
            message_of s e w in
        (r ≡ ok tt)
        × (row : ReportSchedule) × (find_row schedule_key s.id w'.db.report_schedules ≡ some row)
        × Retried settings add_seconds (clock w.ticks) s row
  unfolding retry_schedule retry_at ◌>>=◌ utc_now uuid_hex update_report_schedule append_audit_event
      insert_row has_row changed_schedule failure_change
  retry_schedule-row s e w found fresh =
      elim (Bool-cases (leb settings.max_retries (s.retry_count + 1))) [
        | inl maxed ↦ rw maxed (
          rw (found, fresh) refl,
          changed_schedule
              (failure_change true s.enabled (s.retry_count + 1) none (text_take 500 (message_of e))
                (clock w.ticks))
              (clock (w.ticks + 1)) s,
          rw (found, fresh)
              (find_row-update_found schedule_key s.id _ w.db.report_schedules s (λ x. refl) found),
          (refl, disabled-not_due _ refl),
        )
        | inr more ↦ rw more (
          rw (found, fresh) refl,
          changed_schedule
              (failure_change false s.enabled (s.retry_count + 1)
                (some (add_seconds (clock w.ticks) (backoff_seconds settings (s.retry_count + 1))))
                (text_take 500 (message_of e)) (clock (w.ticks + 1)))
              (clock (w.ticks + 1 + 1)) s,
          rw (found, fresh)
              (find_row-update_found schedule_key s.id _ w.db.report_schedules s (λ x. refl) found),
          (refl, (refl, refl)),
        )
      ]

  -- A run of a schedule that is in the table, with fresh ids, where the file can be written and the
  -- cron expression has a next run: it returns, and the row has no retries, no error and that next run,
  -- and is enabled as before.
  pub execute_schedule-row :
      (s : ReportSchedule) (size : ℕ) (next : String) (w : World)
      → find_row schedule_key s.id w.db.report_schedules ≡ some s
      → has_row history_key ("r-" <> text_take 8 (uuid w.drawn)) w.db.report_history ≡ false
      → has_row event_key ("ae-" <> text_take 10 (uuid (w.drawn + 1))) w.db.audit_events ≡ false
      → ((path : String) (payload : Fields) → write_export path payload ≡ ok size)
      → next_run s.cron (clock (w.ticks + 1 + 1)) ≡ ok next
      → let (r, w') =
          execute_schedule clock uuid settings exports_dir write_export next_run add_seconds
            message_of s w in
        (r ≡ ok tt)
        × (row : ReportSchedule) × (find_row schedule_key s.id w'.db.report_schedules ≡ some row)
        × (row.retry_count ≡ 0)
        × (row.last_error ≡ "")
        × (row.next_run_at ≡ some next)
        × (row.enabled ≡ s.enabled)
  unfolding execute_schedule create_report_artifact compute_next_run ◌>>=◌ utc_now uuid_hex
      append_report_history upsert_report_artifact update_report_schedule append_audit_event
      insert_row has_row changed_schedule success_change
  execute_schedule-row s size next w found free fresh writes runs = (
    rw (free, writes, runs, found, fresh) refl,
    changed_schedule (success_change s next (clock (w.ticks + 1 + 1 + 1)))
        (clock (w.ticks + 1 + 1 + 1 + 1)) s,
    rw (free, writes, runs, found, fresh)
        (find_row-update_found schedule_key s.id _ w.db.report_schedules s (λ x. refl) found),
    refl,
    refl,
    refl,
    refl,
  )

  -- A run whose file cannot be written raises that error and leaves behind a history row that says
  -- completed, no artifact, and the schedules as they were.
  pub execute_schedule-failed_write :
      (s : ReportSchedule) (e : Exception) (w : World)
      → has_row history_key ("r-" <> text_take 8 (uuid w.drawn)) w.db.report_history ≡ false
      → ((path : String) (payload : Fields) → write_export path payload ≡ err e)
      → let (r, w') =
          execute_schedule clock uuid settings exports_dir write_export next_run add_seconds
            message_of s w in
        (r ≡ err e)
        × (row : ReportHistory) × (w'.db.report_history ≡ w.db.report_history ++ (row ∷ []))
        × (row.status ≡ "completed")
        × (w'.db.report_artifacts ≡ w.db.report_artifacts)
        × (w'.db.report_schedules ≡ w.db.report_schedules)
  unfolding execute_schedule create_report_artifact ◌>>=◌ utc_now uuid_hex append_report_history
      insert_row has_row
  execute_schedule-failed_write s e w free fails = (
    rw (free, fails) refl,
    history_row,
    rw (free, fails) refl,
    refl,
    rw (free, fails) refl,
    rw (free, fails) refl,
  )
    where
      history_row : ReportHistory
      history_row = record {
        id = "r-" <> text_take 8 (uuid w.drawn);
        report_name = s.name;
        format = s.format;
        status = "completed";
        requested_by = "scheduler";
        filters = field "template_id" (optional_text s.template_id) end;
        message = "Scheduled report executed by background worker.";
        created_at = clock w.ticks;
      }
