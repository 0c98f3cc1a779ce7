-- ===== src/Routes/Reports/Audited.antt =====
-- The schedule routes of backend/app/api/v1/routes/reports.py are audited.
use app_scan_custom_dashboar.Base.{
  ℕ, String, ◌<>◌, ◌==◌, Bool, Option, none, some, Bool-cases, inl, inr,
}
use app_scan_custom_dashboar.Json.{Fields, end, field, text}
use app_scan_custom_dashboar.Errors.{Result, require}
use app_scan_custom_dashboar.Security.Policy.{assert_action_allowed}
use app_scan_custom_dashboar.Security.Session.{UserContext}
use app_scan_custom_dashboar.Store.Exec.{pure, lift, or_raise, utc_now, uuid_hex, ◌>>=◌}
use app_scan_custom_dashboar.Store.Exec.Accounts.{
  Quiet, Accounted, Audited, Quiet-pure, Quiet-lift, Quiet-utc_now, Quiet-uuid_hex, Quiet-bind,
  Silent-uuid_hex, Audited-bind, Audited-pure_after, Accounted-bind, Accounted-bind-Quiet,
  Accounted-bind_two, Careful-of_Silent,
}
use app_scan_custom_dashboar.Store.Audit.{append_audit_event}
use app_scan_custom_dashboar.Store.Audit.Event.{append_audit_event-Audited}
use app_scan_custom_dashboar.Store.Reports as Rows
use app_scan_custom_dashboar.Store.Reports.Effects.{
  create_report_schedule-Silent, update_schedule_or_404-Careful, delete_schedule_or_404-Careful,
}
use app_scan_custom_dashboar.Routes.Reports.{
  ScheduleCreateRequest, ScheduleUpdateRequest, schedule_not_found, audit, compute_next_run,
  given_or_next_run, resolved_next_run, check_cron, create_report_schedule, update_report_schedule,
  delete_report_schedule,
}

module _ (clock uuid : ℕ → String) (exports_dir : String)
    (write_export : String → Fields → Result ℕ) (next_run : String → String → Result String)
    (valid_cron : String → Bool) (user : UserContext) where
  audit-Audited :
      (action resource_type id : String) (details : Fields)
      → Audited user.subject (
          audit clock uuid exports_dir write_export next_run valid_cron user action resource_type id
            details)
  unfolding audit
  audit-Audited action resource_type id details =
      Audited-bind user.subject (uuid_hex uuid 10) _ (Silent-uuid_hex uuid 10) λ hex.
        Audited-pure_after user.subject
          (append_audit_event clock ("ae-" <> hex) user.subject action resource_type id details) tt
          (append_audit_event-Audited clock ("ae-" <> hex) user.subject action resource_type id
            details)

  audit_then-Audited :
      {A : Type 0} (row : A) (action id : String) (details : Fields)
      → Audited user.subject (
          audit clock uuid exports_dir write_export next_run valid_cron user action
            "report_schedule" id details
          >>= λ _. pure row)
  audit_then-Audited row action id details =
      Audited-pure_after user.subject
        (audit clock uuid exports_dir write_export next_run valid_cron user action "report_schedule"
          id details)
        row (audit-Audited action "report_schedule" id details)

  compute_next_run-Quiet :
      (cron : String)
      → Quiet (compute_next_run clock uuid exports_dir write_export next_run valid_cron user cron)
  unfolding compute_next_run
  compute_next_run-Quiet cron =
      Quiet-bind (utc_now clock) _ (Quiet-utc_now clock) (λ base. Quiet-lift (next_run cron base))

  given_or_next_run-Quiet :
      (given : Option String) (cron : String)
      → Quiet (
          given_or_next_run clock uuid exports_dir write_export next_run valid_cron user given cron)
  unfolding given_or_next_run
  given_or_next_run-Quiet none cron = compute_next_run-Quiet cron
  given_or_next_run-Quiet (some t) cron = elim (Bool-cases (t == "")) [
    | inl empty ↦ rw empty (compute_next_run-Quiet cron)
    | inr filled ↦ rw filled (Quiet-pure t)
  ]

  resolved_next_run-Quiet :
      (given cron : Option String)
      → Quiet (
          resolved_next_run clock uuid exports_dir write_export next_run valid_cron user given cron)
  unfolding resolved_next_run
  resolved_next_run-Quiet (some t) cron = Quiet-pure (some t)
  resolved_next_run-Quiet none none = Quiet-pure none
  resolved_next_run-Quiet none (some cron) =
      Quiet-bind
        (compute_next_run clock uuid exports_dir write_export next_run valid_cron user cron) _
        (compute_next_run-Quiet cron) (λ next. Quiet-pure (some next))

  -- Creating a schedule: a call that returns has added one audit event of the user behind the old ones;
  -- one that answers with an HTTP error has not changed the database; one that ends with another
  -- exception has added no audit event.
  pub create_report_schedule-Accounted :
      (payload : ScheduleCreateRequest)
      → Accounted user.subject (
          create_report_schedule clock uuid exports_dir write_export next_run valid_cron user
            payload)
  unfolding create_report_schedule
  create_report_schedule-Accounted payload =
      Accounted-bind-Quiet user.subject
        (lift (assert_action_allowed "manage_report_schedules" user.role)) _ (Quiet-lift _)
        λ _.
          Accounted-bind-Quiet user.subject
            (lift (require (valid_cron payload.cron) 422 "Invalid cron expression")) _
            (Quiet-lift _)
            λ _.
              Accounted-bind-Quiet user.subject (uuid_hex uuid 8) _ (Quiet-uuid_hex uuid 8) λ hex.
                Accounted-bind-Quiet user.subject
                  (given_or_next_run clock uuid exports_dir write_export next_run valid_cron user
                    payload.next_run_at payload.cron)
                  _ (given_or_next_run-Quiet payload.next_run_at payload.cron)
                  λ next.
                    Accounted-bind user.subject
                      (Rows.create_report_schedule clock ("rs-" <> hex) payload.name
                        payload.template_id payload.cron payload.format payload.enabled (some next)
                        user.subject)
                      _
                      (Careful-of_Silent _ (
                        create_report_schedule-Silent clock ("rs-" <> hex) payload.name
                          payload.template_id payload.cron payload.format payload.enabled
                          (some next) user.subject))
                      λ row. audit_then-Audited row "report_schedule.create" ("rs-" <> hex) _

  -- Updating a schedule: a call that returns has added one audit event of the user
  -- behind the old ones; one that answers with an HTTP error has not changed the database; one that
  -- ends with another exception has added no audit event.
  pub update_report_schedule-Accounted :
      (id : String) (payload : ScheduleUpdateRequest)
      → Accounted user.subject (
          update_report_schedule clock uuid exports_dir write_export next_run valid_cron user id
            payload)
  unfolding update_report_schedule
  update_report_schedule-Accounted id payload =
      Accounted-bind-Quiet user.subject
        (lift (assert_action_allowed "manage_report_schedules" user.role)) _ (Quiet-lift _)
        λ _.
          Accounted-bind-Quiet user.subject
            (lift (
              check_cron clock uuid exports_dir write_export next_run valid_cron user payload.cron))
            _ (Quiet-lift _)
            λ _.
              Accounted-bind-Quiet user.subject
                (resolved_next_run clock uuid exports_dir write_export next_run valid_cron user
                  payload.next_run_at payload.cron)
                _ (resolved_next_run-Quiet payload.next_run_at payload.cron)
                λ next.
                  Accounted-bind_two user.subject (Rows.update_report_schedule clock id _)
                    (or_raise 404 schedule_not_found) _
                    (update_schedule_or_404-Careful clock id _ schedule_not_found)
                    λ row. audit_then-Audited row "report_schedule.update" id _

  -- Deleting a schedule: a call that returns has added one audit event of the user
  -- behind the old ones; one that answers with an HTTP error has not changed the database; one that
  -- ends with another exception has added no audit event.
  pub delete_report_schedule-Accounted :
      (id : String)
      → Accounted user.subject
          (delete_report_schedule clock uuid exports_dir write_export next_run valid_cron user id)
  unfolding delete_report_schedule
  delete_report_schedule-Accounted id =
      Accounted-bind-Quiet user.subject
        (lift (assert_action_allowed "manage_report_schedules" user.role)) _ (Quiet-lift _)
        λ _.
          Accounted-bind_two user.subject (Rows.delete_report_schedule id)
            (λ deleted. lift (require deleted 404 schedule_not_found)) _
            (delete_schedule_or_404-Careful id schedule_not_found)
            λ _.
              audit_then-Audited (field "status" (text "deleted") (field "id" (text id) end))
                "report_schedule.delete" id end
