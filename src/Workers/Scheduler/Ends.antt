-- ===== src/Workers/Scheduler/Ends.antt =====
-- That a schedule whose runs keep failing is disabled, backend/app/workers/report_scheduler.py.
use app_scan_custom_dashboar.Base.{
  ℕ, zero, suc, ◌+◌, ◌≤◌, String, ◌<>◌, false, Option, none, some, ◌≡◌, ap, sym, ◌∙◌, leb,
  text_take, Bool-cases, inl, inr, arith,
}
use app_scan_custom_dashboar.Json.{Fields}
use app_scan_custom_dashboar.Errors.{Exception, Result}
use app_scan_custom_dashboar.Store.Table.{find_row, has_row}
use app_scan_custom_dashboar.Store.Exec.{ReportSchedule, World}
use app_scan_custom_dashboar.Store.Reports.{schedule_key, is_due}
use app_scan_custom_dashboar.Workers.Scheduler.{SchedulerSettings, retry_schedule}
use app_scan_custom_dashboar.Workers.Scheduler.Outcomes.{event_key, Retried, retry_schedule-row}

-- The row of a schedule.
abbrev pub row_at : String → World → Option ReportSchedule
row_at id w = find_row schedule_key id w.db.report_schedules

abbrev count_of : Option ReportSchedule → ℕ
count_of none = 0
count_of (some s) = s.retry_count

module _ (clock uuid : ℕ → String) (settings : SchedulerSettings) (exports_dir : String)
    (write_export : String → Fields → Result ℕ) (next_run : String → String → Result String)
    (add_seconds : String → ℕ → String) (message_of : Exception → String) where
  -- The world after the handler of one failure.
  abbrev pub failed : ReportSchedule → Exception → World → World
  failed s e w =
      (retry_schedule clock uuid settings exports_dir write_export next_run add_seconds message_of s
        e w).1

  -- So many runs of one schedule fail, one after the other. Between two failures anything may happen
  -- that leaves the row of the schedule alone.
  abbrev pub Failures : String → ℕ → World → World → Type 0
  Failures id zero w w' = row_at id w' ≡ row_at id w
  Failures id (suc n) w w' =
      (s : ReportSchedule) × (e : Exception) × (next : World) × (row_at s.id w ≡ some s)
      × (s.id ≡ id)
      × (has_row event_key ("ae-" <> text_take 10 (uuid w.drawn)) w.db.audit_events ≡ false)
      × (row_at id next ≡ row_at id (failed s e w))
      × Failures id n next w'

  maxed :
      (at : String) (s row : ReportSchedule)
      → Retried settings add_seconds at s row
      → settings.max_retries ≤ s.retry_count + 1
      → (now : String) → is_due now row ≡ false
  maxed at s row h enough now = elim (Bool-cases (leb settings.max_retries (s.retry_count + 1))) [
    | inl reached ↦ (rw reached at h.1) now
    | inr below ↦ absurd (ground (arith, below))
  ]

  moved :
      (id : String) (w : World) (s s' : ReportSchedule)
      → row_at s'.id w ≡ some s
      → s'.id ≡ id
      → row_at id w ≡ some s
  moved id w s s' found same = sym (ap (λ i. row_at i w) same) ∙ found

  same_count :
      (o : Option ReportSchedule) (s s' : ReportSchedule)
      → o ≡ some s
      → o ≡ some s'
      → s.retry_count ≡ s'.retry_count
  same_count o s s' p q = ap count_of (sym p ∙ q)

  -- A schedule whose runs keep failing is disabled: after as many failures as take its retries to the
  -- maximum, its row is still there and is not due at any time.
  pub retries-not_due :
      (id : String) (n : ℕ) (w w' : World) (s : ReportSchedule)
      → row_at id w ≡ some s
      → settings.max_retries ≤ s.retry_count + suc n
      → Failures id (suc n) w w'
      → (row : ReportSchedule) × (row_at id w' ≡ some row)
        × ((now : String) → is_due now row ≡ false)
  retries-not_due id zero w w' s here enough (s', e, next, found, same, fresh, carried, rest) =
      let (_, row, found_row, retried) =
        retry_schedule-row clock uuid settings exports_dir write_export next_run add_seconds
          message_of s' e w found fresh in
      (
        row,
        rest ∙ (carried ∙ moved id (failed s' e w) row s' found_row same),
        maxed (clock w.ticks) s' row retried
            (omega (arith, same_count (row_at id w) s s' here (moved id w s' s' found same))),
      )
  retries-not_due id (suc n) w w' s here enough (s', e, next, found, same, fresh, carried, rest) =
      let (_, row, found_row, retried) =
        retry_schedule-row clock uuid settings exports_dir write_export next_run add_seconds
          message_of s' e w found fresh in
      retries-not_due id n next w' row (carried ∙ moved id (failed s' e w) row s' found_row same)
        (omega (arith, retried.0, same_count (row_at id w) s s' here (moved id w s' s' found same)))
        rest
