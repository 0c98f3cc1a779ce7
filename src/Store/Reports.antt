-- ===== src/Store/Reports.antt =====
-- Report history, schedules and artifacts in backend/app/repositories/postgres_store.py.
pub mod Due
pub mod Effects
pub mod Apart
use app_scan_custom_dashboar.Base.{
  ℕ, String, Bool, true, false, ◌&&◌, Option, none, some, List, [], ◌∷◌, ◌++◌, ◌==◌, if◌then◌else◌,
  take, keep, sort, text_le, member, map,
}
use app_scan_custom_dashboar.Json.{Fields}
use app_scan_custom_dashboar.Store.Table.{
  find_row, has_row, insert_row, update_rows, delete_rows, upsert_row,
}
use app_scan_custom_dashboar.Store.Exec.{
  ReportHistory, ReportSchedule, ReportArtifact, Database, World, Exec, pure, gets, write,
  write_new, utc_now, ◌>>=◌, ◌>>◌,
}

abbrev pub history_key : ReportHistory → String
history_key r = r.id

abbrev pub schedule_key : ReportSchedule → String
schedule_key s = s.id

abbrev pub artifact_key : ReportArtifact → String
artifact_key a = a.report_id

insert_history : ReportHistory → Database → Option Database
insert_history r db = elim (insert_row history_key r db.report_history) [
  | none ↦ none
  | some rows ↦ some (record db { report_history = rows })
]

insert_schedule : ReportSchedule → Database → Option Database
insert_schedule s db = elim (insert_row schedule_key s db.report_schedules) [
  | none ↦ none
  | some rows ↦ some (record db { report_schedules = rows })
]

-- ORDER BY created_at DESC LIMIT limit.
unfoldable pub list_report_history : ℕ → Exec (List ReportHistory)
list_report_history limit =
    gets (λ db. take limit (sort (λ a b. text_le b.created_at a.created_at) db.report_history))

unfoldable pub list_report_schedules : Exec (List ReportSchedule)
list_report_schedules =
    gets (λ db. sort (λ a b. text_le b.updated_at a.updated_at) db.report_schedules)

-- `enabled = 1 AND next_run_at IS NOT NULL AND next_run_at <= now`.
due_at : String → Bool → Option String → Bool
due_at now enabled none = false
due_at now enabled (some t) = enabled && text_le t now

unfoldable pub is_due : String → ReportSchedule → Bool
unfolding due_at
is_due now s = due_at now s.enabled s.next_run_at

-- NULL is the least in the order; no due row has it.
run_le : Option String → Option String → Bool
run_le none b = true
run_le (some a) none = false
run_le (some a) (some b) = text_le a b

unfoldable pub due_schedules : String → List ReportSchedule → List ReportSchedule
unfolding run_le
due_schedules now_iso rows =
    sort (λ a b. run_le a.next_run_at b.next_run_at) (keep (is_due now_iso) rows)

unfoldable pub list_due_report_schedules : String → Exec (List ReportSchedule)
list_due_report_schedules now_iso = gets (λ db. due_schedules now_iso db.report_schedules)

-- The arguments of `update_report_schedule`; `none` is None, which keeps the old value.
pub record ScheduleChange : Type 0 where
  pub name : Option String
  pub template_id : Option String
  pub cron : Option String
  pub format : Option String
  pub enabled : Option Bool
  pub next_run_at : Option String
  pub retry_count : Option ℕ
  pub last_error : Option String
  pub last_attempt_at : Option String

abbrev pub no_change : ScheduleChange
no_change = record {
  name = none;
  template_id = none;
  cron = none;
  format = none;
  enabled = none;
  next_run_at = none;
  retry_count = none;
  last_error = none;
  last_attempt_at = none;
}

abbrev given {ℓ} : {A : Type ℓ} → Option A → A → A
given none old = old
given (some new) old = new

abbrev or_old {ℓ} : {A : Type ℓ} → Option A → Option A → Option A
or_old none old = old
or_old (some new) old = some new

unfoldable pub changed_schedule : ScheduleChange → String → ReportSchedule → ReportSchedule
changed_schedule c now s = record s {
  name = given c.name s.name;
  template_id = or_old c.template_id s.template_id;
  cron = given c.cron s.cron;
  format = given c.format s.format;
  enabled = given c.enabled s.enabled;
  next_run_at = or_old c.next_run_at s.next_run_at;
  retry_count = given c.retry_count s.retry_count;
  last_error = given c.last_error s.last_error;
  last_attempt_at = or_old c.last_attempt_at s.last_attempt_at;
  updated_at = now;
}

abbrev pub set_schedule : String → (ReportSchedule → ReportSchedule) → Database → Database
set_schedule id f db = record db {
  report_schedules = update_rows schedule_key id f db.report_schedules;
}

unfoldable pub get_report_artifact : String → Exec (Option ReportArtifact)
get_report_artifact report_id = gets (λ db. find_row artifact_key report_id db.report_artifacts)

-- The rows whose id is among the ids, as the entries of the dict.
unfoldable pub report_artifact_map : List String → Exec (List (String × ReportArtifact))
report_artifact_map [] = pure []
report_artifact_map (id ∷ ids) = gets λ db.
    map (λ a. (a.report_id, a)) (keep (λ a. member a.report_id (id ∷ ids)) db.report_artifacts)

module _ (clock : ℕ → String) where
  unfoldable pub append_report_history :
      String → String → String → String → String → Fields → String → Exec ReportHistory
  unfolding insert_history
  append_report_history report_id report_name output_format status requested_by filters message = do
    created_at ← utc_now clock
    let r : ReportHistory = record {
      id = report_id;
      report_name = report_name;
      format = output_format;
      status = status;
      requested_by = requested_by;
      filters = filters;
      message = message;
      created_at = created_at;
    }
    write_new (insert_history r)
    pure r

  unfoldable pub create_report_schedule :
      String
      → String
      → Option String
      → String
      → String
      → Bool
      → Option String
      → String
      → Exec ReportSchedule
  unfolding insert_schedule
  create_report_schedule schedule_id name template_id cron output_format enabled next_run_at
        created_by =
      do
        now ← utc_now clock
        let s : ReportSchedule = record {
          id = schedule_id;
          name = name;
          template_id = template_id;
          cron = cron;
          format = output_format;
          enabled = enabled;
          next_run_at = next_run_at;
          retry_count = 0;
          last_error = "";
          last_attempt_at = none;
          created_by = created_by;
          created_at = now;
          updated_at = now;
        }
        write_new (insert_schedule s)
        pure s

  update_schedule_found :
      String → ScheduleChange → Option ReportSchedule → Exec (Option ReportSchedule)
  update_schedule_found schedule_id change none = pure none
  update_schedule_found schedule_id change (some existing) = do
    updated_at ← utc_now clock
    write (set_schedule schedule_id (changed_schedule change updated_at))
    pure (some (changed_schedule change updated_at existing))

  unfoldable pub update_report_schedule : String → ScheduleChange → Exec (Option ReportSchedule)
  unfolding update_schedule_found
  update_report_schedule schedule_id change = do
    existing ← gets (λ db. find_row schedule_key schedule_id db.report_schedules)
    update_schedule_found schedule_id change existing

  unfoldable pub upsert_report_artifact :
      String → String → String → String → ℕ → Exec ReportArtifact
  upsert_report_artifact report_id file_name file_path mime_type size_bytes = do
    created_at ← utc_now clock
    let a : ReportArtifact = record {
      report_id = report_id;
      file_name = file_name;
      file_path = file_path;
      mime_type = mime_type;
      size_bytes = size_bytes;
      created_at = created_at;
    }
    write (λ db. record db { report_artifacts = upsert_row artifact_key a db.report_artifacts })
    pure a

-- True if a row was deleted.
unfoldable pub delete_report_schedule : String → Exec Bool
delete_report_schedule schedule_id = do
  there ← gets (λ db. has_row schedule_key schedule_id db.report_schedules)
  write (λ db. record db {
    report_schedules = delete_rows schedule_key schedule_id db.report_schedules;
  })
  pure there
