-- ===== src/Store/Reports/Due.antt =====
-- Which schedules of backend/app/repositories/postgres_store.py are due.
use app_scan_custom_dashboar.Base.{
  String, ◌≡◌, refl, ◌↔◌, Bool, true, false, Option, none, some, List, arith, keep, text_le, Mem,
  mem-keep_of, mem-of_keep, sort-perm,
}
use mathlib.Core.List.Perm
use app_scan_custom_dashboar.Store.Exec.{ReportSchedule}
use app_scan_custom_dashboar.Store.Reports.{is_due, due_at, run_le, due_schedules}

option_injective : {A : Type 0} {a b : A} → some a ≡ some b → a ≡ b
option_injective e = cc

due_at_iff :
    (now : String) (enabled : Bool) (o : Option String)
    → (due_at now enabled o ≡ true)
      ↔ ((enabled ≡ true) × (t : String) × (o ≡ some t) × (text_le t now ≡ true))
unfolding due_at
due_at_iff now enabled none = (λ h. cc, λ (on, t, e, early). cc)
due_at_iff now enabled (some t) = (
  λ h. (ground arith, t, refl, ground arith),
  λ (on, u, e, early). let same : t ≡ u = option_injective e in rw (on, same) early,
)

-- The due schedules are exactly the rows that are enabled and have a next run that is not after now.
pub mem-due_schedules :
    (now : String) (rows : List ReportSchedule) (s : ReportSchedule)
    → Mem s (due_schedules now rows) ↔ (
        Mem s rows
        × (s.enabled ≡ true)
        × (t : String) × (s.next_run_at ≡ some t)
        × (text_le t now ≡ true))
unfolding due_schedules is_due
mem-due_schedules now rows s =
    let ordered =
      Perm.mem_iff
        (sort-perm (λ a b. run_le a.next_run_at b.next_run_at) (keep (is_due now) rows)) in
    (
      λ m.
          let (isin, due) = mem-of_keep (is_due now) s rows (ordered.0 m) in
          let (on, t, at, early) = (due_at_iff now s.enabled s.next_run_at).0 due in
          (isin, on, t, at, early),
      λ (isin, on, t, at, early). ordered.1 (
          mem-keep_of (is_due now) s rows isin
            ((due_at_iff now s.enabled s.next_run_at).1 (on, t, at, early))),
    )

disabled_due_at : (now : String) (o : Option String) → due_at now false o ≡ false
unfolding due_at
disabled_due_at now none = refl
disabled_due_at now (some t) = refl

-- A disabled schedule is not due at any time.
pub disabled-not_due :
    (s : ReportSchedule) → s.enabled ≡ false → (now : String) → is_due now s ≡ false
unfolding is_due
disabled-not_due s off now = rw off (disabled_due_at now s.next_run_at)
