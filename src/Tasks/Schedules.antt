-- ===== src/Tasks/Schedules.antt =====
-- Scheduled tasks: ScheduledTask of core/domain/task.go and the table of
-- adapters/driven/postgres/scheduler_store.go, one statement a step. Times and intervals are
-- nanoseconds, and an interval is not negative.
use sercha_core.Base.{
  ℕ, ◌+◌, String, Bool, true, ◌&&◌, Option, none, some, Table, List, [], ◌∷◌, lookup, exists_in,
  modify, remove, put, ltb, leb, Result, ok, err, internal, not_found, str_eq, if◌then◌else◌,
}
use sercha_core.Tasks.Domain.{TaskType}

pub record ScheduledTask : Type 0 where
  pub id : String
  pub name : String
  pub type : TaskType
  pub team_id : String
  pub interval : ℕ
  pub enabled : Bool
  pub last_run : Option ℕ
  pub next_run : ℕ
  pub last_error : String

unfoldable pub new_scheduled_task : ℕ → String → String → TaskType → String → ℕ → ScheduledTask
new_scheduled_task now id name type team_id interval = record {
  id = id;
  name = name;
  type = type;
  team_id = team_id;
  interval = interval;
  enabled = true;
  last_run = none;
  next_run = now + interval;
  last_error = "";
}

unfoldable pub is_due : ℕ → ScheduledTask → Bool
is_due now s = s.enabled && ltb s.next_run now

abbrev pub Schedules : Type 0
Schedules = Table ScheduledTask

unfoldable pub get_scheduled_task : Bool → String → Schedules → Result ScheduledTask
get_scheduled_task down id db =
    if down then err internal else elim (lookup id db) [ none ↦ err not_found | some s ↦ ok s ]

unfoldable pub save_scheduled_task :
    Bool → ScheduledTask → Schedules → Result (Unit {0}) × Schedules
save_scheduled_task down s db = if down then (err internal, db) else (ok tt, put s.id s db)

unfoldable pub delete_scheduled_task : Bool → String → Schedules → Result (Unit {0}) × Schedules
delete_scheduled_task down id db =
    if down
    then (err internal, db)
    else if exists_in id db
    then (ok tt, remove id db)
    else (err not_found, db)

unfoldable pub insert_next : ScheduledTask → List ScheduledTask → List ScheduledTask
insert_next s [] = s ∷ []
insert_next s (u ∷ us) =
    let rest = insert_next s us in if leb s.next_run u.next_run then s ∷ (u ∷ us) else u ∷ rest

-- ORDER BY next_run ASC over the rows that fit; of rows with one time the earlier row comes first
unfoldable pub next_first : (ScheduledTask → Bool) → Schedules → List ScheduledTask
next_first p [] = []
next_first p ((_, s) ∷ db) = let rest = next_first p db in if p s then insert_next s rest else rest

unfoldable pub list_scheduled_tasks : Bool → String → Schedules → Result (List ScheduledTask)
list_scheduled_tasks down team_id db =
    if down then err internal else ok (next_first (λ s. str_eq s.team_id team_id) db)

-- WHERE enabled = true AND next_run <= now
unfoldable pub is_selected : ℕ → ScheduledTask → Bool
is_selected now s = s.enabled && leb s.next_run now

unfoldable pub get_due_scheduled_tasks : Bool → ℕ → Schedules → Result (List ScheduledTask)
get_due_scheduled_tasks down now db =
    if down then err internal else ok (next_first (is_selected now) db)

abbrev pub ran : ℕ → ℕ → String → ScheduledTask → ScheduledTask
ran now next_run last_error s = record s {
  last_run = some now;
  next_run = next_run;
  last_error = last_error;
}

-- Two statements; the row that the first reads is still there for the second.
unfoldable pub update_last_run :
    Bool → Bool → ℕ → String → String → Schedules → Result (Unit {0}) × Schedules
update_last_run down down' now id last_error db = elim (get_scheduled_task down id db) [
  | err e ↦ (err e, db)
  | ok s ↦
      if down'
      then (err internal, db)
      else (ok tt, modify id (ran now (now + s.interval) last_error) db)
]
