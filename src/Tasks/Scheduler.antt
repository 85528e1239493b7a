-- ===== src/Tasks/Scheduler.antt =====
-- core/services/scheduler.go: the cycle of the scheduler, and its operations on the schedules. What
-- the distributed lock and the clock answer, new IDs and failing calls are arguments.
pub mod Cycle
pub mod Additions
mod Tests
use sercha_core.Base.{
  ℕ, suc, String, Bool, true, false, not, ◌&&◌, ◌||◌, Option, none, some, List, [], ◌∷◌, Result, ok,
  err, if◌then◌else◌,
}
use sercha_core.Tasks.Domain.{Task, new_task}
use sercha_core.Tasks.Queue.{Tasks, enqueue}
use sercha_core.Tasks.Schedules.{
  ScheduledTask, Schedules, is_due, get_scheduled_task, save_scheduled_task,
  get_due_scheduled_tasks, update_last_run,
}

pub record SchedulerState : Type 0 where
  pub schedules : Schedules
  pub tasks : Tasks

pub record Scheduler : Type 0 where
  pub has_lock : Bool
  pub lock_required : Bool

-- NewScheduler, as far as the lock goes
unfoldable pub new_scheduler : Bool → Bool → Scheduler
new_scheduler has_lock lock_required = record {
  has_lock = has_lock;
  lock_required = if has_lock && not lock_required then true else lock_required;
}

unfoldable pub create_task : String → ℕ → ScheduledTask → Task
create_task id now s = new_task id now s.type s.team_id []

-- What one run of the loop meets: clock readings, the new ID, failing calls and an error's text.
pub record Turn : Type 0 where
  pub seen_at : ℕ
  pub task_id : String
  pub created_at : ℕ
  pub queue_down : Bool
  pub reason : String
  pub read_down : Bool
  pub write_down : Bool
  pub updated_at : ℕ

abbrev pub last_error_of : String → Result (Unit {0}) → String
last_error_of reason (ok _) = ""
last_error_of reason (err _) = reason

unfoldable pub visit : Turn → ScheduledTask → SchedulerState → SchedulerState
visit turn s st =
    if not s.enabled || not (is_due turn.seen_at s)
    then st
    else let call = enqueue turn.queue_down (create_task turn.task_id turn.created_at s) st.tasks in
      record {
        schedules =
            (update_last_run turn.read_down turn.write_down turn.updated_at s.id
              (last_error_of turn.reason call.0) st.schedules).1;
        tasks = call.1;
      }

unfoldable pub visit_all : (ℕ → Turn) → ℕ → List ScheduledTask → SchedulerState → SchedulerState
visit_all turns i [] st = st
visit_all turns i (s ∷ ss) st = visit_all turns (suc i) ss (visit (turns i) s st)

abbrev pub visit_due : (ℕ → Turn) → Result (List ScheduledTask) → SchedulerState → SchedulerState
visit_due turns (err e) st = st
visit_due turns (ok ss) st = visit_all turns 0 ss st

-- Whether a cycle goes on, by what the lock's Acquire returned.
unfoldable pub may_run : Scheduler → Result Bool → Bool
may_run s (err e) = not s.has_lock || not s.lock_required
may_run s (ok acquired) = not s.has_lock || acquired

unfoldable pub check_and_enqueue :
    Scheduler → Result Bool → Bool → ℕ → (ℕ → Turn) → SchedulerState → SchedulerState
check_and_enqueue s lock down now turns st =
    if may_run s lock
    then visit_due turns (get_due_scheduled_tasks down now st.schedules) st
    else st

-- CreateScheduledTask and UpdateScheduledTask, each one call of the store
unfoldable pub create_scheduled_task :
    Bool → ScheduledTask → Schedules → Result (Unit {0}) × Schedules
create_scheduled_task down s db = save_scheduled_task down s db

unfoldable pub update_scheduled_task :
    Bool → ScheduledTask → Schedules → Result (Unit {0}) × Schedules
update_scheduled_task down s db = save_scheduled_task down s db

abbrev pub save_enabled :
    Bool → Bool → Result ScheduledTask → Schedules → Result (Unit {0}) × Schedules
save_enabled down enabled (err e) db = (err e, db)
save_enabled down enabled (ok s) db = save_scheduled_task down (record s { enabled = enabled }) db

unfoldable pub enable_scheduled_task :
    Bool → Bool → String → Schedules → Result (Unit {0}) × Schedules
enable_scheduled_task down down' id db = save_enabled down' true (get_scheduled_task down id db) db

unfoldable pub disable_scheduled_task :
    Bool → Bool → String → Schedules → Result (Unit {0}) × Schedules
disable_scheduled_task down down' id db =
    save_enabled down' false (get_scheduled_task down id db) db

abbrev enqueued : Result (Unit {0}) → Task → Result Task
enqueued (ok _) t = ok t
enqueued (err e) t = err e

abbrev triggered :
    Bool → String → ℕ → Result ScheduledTask → SchedulerState → Result Task × SchedulerState
triggered down task_id now (err e) st = (err e, st)
triggered down task_id now (ok s) st =
    let t = create_task task_id now s in
    let call = enqueue down t st.tasks in (enqueued call.0 t, record st { tasks = call.1 })

unfoldable pub trigger_now :
    Bool → Bool → String → ℕ → String → SchedulerState → Result Task × SchedulerState
trigger_now down down' task_id now id st =
    triggered down' task_id now (get_scheduled_task down id st.schedules) st
