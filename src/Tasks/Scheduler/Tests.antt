-- ===== src/Tasks/Scheduler/Tests.antt =====
-- Schedules at which the theorems about core/services/scheduler.go apply, and the one about
-- GetUpcomingJobs of core/services/admin.go.
use sercha_core.Base.{
  ℕ, zero, suc, modify, ◌+◌, true, false, ◌≡◌, ◌↔◌, refl, none, some, [], ◌∷◌, All, ok, err,
  internal, arith, lookup, put, remove, not_found,
}
use sercha_core.Tasks.Domain.{TaskType, new_task}
use sercha_core.Tasks.Queue.{enqueue}
use sercha_core.Tasks.Schedules.{
  ScheduledTask, is_due, is_selected, insert_next, next_first, get_scheduled_task,
  save_scheduled_task, get_due_scheduled_tasks, update_last_run, delete_scheduled_task,
  list_scheduled_tasks, new_scheduled_task,
}
use sercha_core.Tasks.Scheduler.{
  SchedulerState, Turn, new_scheduler, create_task, visit, visit_all, may_run, check_and_enqueue,
  enable_scheduled_task, disable_scheduled_task, trigger_now,
}
use sercha_core.Tasks.Reports.{
  list_tasks, page, newest_first, insert_newest, selected, fits, same_status,
}
use Prim.Native.Nat.{min}
use sercha_core.Tasks.Reports.Pages.{NewestFirst}
use sercha_core.Tasks.Upcoming.{
  IsPendingOf, waiting_of, UpcomingJobs, new_upcoming_jobs, earliest, get_upcoming_jobs, NotBefore,
  AllFrom, get_upcoming_jobs-NotBefore,
}
use sercha_core.Tasks.Scheduler.Cycle.{Rests, check_and_enqueue-Locked, check_and_enqueue-Rests}
use sercha_core.Tasks.Scheduler.Additions.{Adds, check_and_enqueue-Adds}

abbrev hourly : ScheduledTask
hourly = record {
  id = "hourly";
  name = "Hourly sync";
  type = TaskType.sync_all;
  team_id = "team";
  interval = 3600;
  enabled = true;
  last_run = none;
  next_run = 90;
  last_error = "";
}

abbrev daily : ScheduledTask
daily = record hourly { id = "daily"; interval = 86_400; next_run = 80 }

abbrev paused : ScheduledTask
paused = record hourly { id = "paused"; enabled = false }

abbrev three_schedules : SchedulerState
three_schedules = record {
  schedules = ("hourly", hourly) ∷ ("daily", daily) ∷ ("paused", paused) ∷ [];
  tasks = [];
}

-- The queue fails in the second turn.
abbrev turns : ℕ → Turn
turns i = record {
  seen_at = 101 + i;
  task_id = "task";
  created_at = 101 + i;
  queue_down = elim i [ zero ↦ false | suc _ ↦ true ];
  reason = "queue down";
  read_down = false;
  write_down = false;
  updated_at = 102 + i;
}

two_due : get_due_scheduled_tasks false 100 three_schedules.schedules ≡ ok (daily ∷ hourly ∷ [])
unfolding get_due_scheduled_tasks next_first insert_next is_selected
two_due = refl

-- The hourly schedule is moved on although its task was not enqueued.
failed_run :
    lookup "hourly"
      (check_and_enqueue
        (new_scheduler true true)
        (ok true)
        false
        100
        turns
        three_schedules).schedules
    ≡ some (record hourly { last_run = some 103; next_run = 3703; last_error = "queue down" })
unfolding lookup check_and_enqueue new_scheduler may_run get_due_scheduled_tasks next_first
    insert_next is_selected visit_all visit is_due enqueue create_task new_task update_last_run
    get_scheduled_task modify
failed_run = refl

resumed : (enable_scheduled_task false false "paused" three_schedules.schedules).0 ≡ ok tt
unfolding enable_scheduled_task get_scheduled_task save_scheduled_task lookup
resumed = refl

check_and_enqueue-Locked_example :
    check_and_enqueue (new_scheduler true false) (err internal) false 100 turns three_schedules
    ≡ three_schedules
check_and_enqueue-Locked_example =
    check_and_enqueue-Locked false (err internal) false 100 turns three_schedules (ground arith)

check_and_enqueue-Rests_example :
    All
      (λ x.
        Rests 100 x.id
          (check_and_enqueue
            (new_scheduler true true)
            (ok true)
            false
            100
            turns
            three_schedules).schedules)
      (daily ∷ hourly ∷ [])
unfolding may_run new_scheduler
check_and_enqueue-Rests_example =
    check_and_enqueue-Rests (new_scheduler true true) (ok true) 100 turns three_schedules
      {due = daily ∷ hourly ∷ []} refl (λ i. (refl, (refl, (omega arith, omega arith)))) two_due

check_and_enqueue-Adds_example :
    Adds
      (daily ∷ hourly ∷ [])
      []
      (check_and_enqueue (new_scheduler true true) (ok true) false 100 turns three_schedules).tasks
unfolding may_run new_scheduler
check_and_enqueue-Adds_example =
    check_and_enqueue-Adds (new_scheduler true true) (ok true) 100 turns three_schedules
      {due = daily ∷ hourly ∷ []} refl two_due

-- A schedule that is paused can be triggered by hand.
by_hand :
    (trigger_now false false "task" 100 "paused" three_schedules).1.tasks
    ≡ ("task", new_task "task" 100 TaskType.sync_all "team" []) ∷ []
unfolding trigger_now get_scheduled_task create_task new_task enqueue lookup
by_hand = refl

all_paused :
    (disable_scheduled_task false false "hourly" (("hourly", hourly) ∷ [])).1
    ≡ ("hourly", record hourly { enabled = false }) ∷ []
unfolding disable_scheduled_task get_scheduled_task save_scheduled_task put remove lookup
all_paused = refl

deleted_once : (delete_scheduled_task false "daily" (("hourly", hourly) ∷ [])).0 ≡ err not_found
unfolding delete_scheduled_task lookup
deleted_once = refl

by_next_run :
    list_scheduled_tasks false "team" three_schedules.schedules ≡ ok (daily ∷ hourly ∷ paused ∷ [])
unfolding list_scheduled_tasks next_first insert_next
by_next_run = refl

first_run : (new_scheduled_task 100 "new" "New" TaskType.sync_all "team" 3600).next_run ≡ 3700
unfolding new_scheduled_task
first_run = refl

abbrev upcoming : UpcomingJobs
upcoming = record {
  pending_tasks = new_task "task" 100 TaskType.sync_all "team" [] ∷ [];
  scheduled_tasks = daily ∷ hourly ∷ paused ∷ [];
  next_scheduled_run = some 80;
}

upcoming_jobs :
    get_upcoming_jobs false false "team"
      (("task", new_task "task" 100 TaskType.sync_all "team" []) ∷ [])
      three_schedules.schedules
    ≡ ok upcoming
unfolding get_upcoming_jobs new_upcoming_jobs earliest list_tasks page newest_first insert_newest
    selected fits same_status new_task list_scheduled_tasks next_first insert_next
upcoming_jobs = refl

get_upcoming_jobs-NotBefore_example :
    (All (IsPendingOf "team") upcoming.pending_tasks × NewestFirst upcoming.pending_tasks)
    × ((1
          ≡ min 20
              (waiting_of "team" (("task", new_task "task" 100 TaskType.sync_all "team" []) ∷ [])))
        × ((at : ℕ) → NotBefore at (some 80) ↔ AllFrom at (daily ∷ hourly ∷ paused ∷ [])))
get_upcoming_jobs-NotBefore_example =
    get_upcoming_jobs-NotBefore false false "team"
      (("task", new_task "task" 100 TaskType.sync_all "team" []) ∷ []) three_schedules.schedules
      {u = upcoming} upcoming_jobs
