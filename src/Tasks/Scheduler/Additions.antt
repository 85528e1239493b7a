-- ===== src/Tasks/Scheduler/Additions.antt =====
-- The tasks that a cycle of core/services/scheduler.go puts into the queue.
use mathlib.Core.Path.{subst}
use sercha_core.Base.{
  ℕ, suc, Bool, true, false, ◌≡◌, refl, inl, inr, ◌⊎◌, List, [], ◌∷◌, Result, ok, arith,
}
use sercha_core.Tasks.Domain.{Task, pending, new_task}
use sercha_core.Tasks.Queue.{Tasks, enqueue, inserted}
use sercha_core.Tasks.Schedules.{ScheduledTask, is_due, get_due_scheduled_tasks}
use sercha_core.Tasks.Scheduler.{
  Scheduler, SchedulerState, Turn, visit, visit_all, create_task, may_run, check_and_enqueue,
}

-- A new task of the schedule's type and team that waits for its first attempt.
pub record IsRun (s : ScheduledTask) (t : Task) : Type 0 where
  pub enabled : s.enabled ≡ true
  pub same_type : t.type ≡ s.type
  pub same_team : t.team_id ≡ s.team_id
  pub waits : t.status ≡ pending
  pub unattempted : t.attempts ≡ 0

-- The queue grows by at most one task for each of the schedules, in their order.
pub data Adds : List ScheduledTask → Tasks → Tasks → Type 0 where
  done : {db : Tasks} → Adds [] db db
  passed :
      {s : ScheduledTask} {ss : List ScheduledTask} {db db' : Tasks}
      → Adds ss db db'
      → Adds (s ∷ ss) db db'
  queued :
      {s : ScheduledTask} {ss : List ScheduledTask} {t : Task} {db db' : Tasks}
      → IsRun s t
      → Adds ss ((t.id, t) ∷ db) db'
      → Adds (s ∷ ss) db db'

is_due-enabled : (now : ℕ) (s : ScheduledTask) → is_due now s ≡ true → s.enabled ≡ true
unfolding is_due
is_due-enabled now s h = ground arith

abbrev task_of : Turn → ScheduledTask → Task
task_of turn s = inserted (create_task turn.task_id turn.created_at s)

created-IsRun : (turn : Turn) (s : ScheduledTask) → s.enabled ≡ true → IsRun s (task_of turn s)
unfolding create_task new_task
created-IsRun turn s h = record {
  enabled = h;
  same_type = refl;
  same_team = refl;
  waits = refl;
  unattempted = refl;
}

-- Visiting a schedule leaves the queue as it is, or adds the schedule's new task.
visit-cases :
    (turn : Turn) (s : ScheduledTask) (st : SchedulerState)
    → ((visit turn s st).tasks ≡ st.tasks)
      ⊎ ((is_due turn.seen_at s ≡ true)
          × ((visit turn s st).tasks ≡ ((task_of turn s).id, task_of turn s) ∷ st.tasks))
unfolding visit enqueue create_task new_task is_due
visit-cases turn s st = ground arith

visit_all-Adds :
    (turns : ℕ → Turn) (i : ℕ) (ss : List ScheduledTask) (st : SchedulerState)
    → Adds ss st.tasks (visit_all turns i ss st).tasks
unfolding visit_all
visit_all-Adds turns i [] st = done
visit_all-Adds turns i (s ∷ ss) st =
    let next = visit (turns i) s st in
    let rest = visit_all-Adds turns (suc i) ss next in
    elim (visit-cases (turns i) s st) [
      | inl same ↦
          passed
            (subst (λ (db : Tasks). Adds ss db (visit_all turns (suc i) ss next).tasks) same rest)
      | inr grown ↦
          queued (created-IsRun (turns i) s (is_due-enabled (turns i).seen_at s grown.0)) (
            subst (λ (db : Tasks). Adds ss db (visit_all turns (suc i) ss next).tasks) grown.1 rest)
    ]

-- In a cycle that gets to the due schedules, whatever fails later, the queue grows by at most one
-- task for each of them, in their order: a new one of the schedule's type and team, and only for an
-- enabled schedule. The tasks that were there stay as they are.
pub check_and_enqueue-Adds :
    (s : Scheduler) (lock : Result Bool) (now : ℕ) (turns : ℕ → Turn) (st : SchedulerState)
    {due : List ScheduledTask}
    → may_run s lock ≡ true
    → get_due_scheduled_tasks false now st.schedules ≡ ok due
    → Adds due st.tasks (check_and_enqueue s lock false now turns st).tasks
unfolding check_and_enqueue
check_and_enqueue-Adds s lock now turns st {due} runs e =
    rw runs (rw e (visit_all-Adds turns 0 due st))
