-- ===== src/Tasks/Tests.antt =====
-- Tasks at which the theorems about core/domain/task.go and adapters/driven/queue/postgres/queue.go
-- apply.
use Prim.Native.Nat.{min}
use sercha_core.Base.{
  ◌+◌, ◌*◌, ◌^◌, true, false, ◌≡◌, ◌≢◌, refl, none, some, List, [], ◌∷◌, Rows, ok, pos, negsuc, ltb,
  if◌then◌else◌, lookup, modify, keep, contains, arith, ◌≤◌,
}
use sercha_core.Tasks.Domain.{
  TaskType, TaskStatus, Task, is_pending, is_over, mark_processing, mark_completed, retry,
  raw_backoff, backoff, is_negative, second, max_backoff, add_duration,
}
use sercha_core.Tasks.Backoff.{retry_after}
use sercha_core.Tasks.Queue.{
  Tasks, cutoff, precedes, next_of, waits, dequeue, nack, enqueue_batch, purge_tasks, ack,
}
use sercha_core.Tasks.Queue.History.{Op, enqueues, dequeues, acks, nacks, run, step}
use sercha_core.Tasks.Queue.History.Bounded.{InBounds, run-InBounds}
use sercha_core.Tasks.Queue.History.Exclusive.{Taken, dequeue-Taken, dequeue_once}
use sercha_core.Tasks.Queue.Purge.{Purged, purge_tasks-Purged}
use sercha_core.Tasks.Queue.Settle.{
  Settles, settled, nack-Settles, AllOrNothing, enqueue_batch-AllOrNothing,
}
use sercha_core.Tasks.Reports.{
  TaskFilter, QueueStats, stats, read_counts, count_status, selected, same_status, oldest,
  list_tasks, count_tasks, page, newest_first, insert_newest, fits,
}
use sercha_core.Tasks.Reports.Counts.{count_in, arrives, tasks_with, stats-tasks}
use sercha_core.Tasks.Reports.Pages.{NewestFirst, page_length, list_tasks-NewestFirst}
use sercha_core.Tasks.Jobs.{JobHistory, new_job_history, clamped, list_jobs, list_jobs-has_more}
use sercha_core.Tasks.Totals.{
  AnalyticsPeriod, JobCounts, in_period, count_filter, sum_retries, get_job_counts, IsCounts,
  get_job_counts-IsCounts,
}

-- Past 33 attempts the shift and the product leave the 63 bits: the task is due in the past.
backoff_overflow : is_negative (backoff 34) ≡ true
unfolding backoff raw_backoff
backoff_overflow = refl

abbrev task_a : Task
task_a = record {
  id = "a";
  type = TaskType.sync_all;
  team_id = "team";
  payload = [];
  status = TaskStatus.pending;
  priority = pos 0;
  attempts = 0;
  max_attempts = 3;
  error = "";
  created_at = 10;
  updated_at = 10;
  started_at = none;
  completed_at = none;
  scheduled_for = 10;
}

abbrev task_b : Task
task_b = record task_a { id = "b"; priority = pos 5; created_at = 20 }

abbrev task_c : Task
task_c = record task_a { id = "c"; status = TaskStatus.completed; attempts = 1 }

abbrev stored : Tasks
stored = ("a", task_a) ∷ ("b", task_b) ∷ ("c", task_c) ∷ []

retry_after_example :
    (retry 100 "timeout" (record task_a { attempts = 2 })).scheduled_for
    ≡ 100 + min (2 ^ 2 * second) max_backoff
retry_after_example = retry_after 100 "timeout" (record task_a { attempts = 2 }) (ground arith)

abbrev taken_b : Task
taken_b = record task_b {
  status = TaskStatus.processing;
  attempts = 1;
  started_at = some 31;
  updated_at = 31;
}

abbrev after_b : Tasks
after_b = ("a", task_a) ∷ ("b", taken_b) ∷ ("c", task_c) ∷ []

b_first : dequeue false [] 30 31 stored ≡ (ok (some taken_b), after_b)
unfolding dequeue next_of waits precedes is_pending contains mark_processing modify
b_first = refl

dequeue-Taken_example : Taken [] 30 31 stored taken_b after_b
unfolding lookup
dequeue-Taken_example =
    dequeue-Taken false [] 30 31 stored after_b taken_b
      (refl, (refl, (refl, (refl, (refl, (refl, tt)))))) b_first

abbrev taken_a : Task
taken_a = record task_a {
  status = TaskStatus.processing;
  attempts = 1;
  started_at = some 33;
  updated_at = 33;
}

abbrev after_both : Tasks
after_both =
    ("a", taken_a)
    ∷ (
      "b",
      record taken_b { status = TaskStatus.completed; completed_at = some 32; updated_at = 32 },
    )
    ∷ ("c", task_c)
    ∷ []

a_next :
    dequeue false [] 32 33 (run (acks false 32 "b" ∷ []) after_b) ≡ (ok (some taken_a), after_both)
unfolding run step ack lookup mark_completed dequeue next_of waits precedes is_pending contains
    mark_processing modify
a_next = refl

dequeue_once_example : taken_a.id ≢ taken_b.id
unfolding lookup
dequeue_once_example =
    dequeue_once false false [] [] 30 31 32 33 stored after_b after_both taken_b taken_a
      (acks false 32 "b" ∷ []) (refl, (refl, (refl, (refl, (refl, (refl, tt)))))) b_first (tt, tt)
      a_next

abbrev busy_ops : List Op
busy_ops =
    enqueues false task_a
    ∷ dequeues false [] 30 31
    ∷ nacks false false 32 "a" "timeout"
    ∷ dequeues false [] 90_000_000_000 90_000_000_000
    ∷ []

run-InBounds_example : Rows (λ k t. InBounds t) (run busy_ops [])
run-InBounds_example =
    run-InBounds busy_ops ((ground arith, λ e. ground arith), (tt, (tt, (tt, tt))))

nack-Settles_example :
    Settles "b" (settled 40 "timeout" taken_b) after_b (nack false false 40 "b" "timeout" after_b)
unfolding lookup
nack-Settles_example = nack-Settles 40 "b" "timeout" after_b {t = taken_b} refl

purged : purge_tasks false 3_000_000_000 1 stored ≡ (ok 1, ("a", task_a) ∷ ("b", task_b) ∷ [])
unfolding purge_tasks cutoff add_duration keep is_over
purged = refl

-- For an age beyond that the cutoff wraps around into the future: a task is purged in its first second.
cutoff_overflow : ltb 5 (cutoff 5 9_223_372_037) ≡ true
unfolding cutoff add_duration
cutoff_overflow = refl

purge_tasks-Purged_example : Purged 3_000_000_000 1 stored (("a", task_a) ∷ ("b", task_b) ∷ []) 1
unfolding lookup
purge_tasks-Purged_example =
    purge_tasks-Purged false 3_000_000_000 1 1 stored (("a", task_a) ∷ ("b", task_b) ∷ [])
      (omega arith) (refl, (refl, (refl, (refl, (refl, (refl, tt)))))) purged

enqueue_batch-AllOrNothing_example :
    AllOrNothing
      (task_b ∷ task_a ∷ [])
      stored
      (enqueue_batch false (task_b ∷ task_a ∷ []) stored).0
      (enqueue_batch false (task_b ∷ task_a ∷ []) stored).1
enqueue_batch-AllOrNothing_example = enqueue_batch-AllOrNothing false (task_b ∷ task_a ∷ []) stored

abbrev all_of_team : TaskFilter
all_of_team = record { team_id = "team"; status = none; type = none; limit = 0; offset = 2 }

abbrev counted : QueueStats
counted = record {
  pending_count = 2;
  processing_count = 0;
  completed_count = 1;
  failed_count = 0;
  oldest_pending_age = 3;
}

abbrev all_statuses : List TaskStatus
all_statuses =
    TaskStatus.completed ∷ TaskStatus.pending ∷ TaskStatus.processing ∷ TaskStatus.failed ∷ []

stats_of_three : stats false (ok all_statuses) false 3_000_000_010 stored ≡ ok counted
unfolding stats read_counts count_status selected same_status oldest
stats_of_three = refl

-- Where the rows break off behind the first, two pending tasks are counted as none.
stats_broken_off :
    stats false (ok (TaskStatus.completed ∷ [])) false 3_000_000_010 stored
    ≡ ok (record counted { pending_count = 0 })
unfolding stats read_counts count_status selected same_status oldest
stats_broken_off = refl

stats-tasks_example :
    ((status : TaskStatus)
      → count_in status counted
        ≡ (if arrives status all_statuses then tasks_with status stored else 0))
    × (((status : TaskStatus) → arrives status all_statuses ≡ true) → 2 + (0 + (1 + 0)) ≡ 3)
stats-tasks_example =
    stats-tasks false false all_statuses 3_000_000_010 stored {s = counted} stats_of_three

last_page : list_tasks false all_of_team stored ≡ ok (task_c ∷ [])
unfolding list_tasks page newest_first insert_newest selected fits
last_page = refl

three_fit : count_tasks false all_of_team stored ≡ ok 3
unfolding count_tasks selected fits
three_fit = refl

list_tasks-NewestFirst_example : NewestFirst (task_c ∷ []) × (1 ≡ page_length all_of_team 3)
list_tasks-NewestFirst_example =
    list_tasks-NewestFirst false false all_of_team stored {ts = task_c ∷ []} {n = 3} last_page
      three_fit

abbrev last_history : JobHistory
last_history = record { jobs = task_c ∷ []; total_count = 3; has_more = true }

last_jobs : list_jobs false false all_of_team stored ≡ ok last_history
unfolding list_jobs clamped new_job_history list_tasks count_tasks page newest_first insert_newest
    selected fits
last_jobs = refl

list_jobs-has_more_example : (true ≡ true) × (1 ≤ 100)
list_jobs-has_more_example =
    list_jobs-has_more false false all_of_team stored {h = last_history} last_jobs (ground arith)
      (ground arith)

-- Two tasks that were not attempted: their retries are -2.
abbrev first_counts : JobCounts
first_counts = record {
  total_jobs = 2;
  pending_jobs = 2;
  processing_jobs = 0;
  completed_jobs = 0;
  failed_jobs = 0;
  total_retries = negsuc 1;
}

abbrev first_period : AnalyticsPeriod
first_period = record { start = 10; end = 20 }

abbrev two_tasks : Tasks
two_tasks = ("a", task_a) ∷ ("b", task_b) ∷ []

two_counted : get_job_counts false "team" first_period two_tasks ≡ ok first_counts
unfolding get_job_counts selected in_period count_filter sum_retries same_status
two_counted = refl

get_job_counts-IsCounts_example : IsCounts "team" first_period two_tasks first_counts
get_job_counts-IsCounts_example =
    get_job_counts-IsCounts false "team" first_period two_tasks {c = first_counts} two_counted
