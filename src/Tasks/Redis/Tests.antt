-- ===== src/Tasks/Redis/Tests.antt =====
-- Runs of the queue of adapters/driven/queue/redis/queue.go.
use sercha_core.Base.{
  arith, ℕ, ◌*◌, ◌+◌, true, false, ◌≡◌, refl, some, List, [], ◌∷◌, map, ok, lookup, put, remove,
}
use sercha_core.Tasks.Domain.{
  Task, sync_all, new_task, second, mark_processing, add_duration, backoff, raw_backoff, can_retry,
  is_over, mark_completed, retry, is_pending,
}
use sercha_core.Tasks.Redis.{
  Faults, nack, ack, purge_tasks, purge_keys, all_entering, enqueue_batch, entering, get_task,
  settling, enqueue, cancelled, cancel_task,
}
use sercha_core.Tasks.Redis.Reading.{
  claim_abandoned_task, claim_first, idle_ids, promote_scheduled_tasks, promotions, due,
  insert_score, deliver, discard, dequeue_with_timeout,
}
use sercha_core.Tasks.Redis.Store.{
  Server, empty_server, exec, run_commands, run_command, delivered_again, drop_delivery,
  drop_message, find_message, held, read_group, x_claim,
}
use sercha_core.Tasks.Redis.Tracks.{Tracked, needed}
use sercha_core.Tasks.Redis.History.{
  Step, enqueues, enqueues_batch, dequeues, acks, nacks, purges, step, run, time_after, run-Tracked,
}
use sercha_core.Tasks.Redis.Waits.{dequeue-reaches}
use sercha_core.Tasks.Redis.Waits.Faultless.{no_faults, after_dequeues}
use sercha_core.Tasks.Redis.Cancels.{cancel_task-dequeue}

abbrev noon : ℕ
noon = 100_000 * second

abbrev first : Task
first = new_task "a" noon sync_all "team" []

abbrev next_task : Task
next_task = new_task "b" noon sync_all "team" []

abbrev late : Task
late = record (new_task "c" noon sync_all "team" []) { scheduled_for = noon + 60 * second }

-- A dequeue that loses its pipeline after one command, its writes and a part of its claims.
abbrev broken : Faults
broken = record no_faults {
  read_fails = false;
  get_fails = λ _. true;
  claim_fails = λ m. true;
  set_fails = true;
  cut = some 1;
}

abbrev history : List Step
history =
    record { waited = 0; faults = no_faults; op = enqueues_batch (first ∷ (next_task ∷ [])) }
    ∷ (record { waited = 0; faults = no_faults; op = enqueues late }
        ∷ (record { waited = second; faults = no_faults; op = dequeues }
            ∷ (record { waited = second; faults = broken; op = dequeues }
                ∷ (record {
                  waited = second;
                  faults = no_faults;
                  op = nacks "a" "the source is away";
                }
                    ∷ (record { waited = 100 * second; faults = broken; op = dequeues }
                        ∷ (record { waited = 400 * second; faults = no_faults; op = dequeues }
                            ∷ (record { waited = second; faults = no_faults; op = acks "b" }
                                ∷ (record { waited = second; faults = no_faults; op = purges 0 }
                                    ∷ []))))))))

-- At the end the tasks "a" and "c" still wait, and "b" is completed and purged.
history_needs :
    map
      (λ id. needed (time_after noon history) id (run noon history empty_server))
      ("a" ∷ ("b" ∷ ("c" ∷ [])))
    ≡ true ∷ (false ∷ (true ∷ []))
unfolding needed lookup run step nack ack purge_tasks purge_keys exec run_commands run_command
    dequeue_with_timeout claim_abandoned_task claim_first idle_ids promote_scheduled_tasks
    promotions due insert_score put remove add_duration backoff raw_backoff can_retry is_over
    mark_processing mark_completed retry delivered_again drop_delivery drop_message find_message
    held read_group x_claim all_entering deliver discard enqueue enqueue_batch entering get_task
    settling new_task
history_needs = refl

-- Two tasks that were enqueued.
abbrev filled : Server
filled = record empty_server {
  tasks =
      ("b", (next_task, noon + 86_400 * second)) ∷ (("a", (first, noon + 86_400 * second)) ∷ []);
  unread =
      record { msg_id = 0; task_id = some "a" } ∷ (record { msg_id = 1; task_id = some "b" } ∷ []);
  next_id = 2;
}

filled_by : run_commands (all_entering noon (first ∷ (next_task ∷ []))) empty_server ≡ filled
unfolding all_entering entering new_task run_commands run_command put remove
filled_by = refl

run-Tracked_example : Tracked (time_after noon history) (run noon history empty_server)
run-Tracked_example = run-Tracked noon history (
  refl,
  (
    refl,
    (
      ((λ _. refl), λ _. refl),
      (
        ((λ _. refl), λ _. refl),
        (refl, (((λ _. refl), λ _. refl), (((λ _. refl), λ _. refl), ((refl, refl), (tt, tt))))),
      ),
    ),
  ),
)

-- The message of the second task has one before it.
dequeue-reaches_example :
    (u : Task) × (((dequeue_with_timeout no_faults
          (noon + 2 * second)
          (after_dequeues ((noon + second) ∷ []) filled)).0
        ≡ ok (some u))
      × (u.id ≡ "b"))
unfolding lookup new_task
dequeue-reaches_example =
    dequeue-reaches noon (noon + 2 * second) ((noon + second) ∷ []) "b"
      (record { msg_id = 1; task_id = some "b" }) (record { msg_id = 0; task_id = some "a" } ∷ [])
      [] filled ((omega arith, omega arith), ((omega arith, omega arith), tt)) refl refl refl
      (tt, (next_task, (noon + 86_400 * second, (refl, (refl, omega arith)))))

cancel_task-dequeue_example :
    (let r = cancel_task no_faults noon "a" filled in
      (r.0 ≡ ok tt)
      × ((dequeue_with_timeout no_faults noon r.1).0
          ≡ ok (some (mark_processing noon (cancelled noon first)))))
unfolding lookup new_task is_pending due idle_ids
cancel_task-dequeue_example =
    cancel_task-dequeue noon "a" 0 (record { msg_id = 1; task_id = some "b" } ∷ []) first filled
      refl refl refl refl refl
