-- ===== src/Tasks/Redis/Cancels.antt =====
-- CancelTask and what the queue still delivers, adapters/driven/queue/redis/queue.go.
use sercha_core.Base.{
  ℕ, ◌+◌, ◌/◌, String, true, ◌≡◌, refl, some, List, [], ◌∷◌, Table, remove, put, lookup, lookup-put,
  ok, leb, eq_refl, arith, Bool-cases, inl, inr,
}
use sercha_core.Tasks.Domain.{Task, second, is_pending, mark_processing}
use sercha_core.Tasks.Redis.{ttl, live, get_task, cancelled, cancel_task}
use sercha_core.Tasks.Redis.Reading.{
  insert_score, due, promotions, promote_scheduled_tasks, idle_ids, claim_first,
  claim_abandoned_task, deliver, dequeue_with_timeout,
}
use sercha_core.Tasks.Redis.Store.{Message, Server, run_command, run_commands, exec, read_group}
use sercha_core.Tasks.Redis.Waits.Faultless.{no_faults}

inserted : (now : ℕ) (e : String × ℕ) (es : Table ℕ) → insert_score e es ≡ [] → ⊥
unfolding insert_score
inserted now e [] h = ground arith
inserted now e (d ∷ es) h = ground arith

due-remove : (now : ℕ) (id : String) (es : Table ℕ) → due now es ≡ [] → due now (remove id es) ≡ []
unfolding due insert_score remove
due-remove now id [] h = refl
due-remove now id (e ∷ es) h = elim (Bool-cases (leb e.1 now)) [
  | inl is_due ↦ absurd (inserted now e (due now es) (ground arith))
  | inr later ↦ ground (arith, due-remove now id es)
]

stored :
    (now : ℕ) (id : String) (t : Task) (db : Table (Task × ℕ))
    → live now (lookup id (put id (t, now + ttl) db)) ≡ some t
stored now id t db = ground (arith, lookup-put id id (t, now + ttl) db, eq_refl id)

-- Where the server answers and no task is due or abandoned: a pending task whose message is the next
-- of the stream is cancelled without an error, and the next dequeue still returns it, marked as
-- processing.
pub cancel_task-dequeue :
    (now : ℕ) (id : String) (m : ℕ) (ms : List Message) (t : Task) (s : Server)
    → live now (lookup id s.tasks) ≡ some t
    → is_pending t.status ≡ true
    → s.unread ≡ record { msg_id = m; task_id = some id } ∷ ms
    → due (now / second) s.delayed ≡ []
    → idle_ids now s.deliveries ≡ []
    → (let r = cancel_task no_faults now id s in
        (r.0 ≡ ok tt)
        × ((dequeue_with_timeout no_faults now r.1).0
            ≡ ok (some (mark_processing now (cancelled now t)))))
unfolding cancel_task get_task run_commands run_command dequeue_with_timeout promote_scheduled_tasks
    exec claim_abandoned_task claim_first read_group deliver promotions
cancel_task-dequeue now id m ms t s found waits next none_due none_idle =
    rw
      (
        found,
        waits,
        due-remove (now / second) id s.delayed none_due,
        none_idle,
        next,
        stored now id (cancelled now t) s.tasks,
      )
      (refl, refl)
