-- ===== src/Tasks/Queue/History.antt =====
-- Histories of the task queue (adapters/driven/queue/postgres/queue.go): its calls, by any number of
-- workers, in any order and with any outcome. A Nack is one step here.
pub mod Closure
pub mod Bounded
pub mod Exclusive
use mathlib.Core.Path.{subst}
use sercha_core.Base.{
  ℕ, String, Bool, true, false, ◌≡◌, refl, inl, inr, Option, none, some, List, [], ◌∷◌, All, lookup,
  exists_in, modify, keep, Rows, Rows-keep, Bool-cases, Option-cases, arith, if◌then◌else◌,
}
use sercha_core.Tasks.Domain.{
  Task, TaskStatus, pending, is_pending, can_retry, mark_processing, mark_completed, mark_failed,
  retry,
}
use sercha_core.Tasks.Queue.{
  Tasks, inserted, insert_all, waits, taken, next_of, cancelled, is_cancellable, committed, enqueue,
  enqueue_batch, dequeue, ack, nack, nack_update, get_task, cancel_task, purge_tasks,
}
use sercha_core.Tasks.Queue.Keyed.{
  IsKeyed, IsKeyed-modify, IsKeyed-keep, Rows-modify_found, next_of-IsNext, lookup_id,
}

pub data Op : Type 0 where
  enqueues : Bool → Task → Op
  enqueues_batch : Bool → List Task → Op
  dequeues : Bool → List String → ℕ → ℕ → Op
  acks : Bool → ℕ → String → Op
  nacks : Bool → Bool → ℕ → String → String → Op
  cancels : Bool → ℕ → String → Op
  purges : Bool → ℕ → ℕ → Op

-- The table after a call, whatever it returned.
unfoldable pub step : Op → Tasks → Tasks
step (enqueues down t) db = (enqueue down t db).1
step (enqueues_batch down ts) db = (enqueue_batch down ts db).1
step (dequeues down locked at now) db = (dequeue down locked at now db).1
step (acks down now id) db = (ack down now id db).1
step (nacks down down' now id reason) db = (nack down down' now id reason db).1
step (cancels down now id) db = (cancel_task down now id db).1
step (purges down now older_than) db = (purge_tasks down now older_than db).1

unfoldable pub run : List Op → Tasks → Tasks
run [] db = db
run (op ∷ ops) db = run ops (step op db)
