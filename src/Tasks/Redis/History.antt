-- ===== src/Tasks/Redis/History.antt =====
-- Histories of the Redis queue (adapters/driven/queue/redis/queue.go): its operations, by any number
-- of workers, with what fails in each and the time that has passed before it.
use sercha_core.Base.{
  ℕ, ◌+◌, String, true, false, ◌≡◌, List, [], ◌∷◌, All, lookup, Option-cases, inl, inr, arith,
}
use sercha_core.Tasks.Domain.{Task}
use sercha_core.Tasks.Redis.{Faults, enqueue, enqueue_batch, ack, nack, cancel_task, purge_tasks}
use sercha_core.Tasks.Redis.Reading.{dequeue_with_timeout}
use sercha_core.Tasks.Redis.Store.{Server, empty_server}
use sercha_core.Tasks.Redis.Names.{empty-Named}
use sercha_core.Tasks.Redis.Tracks.{needed, Tracked, Safe, is_whole}
use sercha_core.Tasks.Redis.Entries.{PromotesAll, enqueue-Safe, enqueue_batch-Safe}
use sercha_core.Tasks.Redis.Deliveries.{ClaimsAll, dequeue_with_timeout-Safe}
use sercha_core.Tasks.Redis.Settled.{ack-Safe, nack-Safe}
use sercha_core.Tasks.Redis.Removals.{cancel_task-Safe, purge_tasks-Safe}

pub data Op : Type 0 where
  enqueues : Task → Op
  enqueues_batch : List Task → Op
  dequeues : Op
  acks : String → Op
  nacks : String → String → Op
  cancels : String → Op
  purges : ℕ → Op

-- An operation, what fails in it, and the time since the one before.
pub record Step : Type 0 where
  pub waited : ℕ
  pub faults : Faults
  pub op : Op

unfoldable pub step : Faults → ℕ → Op → Server → Server
step f now (enqueues t) s = (enqueue f now t s).1
step f now (enqueues_batch ts) s = (enqueue_batch f now ts s).1
step f now dequeues s = (dequeue_with_timeout f now s).1
step f now (acks id) s = (ack f now id s).1
step f now (nacks id reason) s = (nack f now id reason s).1
step f now (cancels id) s = (cancel_task f now id s).1
step f now (purges older_than) s = (purge_tasks f now older_than s).1

unfoldable pub run : ℕ → List Step → Server → Server
run now [] s = s
run now (p ∷ ps) s = run (now + p.waited) ps (step p.faults (now + p.waited) p.op s)

abbrev pub time_after : ℕ → List Step → ℕ
time_after now [] = now
time_after now (p ∷ ps) = time_after (now + p.waited) ps

-- A pipeline arrives whole or not at all, except in a dequeue, where any part of it may arrive; a
-- task's record can be read where a dequeue promotes or claims it, and where it is acknowledged.
abbrev pub IsSound : Faults → Op → Type 0
IsSound f (enqueues t) = is_whole f.cut ≡ true
IsSound f (enqueues_batch ts) = is_whole f.cut ≡ true
IsSound f dequeues = PromotesAll f × ClaimsAll f
IsSound f (acks id) = (is_whole f.cut ≡ true) × (f.get_fails id ≡ false)
IsSound f (nacks id reason) = is_whole f.cut ≡ true
IsSound f (cancels id) = is_whole f.cut ≡ true
IsSound f (purges older_than) = Unit

step-Safe :
    (f : Faults) (now : ℕ) (op : Op) (s : Server)
    → IsSound f op
    → Safe now s
    → Safe now (step f now op s)
unfolding step
step-Safe f now (enqueues t) s sound safe = enqueue-Safe f now t s sound safe
step-Safe f now (enqueues_batch ts) s sound safe = enqueue_batch-Safe f now ts s sound safe
step-Safe f now dequeues s sound safe = dequeue_with_timeout-Safe f now sound.1 s sound.0 safe
step-Safe f now (acks id) s sound safe = ack-Safe f now id s sound.0 sound.1 safe
step-Safe f now (nacks id reason) s sound safe = nack-Safe f now id reason s sound safe
step-Safe f now (cancels id) s sound safe = cancel_task-Safe f now id s sound safe
step-Safe f now (purges older_than) s sound safe = purge_tasks-Safe f now older_than s safe

-- What the store has later, it has now.
later-needed :
    (now wait : ℕ) (id : String) (s : Server)
    → needed (now + wait) id s ≡ true
    → needed now id s ≡ true
unfolding needed
later-needed now wait id s h = elim (Option-cases (lookup id s.tasks)) [
  | inl nothing ↦ ground arith
  | inr ((t, e), found) ↦ ground arith
]

nothing_needed : (now : ℕ) (id : String) → needed now id empty_server ≡ true → ⊥
unfolding needed lookup
nothing_needed now id h = ground arith

run-Safe :
    (now : ℕ) (ps : List Step) (s : Server)
    → All (λ p. IsSound p.faults p.op) ps
    → Safe now s
    → Safe (time_after now ps) (run now ps s)
unfolding run
run-Safe now [] s sound safe = safe
run-Safe now (p ∷ ps) s sound safe =
    run-Safe (now + p.waited) ps (step p.faults (now + p.waited) p.op s) sound.1 (
      step-Safe p.faults (now + p.waited) p.op s sound.0
        (safe.0, λ id need. safe.1 id (later-needed now p.waited id s need)))

-- From an empty store, in every history in which pipelines arrive whole or not at all (those of a
-- dequeue in any part) and the records of tasks can be read where a dequeue promotes or claims them
-- and where a task is acknowledged, whatever else fails, every task that the store has at the end and
-- that is neither completed nor failed is in the sorted set, or has a message in the stream that was
-- not read, or one that was read and is not acknowledged: no task is lost.
pub run-Tracked :
    (now : ℕ) (ps : List Step)
    → All (λ p. IsSound p.faults p.op) ps
    → Tracked (time_after now ps) (run now ps empty_server)
unfolding needed
run-Tracked now ps sound =
    (run-Safe now ps empty_server sound
      (empty-Named, λ id need. absurd (nothing_needed now id need))).1
