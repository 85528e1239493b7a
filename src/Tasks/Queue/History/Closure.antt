-- ===== src/Tasks/Queue/History/Closure.antt =====
-- A predicate of tasks that every call of the queue keeps holds throughout every history
-- (adapters/driven/queue/postgres/queue.go).
use mathlib.Core.Path.{subst}
use sercha_core.Base.{
  ℕ, String, Bool, true, false, ◌≡◌, refl, inl, inr, some, List, [], ◌∷◌, All, lookup, exists_in,
  modify, Rows, Rows-keep, Bool-cases, Option-cases, arith,
}
use sercha_core.Tasks.Domain.{
  Task, is_pending, can_retry, mark_processing, mark_completed, mark_failed, add_duration,
}
use sercha_core.Tasks.Queue.{
  Tasks, inserted, insert_all, waits, next_of, cancelled, enqueue, enqueue_batch, dequeue, ack,
  nack, nack_update, nack_backoff, set_retried, set_failed, get_task, cancel_task, purge_tasks,
}
use sercha_core.Tasks.Queue.Keyed.{
  IsKeyed, IsKeyed-modify, IsKeyed-keep, Rows-modify_found, next_of-IsNext,
}
use sercha_core.Tasks.Queue.History.{
  Op, enqueues, enqueues_batch, dequeues, acks, nacks, cancels, purges, step, run,
}

-- What a Nack that retries writes into the row of its task.
abbrev pub renewed : ℕ → String → Task → Task → Task
renewed now reason t u = set_retried now reason (add_duration now (nack_backoff t.attempts)) u

-- A predicate of rows that every call keeps, if the tasks that enter satisfy `Enters` and the IDs that
-- a Nack may retry satisfy `Renews`.
pub record IsClosed (P : String → Task → Type 0) (Enters : Task → Type 0) (Renews : String → Type 0)
    : Type 0 where
  pub enter : (t : Task) → Enters t → P t.id (inserted t)
  pub take :
      (k : String) (now : ℕ) (t : Task)
      → is_pending t.status ≡ true
      → P k t
      → P k (mark_processing now t)
  pub complete : (k : String) (now : ℕ) (t : Task) → P k t → P k (mark_completed now t)
  pub renew :
      (k : String) (now : ℕ) (reason : String) (t : Task)
      → Renews k
      → can_retry t ≡ true
      → P k t
      → P k (renewed now reason t t)
  pub give_up :
      (k : String) (now : ℕ) (reason : String) (t : Task) → P k t → P k (mark_failed now reason t)
  pub cancel : (k : String) (now : ℕ) (t : Task) → P k t → P k (cancelled now t)

abbrev pub Fits : (Task → Type 0) → (String → Type 0) → Op → Type 0
Fits Enters Renews (enqueues down t) = Enters t
Fits Enters Renews (enqueues_batch down ts) = All Enters ts
Fits Enters Renews (nacks down down' now id reason) = Renews id
Fits Enters Renews _ = Unit

module _ (P : String → Task → Type 0) (Enters : Task → Type 0) (Renews : String → Type 0)
    (k : IsClosed P Enters Renews) where
  -- The table is keyed and every row satisfies the predicate.
  abbrev pub Sound : Tasks → Type 0
  Sound db = IsKeyed db × Rows P db

  Sound-enter :
      (t : Task) (db : Tasks)
      → Enters t
      → exists_in t.id db ≡ false
      → Sound db
      → Sound ((t.id, inserted t) ∷ db)
  Sound-enter t db fits fresh h = ((refl, (ground arith, h.0)), (k.enter t fits, h.1))

  Sound-insert_all :
      (ts : List Task) (db : Tasks) {db' : Tasks}
      → All Enters ts
      → insert_all ts db ≡ some db'
      → Sound db
      → Sound db'
  unfolding insert_all
  Sound-insert_all [] db fits e h = subst Sound (ground arith) h
  Sound-insert_all (t ∷ ts) db fits e h = elim (Bool-cases (exists_in t.id db)) [
    | inl there ↦ absurd (ground arith)
    | inr fresh ↦
        Sound-insert_all ts ((t.id, inserted t) ∷ db) fits.1 (ground arith)
          (Sound-enter t db fits.0 fresh h)
  ]

  Sound-modify :
      (id : String) (f : Task → Task) (db : Tasks) {t : Task}
      → ((u : Task) → (f u).id ≡ u.id)
      → lookup id db ≡ some t
      → (P id t → P id (f t))
      → Sound db
      → Sound (modify id f db)
  Sound-modify id f db same found g h =
      (IsKeyed-modify id f db same h.0, Rows-modify_found P id f db h.0 found g h.1)

  Sound-nack :
      (down : Bool) (now : ℕ) (reason id : String) (t : Task) (db : Tasks)
      → Renews id
      → lookup id db ≡ some t
      → Sound db
      → Sound (nack_update down now id reason t db).1
  unfolding nack_update
  Sound-nack true now reason id t db fits found h = h
  Sound-nack false now reason id t db fits found h = elim (Bool-cases (can_retry t)) [
    | inl again ↦ rw again (
        Sound-modify id (renewed now reason t) db (λ u. refl) found
          (k.renew id now reason t fits again) h)
    | inr over ↦ rw over (
        Sound-modify id (set_failed now reason) db (λ u. refl) found
          (unfold mark_failed in k.give_up id now reason t) h)
  ]

  enqueue-Sound :
      (down : Bool) (t : Task) (db : Tasks) → Enters t → Sound db → Sound (enqueue down t db).1
  unfolding enqueue
  enqueue-Sound true t db fits h = h
  enqueue-Sound false t db fits h = elim (Bool-cases (exists_in t.id db)) [
    | inl there ↦ rw there h
    | inr fresh ↦ rw fresh (Sound-enter t db fits fresh h)
  ]

  enqueue_batch-Sound :
      (down : Bool) (ts : List Task) (db : Tasks)
      → All Enters ts
      → Sound db
      → Sound (enqueue_batch down ts db).1
  unfolding enqueue_batch
  enqueue_batch-Sound true ts db fits h = h
  enqueue_batch-Sound false ts db fits h = elim (Option-cases (insert_all ts db)) [
    | inl nothing ↦ rw nothing h
    | inr (db', all) ↦ rw all (Sound-insert_all ts db fits all h)
  ]

  dequeue-Sound :
      (down : Bool) (locked : List String) (at now : ℕ) (db : Tasks)
      → Sound db
      → Sound (dequeue down locked at now db).1
  unfolding dequeue waits
  dequeue-Sound true locked at now db h = h
  dequeue-Sound false locked at now db h = elim (Option-cases (next_of (waits locked at) db)) [
    | inl nothing ↦ rw nothing h
    | inr (t, next) ↦
        let first = next_of-IsNext (waits locked at) db {t = t} h.0 next in
        rw next (
          Sound-modify t.id (mark_processing now) db (λ u. unfold mark_processing in refl)
            first.stored (k.take t.id now t (ground (arith, first.passes))) h)
  ]

  ack-Sound :
      (down : Bool) (now : ℕ) (id : String) (db : Tasks) → Sound db → Sound (ack down now id db).1
  unfolding ack
  ack-Sound true now id db h = h
  ack-Sound false now id db h = elim (Option-cases (lookup id db)) [
    | inl missing ↦ let absent : exists_in id db ≡ false = ground arith in rw absent h
    | inr (t, found) ↦
        let there : exists_in id db ≡ true = ground arith in
        rw there (
          Sound-modify id (mark_completed now) db (λ u. unfold mark_completed in refl) found
            (k.complete id now t) h)
  ]

  nack-Sound :
      (down down' : Bool) (now : ℕ) (id reason : String) (db : Tasks)
      → Renews id
      → Sound db
      → Sound (nack down down' now id reason db).1
  unfolding nack get_task
  nack-Sound true down' now id reason db fits h = h
  nack-Sound false down' now id reason db fits h = elim (Option-cases (lookup id db)) [
    | inl missing ↦ rw missing h
    | inr (t, found) ↦ rw found (Sound-nack down' now reason id t db fits found h)
  ]

  cancel_task-Sound :
      (down : Bool) (now : ℕ) (id : String) (db : Tasks)
      → Sound db
      → Sound (cancel_task down now id db).1
  unfolding cancel_task
  cancel_task-Sound true now id db h = h
  cancel_task-Sound false now id db h = elim (Option-cases (lookup id db)) [
    | inl missing ↦ rw missing h
    | inr (t, found) ↦ elim (Bool-cases (is_pending t.status)) [
      | inl waiting ↦
          rw (found, waiting)
            (Sound-modify id (cancelled now) db (λ u. ground arith) found (k.cancel id now t) h)
      | inr other ↦ rw (found, other) h
    ]
  ]

  purge_tasks-Sound :
      (down : Bool) (now older : ℕ) (db : Tasks)
      → Sound db
      → Sound (purge_tasks down now older db).1
  unfolding purge_tasks
  purge_tasks-Sound true now older db h = h
  purge_tasks-Sound false now older db h = (IsKeyed-keep _ db h.0, Rows-keep P _ db h.1)

  step-Sound : (op : Op) (db : Tasks) → Fits Enters Renews op → Sound db → Sound (step op db)
  unfolding step
  step-Sound (enqueues down t) db fits h = enqueue-Sound down t db fits h
  step-Sound (enqueues_batch down ts) db fits h = enqueue_batch-Sound down ts db fits h
  step-Sound (dequeues down locked at now) db fits h = dequeue-Sound down locked at now db h
  step-Sound (acks down now id) db fits h = ack-Sound down now id db h
  step-Sound (nacks down down' now id reason) db fits h =
      nack-Sound down down' now id reason db fits h
  step-Sound (cancels down now id) db fits h = cancel_task-Sound down now id db h
  step-Sound (purges down now older) db fits h = purge_tasks-Sound down now older db h

  -- What the calls keep, a history keeps.
  pub run-Sound :
      (ops : List Op) (db : Tasks) → All (Fits Enters Renews) ops → Sound db → Sound (run ops db)
  unfolding run
  run-Sound [] db fits h = h
  run-Sound (op ∷ ops) db fits h = run-Sound ops (step op db) fits.1 (step-Sound op db fits.0 h)
