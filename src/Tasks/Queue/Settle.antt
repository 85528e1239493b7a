-- ===== src/Tasks/Queue/Settle.antt =====
-- How the queue settles tasks (adapters/driven/queue/postgres/queue.go) against what
-- core/domain/task.go says of one task, and EnqueueBatch as a whole.
use sercha_core.Base.{
  ℕ, String, Bool, true, false, ◌≡◌, refl, ap, some, List, [], ◌∷◌, All, inl, inr, lookup,
  lookup-cons, lookup-modify, modify, exists_in, Result, ok, err, Bool-cases, Option-cases, arith,
  eq_iff, eq_refl, str_eq, if◌then◌else◌,
}
use sercha_core.Tasks.Domain.{
  Task, can_retry, retry, mark_failed, backoff, raw_backoff, add_duration,
}
use sercha_core.Tasks.Queue.{
  Tasks, inserted, insert_all, enqueue_batch, get_task, nack_update, nack, nack_backoff,
  set_retried, set_failed,
}

-- What core/domain/task.go makes of a task that failed.
abbrev pub settled : ℕ → String → Task → Task
settled now reason t = if can_retry t then retry now reason t else mark_failed now reason t

update_found :
    (id k : String) (f : Task → Task) (db : Tasks) {t v : Task}
    → lookup id db ≡ some t
    → f t ≡ v
    → lookup k (modify id f db) ≡ (if str_eq id k then some v else lookup k db)
update_found id k f db found same = ground (arith, lookup-modify id k f db, eq_iff id k)

-- The result and the table of a call that puts this task in the row of this ID.
abbrev pub Settles : String → Task → Tasks → Result (Unit {0}) × Tasks → Type 0
Settles id v db r =
    (r.0 ≡ ok tt) × ((k : String) → lookup k r.1 ≡ (if str_eq id k then some v else lookup k db))

-- The arithmetic of the queue is that of the task.
same_backoff : (attempts : ℕ) → nack_backoff attempts ≡ backoff attempts
unfolding nack_backoff backoff raw_backoff
same_backoff attempts = refl

retried-retry :
    (now : ℕ) (reason : String) (t : Task)
    → set_retried now reason (add_duration now (nack_backoff t.attempts)) t ≡ retry now reason t
unfolding retry
retried-retry now reason t =
    ap (λ (d : ℕ). set_retried now reason (add_duration now d) t) (same_backoff t.attempts)

failed-mark_failed :
    (now : ℕ) (reason : String) (t : Task) → set_failed now reason t ≡ mark_failed now reason t
unfolding mark_failed
failed-mark_failed now reason t = refl

nack_update-Settles :
    (now : ℕ) (id reason : String) (db : Tasks) (t : Task)
    → lookup id db ≡ some t
    → Settles id (settled now reason t) db (nack_update false now id reason t db)
unfolding nack_update
nack_update-Settles now id reason db t found = elim (Bool-cases (can_retry t)) [
  | inl again ↦ rw again (
    refl,
    λ k.
        update_found id k (set_retried now reason (add_duration now (nack_backoff t.attempts))) db
          found (retried-retry now reason t),
  )
  | inr over ↦ rw over (
    refl,
    λ k. update_found id k (set_failed now reason) db found (failed-mark_failed now reason t),
  )
]

-- With the database answering, Nack of a task that is stored returns no error, puts the task that
-- Retry makes of it in its row if it may be retried and the one that MarkFailed makes otherwise, and
-- changes no other row.
pub nack-Settles :
    (now : ℕ) (id reason : String) (db : Tasks) {t : Task}
    → lookup id db ≡ some t
    → Settles id (settled now reason t) db (nack false false now id reason db)
unfolding nack get_task
nack-Settles now id reason db {t} found = rw found (nack_update-Settles now id reason db t found)

inserted_stays :
    (ts : List Task) (k : String) (u : Task) (db : Tasks) {db' : Tasks}
    → lookup k db ≡ some u
    → insert_all ts db ≡ some db'
    → lookup k db' ≡ some u
unfolding insert_all
inserted_stays [] k u db found h = ground arith
inserted_stays (t ∷ ts) k u db found h = elim (Bool-cases (exists_in t.id db)) [
  | inl there ↦ absurd (ground arith)
  | inr fresh ↦
      inserted_stays ts k u ((t.id, inserted t) ∷ db)
        (ground (arith, lookup-cons t.id k (inserted t) db, eq_iff t.id k)) (ground arith)
]

insert_all-stored :
    (ts : List Task) (db : Tasks) {db' : Tasks}
    → insert_all ts db ≡ some db'
    → All (λ t. lookup t.id db' ≡ some (inserted t)) ts
unfolding insert_all
insert_all-stored [] db h = tt
insert_all-stored (t ∷ ts) db h = elim (Bool-cases (exists_in t.id db)) [
  | inl there ↦ absurd (ground arith)
  | inr fresh ↦
      let next : Tasks = (t.id, inserted t) ∷ db in
      (
        inserted_stays ts t.id (inserted t) next
            (ground (arith, lookup-cons t.id t.id (inserted t) db, eq_refl t.id)) (ground arith),
        insert_all-stored ts next (ground arith),
      )
]

-- The table before and after a batch, by the result.
abbrev pub AllOrNothing : List Task → Tasks → Result (Unit {0}) → Tasks → Type 0
AllOrNothing ts db (ok _) db' = All (λ t. lookup t.id db' ≡ some (inserted t)) ts
AllOrNothing ts db (err _) db' = db' ≡ db

-- EnqueueBatch that returns no error has stored every task of the batch, and one that returns an
-- error has changed nothing.
pub enqueue_batch-AllOrNothing :
    (down : Bool) (ts : List Task) (db : Tasks)
    → AllOrNothing ts db (enqueue_batch down ts db).0 (enqueue_batch down ts db).1
unfolding enqueue_batch
enqueue_batch-AllOrNothing true ts db = refl
enqueue_batch-AllOrNothing false ts db = elim (Option-cases (insert_all ts db)) [
  | inl nothing ↦ rw nothing refl
  | inr (db', all) ↦ rw all (insert_all-stored ts db all)
]
