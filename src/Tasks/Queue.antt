-- ===== src/Tasks/Queue.antt =====
-- adapters/driven/queue/postgres/queue.go over the tasks table. A statement or a transaction is one
-- step, which fails as a whole where its argument `down` says so. A duplicate ID fails an INSERT.
-- DequeueWithTimeout is Dequeue and, where nothing was found, a second Dequeue later on.
pub mod Keyed
pub mod History
pub mod Purge
pub mod Settle
use sercha_core.Base.{
  ℕ, ◌+◌, ◌*◌, ◌-◌, ◌%◌, ◌^◌, String, Bool, true, false, not, ◌&&◌, Option, none, some, List, [],
  ◌∷◌, length, Table, lookup, modify, keep, exists_in, contains, ltb, leb, ltb_ℤ, Result, ok, err,
  not_found, internal, if◌then◌else◌,
}
use sercha_core.Tasks.Domain.{
  Task, TaskStatus, pending, processing, completed, failed, is_pending, is_over, can_retry,
  mark_processing, mark_completed, mark_failed, second, is_negative, add_duration,
}

abbrev pub Tasks : Type 0
Tasks = Table Task

abbrev pub Call : Type 0 → Type 0
Call A = Tasks → Result A × Tasks

-- the columns that the INSERT fills; the others are NULL
abbrev pub inserted : Task → Task
inserted t = record t { started_at = none; completed_at = none }

unfoldable pub enqueue : Bool → Task → Call (Unit {0})
enqueue down t db =
    if down
    then (err internal, db)
    else if exists_in t.id db
    then (err internal, db)
    else (ok tt, (t.id, inserted t) ∷ db)

-- The table after the inserts of the transaction, `none` where one of them fails.
unfoldable pub insert_all : List Task → Tasks → Option Tasks
insert_all [] db = some db
insert_all (t ∷ ts) db =
    let rest = insert_all ts ((t.id, inserted t) ∷ db) in if exists_in t.id db then none else rest

-- commit, or the rollback that the deferred call makes
abbrev pub committed : Option Tasks → Call (Unit {0})
committed none db = (err internal, db)
committed (some db') db = (ok tt, db')

unfoldable pub enqueue_batch : Bool → List Task → Call (Unit {0})
enqueue_batch down ts db = if down then (err internal, db) else committed (insert_all ts db) db

-- ORDER BY priority DESC, created_at ASC
unfoldable pub precedes : Task → Task → Bool
precedes t u =
    if ltb_ℤ u.priority t.priority
    then true
    else if ltb_ℤ t.priority u.priority
    then false
    else leb t.created_at u.created_at

abbrev pub better : Task → Option Task → Task
better t none = t
better t (some u) = if precedes t u then t else u

-- The first in that order of the rows that pass the test (LIMIT 1); of two rows that tie, the one
-- that the table has first.
unfoldable pub next_of : (Task → Bool) → Tasks → Option Task
next_of p [] = none
next_of p ((_, t) ∷ rows) = let rest = next_of p rows in if p t then some (better t rest) else rest

-- WHERE status = 'pending' AND scheduled_for <= NOW() ... SKIP LOCKED
unfoldable pub waits : List String → ℕ → Task → Bool
waits locked at t = is_pending t.status && (leb t.scheduled_for at && not (contains locked t.id))

abbrev pub taken : ℕ → Option Task → Call (Option Task)
taken now none db = (ok none, db)
taken now (some t) db = (ok (some (mark_processing now t)), modify t.id (mark_processing now) db)

-- `locked` are the rows that other transactions hold, `at` is NOW(), `now` is time.Now().
unfoldable pub dequeue : Bool → List String → ℕ → ℕ → Call (Option Task)
dequeue down locked at now db =
    if down then (err internal, db) else taken now (next_of (waits locked at) db) db

unfoldable pub ack : Bool → ℕ → String → Call (Unit {0})
ack down now id db =
    if down
    then (err internal, db)
    else if exists_in id db
    then (ok tt, modify id (mark_completed now) db)
    else (err not_found, db)

unfoldable pub get_task : Bool → String → Call Task
get_task down id db =
    if down
    then (err internal, db)
    else elim (lookup id db) [ none ↦ (err not_found, db) | some t ↦ (ok t, db) ]

-- time.Duration(1<<task.Attempts) * time.Second, capped at five minutes by a signed comparison
unfoldable pub nack_backoff : ℕ → ℕ
nack_backoff attempts =
    let d = 2 ^ attempts % 2 ^ 64 * second % 2 ^ 64 in
    if not (is_negative d) && ltb (5 * 60 * second) d then 5 * 60 * second else d

-- The columns that the two UPDATEs of a Nack set.
abbrev pub set_retried : ℕ → String → ℕ → Task → Task
set_retried now reason scheduled_for u = record u {
  status = pending;
  error = reason;
  updated_at = now;
  scheduled_for = scheduled_for;
}

abbrev pub set_failed : ℕ → String → Task → Task
set_failed now reason u = record u { status = failed; error = reason; updated_at = now }

-- The UPDATE of a Nack, whose values come from the task as it was read: no row, no error.
unfoldable pub nack_update : Bool → ℕ → String → String → Task → Call (Unit {0})
nack_update down now id reason t db =
    if down
    then (err internal, db)
    else if can_retry t
    then (ok tt, modify id (set_retried now reason (add_duration now (nack_backoff t.attempts))) db)
    else (ok tt, modify id (set_failed now reason) db)

-- Without a transaction: the two statements may have other calls between them, `nack` has none.
abbrev pub nack_read : Bool → ℕ → String → String → Result Task → Call (Unit {0})
nack_read down now id reason (ok t) db = nack_update down now id reason t db
nack_read down now id reason (err e) db = (err e, db)

unfoldable pub nack : Bool → Bool → ℕ → String → String → Call (Unit {0})
nack down down' now id reason db = nack_read down' now id reason (get_task down id db).0 db

abbrev pub cancelled : ℕ → Task → Task
cancelled now t =
    if is_pending t.status
    then record t { status = failed; updated_at = now; error = "cancelled" }
    else t

abbrev pub is_cancellable : Option Task → Bool
is_cancellable none = false
is_cancellable (some t) = is_pending t.status

unfoldable pub cancel_task : Bool → ℕ → String → Call (Unit {0})
cancel_task down now id db =
    if down
    then (err internal, db)
    else if is_cancellable (lookup id db)
    then (ok tt, modify id (cancelled now) db)
    else (err internal, db)

abbrev pub is_old : ℕ → Task → Bool
is_old cutoff t = is_over t.status && ltb t.updated_at cutoff

-- time.Now().Add(-time.Duration(olderThanSeconds) * time.Second): the 64 bits of an int64, with the
-- wrap-arounds of the negation and of the product
unfoldable pub cutoff : ℕ → ℕ → ℕ
cutoff now older_than = add_duration now ((2 ^ 64 - older_than) % 2 ^ 64 * second % 2 ^ 64)

-- The number of deleted rows; the age is the 64 bits of an int. A cutoff before the epoch counts as the epoch.
unfoldable pub purge_tasks : Bool → ℕ → ℕ → Call ℕ
purge_tasks down now older_than db =
    if down
    then (err internal, db)
    else (let kept = keep (λ t. not (is_old (cutoff now older_than) t)) db in
        (ok (length db - length kept), kept))
