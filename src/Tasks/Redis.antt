-- ===== src/Tasks/Redis.antt =====
-- adapters/driven/queue/redis/queue.go, the task queue over Redis streams. An operation is one step,
-- in which `Faults` says which calls of the server fail; times are nanoseconds. That a task comes
-- back from its JSON text as it went in, and that no ID of a task ends in ":msg", is taken for
-- granted.
pub mod Store
pub mod Reading
pub mod Scans
pub mod Names
pub mod Tracks
pub mod Others
pub mod Entries
pub mod Taken
pub mod Deliveries
pub mod Settled
pub mod Removals
pub mod History
pub mod Waits
pub mod Cancels
mod Tests
use sercha_core.Base.{
  ℕ, suc, ◌+◌, ◌-◌, ◌*◌, ◌/◌, ◌%◌, ◌^◌, Error, String, Bool, true, false, not, ◌&&◌, Option, none,
  some, List, [], ◌∷◌, ◌++◌, take, lookup, Table, Result, ok, err, not_found, internal, ltb, leb,
  if◌then◌else◌,
}
use sercha_core.Tasks.Domain.{
  Task, TaskStatus, pending, processing, completed, failed, is_pending, is_over, can_retry,
  mark_processing, mark_completed, mark_failed, retry, second, add_duration,
}
use sercha_core.Tasks.Redis.Store.{
  Message, Delivery, Server, Command, set_task, set_msg, del_task, del_msg, z_add, z_rem, x_add,
  x_ack, x_del, run_command, exec, attempt, read_group, x_claim,
}

-- What fails in one operation: the reads of a task while delayed tasks are promoted, while abandoned
-- ones are claimed and otherwise, the read of a message's key, the single commands, and the pipeline
-- after so many of its commands. A read of the stream that ends because its context does is not one
-- that fails, and finds nothing.
pub record Faults : Type 0 where
  pub range_fails : Bool
  pub promoted_fails : String → Bool
  pub pending_fails : Bool
  pub claim_fails : ℕ → Bool
  pub claimed_fails : String → Bool
  pub read_fails : Bool
  pub get_fails : String → Bool
  pub msg_fails : Bool
  pub ack_fails : ℕ → Bool
  pub del_fails : ℕ → Bool
  pub set_fails : Bool
  pub set_msg_fails : Bool
  pub del_task_fails : String → Bool
  pub scan_fails : Bool
  pub cut : Option ℕ

abbrev pub Call : Type 0 → Type 0
Call A = Server → Result A × Server

-- 24*time.Hour
abbrev pub ttl : ℕ
ttl = 86_400 * second

abbrev pub live {ℓ} : {A : Type ℓ} → ℕ → Option (A × ℕ) → Option A
live now none = none
live now (some (a, expires)) = if ltb now expires then some a else none

-- GetTask, `none` where the key is missing
unfoldable pub get_task : Bool → ℕ → String → Server → Result (Option Task)
get_task fails now id s = if fails then err internal else ok (live now (lookup id s.tasks))

abbrev pub score : Task → ℕ
score t = t.scheduled_for / second

-- A task as it enters the queue, delayed or in the stream.
unfoldable pub entering : ℕ → Task → List Command
entering now t =
    set_task t.id t (now + ttl)
    ∷ ((if ltb now t.scheduled_for then z_add t.id (score t) else x_add t.id) ∷ [])

unfoldable pub enqueue : Faults → ℕ → Task → Call (Unit {0})
enqueue f now t = exec f.cut (entering now t)

unfoldable pub all_entering : ℕ → List Task → List Command
all_entering now [] = []
all_entering now (t ∷ ts) = entering now t ++ all_entering now ts

unfoldable pub enqueue_batch : Faults → ℕ → List Task → Call (Unit {0})
enqueue_batch f now [] s = (ok tt, s)
enqueue_batch f now (t ∷ ts) s = exec f.cut (all_entering now (t ∷ ts)) s

abbrev pub msg_of : Bool → ℕ → String → Server → Result (Option ℕ)
msg_of fails now id s = if fails then err internal else ok (live now (lookup id s.msgs))

abbrev pub acknowledging : Option ℕ → List Command → List Command
acknowledging none cs = cs
acknowledging (some m) cs = x_ack m ∷ (x_del m ∷ cs)

abbrev pub completing : ℕ → String → Result (Option Task) → List Command
completing now id (ok (some t)) = set_task id (mark_completed now t) (now + ttl) ∷ (del_msg id ∷ [])
completing now id (ok none) = del_msg id ∷ []
completing now id (err _) = del_msg id ∷ []

abbrev pub ack_of : Faults → ℕ → String → Result (Option ℕ) → Call (Unit {0})
ack_of f now id (err e) s = (err e, s)
ack_of f now id (ok m) s =
    exec f.cut (acknowledging m (completing now id (get_task (f.get_fails id) now id s))) s

unfoldable pub ack : Faults → ℕ → String → Call (Unit {0})
ack f now id s = ack_of f now id (msg_of f.msg_fails now id s) s

abbrev pub found_msg : Result (Option ℕ) → Option ℕ
found_msg (ok m) = m
found_msg (err _) = none

unfoldable pub settling : ℕ → String → String → Task → List Command
settling now id reason t =
    if can_retry t
    then (let t' = retry now reason t in
        set_task id t' (now + ttl) ∷ (z_add t.id (score t') ∷ (del_msg id ∷ [])))
    else set_task id (mark_failed now reason t) (now + ttl) ∷ (del_msg id ∷ [])

abbrev pub nack_of : Faults → ℕ → String → String → Result (Option Task) → Call (Unit {0})
nack_of f now id reason (err e) s = (err e, s)
nack_of f now id reason (ok none) s = (err not_found, s)
nack_of f now id reason (ok (some t)) s =
    exec f.cut (acknowledging (found_msg (msg_of f.msg_fails now id s)) (settling now id reason t))
      s

unfoldable pub nack : Faults → ℕ → String → String → Call (Unit {0})
nack f now id reason s = nack_of f now id reason (get_task (f.get_fails id) now id s) s

abbrev pub cancelled : ℕ → Task → Task
cancelled now t = record t { status = failed; updated_at = now; error = "cancelled" }

abbrev pub cancel_of : Faults → ℕ → String → Result (Option Task) → Call (Unit {0})
cancel_of f now id (err e) s = (err e, s)
cancel_of f now id (ok none) s = (err not_found, s)
cancel_of f now id (ok (some t)) s =
    if is_pending t.status
    then exec f.cut (z_rem id ∷ (set_task id (cancelled now t) (now + ttl) ∷ [])) s
    else (err internal, s)

unfoldable pub cancel_task : Faults → ℕ → String → Call (Unit {0})
cancel_task f now id s = cancel_of f now id (get_task (f.get_fails id) now id s) s

abbrev pub is_old : ℕ → Task → Bool
is_old cutoff t = is_over t.status && ltb t.updated_at cutoff

-- A key of the scan: whether its task is read and old, and so deleted and counted.
abbrev pub purges : ℕ → Result (Option Task) → Bool
purges cutoff (ok (some t)) = is_old cutoff t
purges cutoff (ok none) = false
purges cutoff (err _) = false

unfoldable pub purge_keys : Faults → ℕ → ℕ → Table (Task × ℕ) → Server → ℕ × Server
purge_keys f now cutoff [] s = (0, s)
purge_keys f now cutoff ((id, _) ∷ rows) s =
    let old = purges cutoff (get_task (f.get_fails id) now id s) in
    let (n, s') =
      purge_keys f now cutoff rows
        (if old then attempt (f.del_task_fails id) (del_task id) s else s) in
    ((if old then suc n else n), s')

-- The cutoff, with the wrap-arounds of an int64, as in the other queue
abbrev pub purge_cutoff : ℕ → ℕ → ℕ
purge_cutoff now older_than = add_duration now ((2 ^ 64 - older_than) % 2 ^ 64 * second % 2 ^ 64)

-- The number of purged tasks, and the error of a scan that fails at its start.
unfoldable pub purge_tasks : Faults → ℕ → ℕ → Server → (ℕ × Option Error) × Server
purge_tasks f now older_than s =
    if f.scan_fails
    then ((0, some internal), s)
    else (let (n, s') = purge_keys f now (purge_cutoff now older_than) s.tasks s in ((n, none), s'))
