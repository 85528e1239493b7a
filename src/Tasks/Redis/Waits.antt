-- ===== src/Tasks/Redis/Waits.antt =====
-- How long a message of adapters/driven/queue/redis/queue.go waits, where the server answers.
pub mod Faultless
pub mod Advances
use sercha_core.Base.{
  ℕ, Error, ◌+◌, ◌/◌, ◌≤◌, ◌<◌, String, false, ◌≡◌, refl, sym, ap, ◌∙◌, Option, none, some, List,
  [], ◌∷◌, ◌++◌, All, length, Table, put, lookup, lookup-put, Result, ok, err, ◌==◌, str_eq, eq_iff,
  arith, Bool-cases, inl, inr,
}
use mathlib.Core.Path.{subst}
use sercha_core.Tasks.Domain.{Task, second, mark_processing}
use sercha_core.Tasks.Redis.{Faults, ttl, get_task}
use sercha_core.Tasks.Redis.Reading.{
  claim_timeout, due, promotion, promotions, promote_scheduled_tasks, idle_ids, task_of, deliver,
  claim_first, claim_abandoned_task, read_task, read_message, read_next, dequeue_with_timeout,
}
use sercha_core.Tasks.Redis.Store.{
  Message, Delivery, Server, Command, x_add, z_rem, run_command, run_commands, exec, drop_delivery,
  as_delivered, group_read, read_group,
}
use sercha_core.Tasks.Redis.Tracks.{either_way}
use sercha_core.Tasks.Redis.Waits.Faultless.{no_faults, after_dequeues}
use sercha_core.Tasks.Redis.Waits.Advances.{Steady, append_assoc, dequeue-Advances}

-- Times from this one on, before abandoned messages are claimed.
abbrev pub Window : ℕ → List ℕ → Type 0
Window start ts = All (λ t. (start ≤ t) × (t < start + claim_timeout)) ts

-- In a server that answers every call, whose deliveries are not abandoned before the claim timeout has
-- passed and that keeps the record of the task so long, the message of the task that has n messages
-- before it is delivered by the dequeue after n others, if all of them happen within the claim
-- timeout: that dequeue returns the task.
pub dequeue-reaches :
    (start now : ℕ) (ts : List ℕ) (id : String) (x : Message) (xs ys : List Message) (s : Server)
    → Window start (now ∷ ts)
    → length xs ≡ length ts
    → s.unread ≡ xs ++ (x ∷ ys)
    → x.task_id ≡ some id
    → Steady (start + claim_timeout) id s
    → (u : Task) × (((dequeue_with_timeout no_faults now (after_dequeues ts s)).0 ≡ ok (some u))
        × (u.id ≡ id))
unfolding after_dequeues
dequeue-reaches start now [] id x [] ys s (at, _) same split named steady =
    (dequeue-Advances now (start + claim_timeout) at.1 (omega (arith, at.0)) id x ys s split
        steady).1.1
      named
dequeue-reaches start now (t ∷ ts) id x (y ∷ xs) ys s (at, (first, window)) same split named
      steady =
    let step =
      dequeue-Advances t (start + claim_timeout) first.1 (omega (arith, first.0)) id y
        (xs ++ (x ∷ ys)) s split steady in
    dequeue-reaches start now ts id x xs (ys ++ step.0.0) (dequeue_with_timeout no_faults t s).1
      (at, window) (omega (arith, same)) (step.0.1 ∙ append_assoc xs (x ∷ ys) step.0.0) named
      step.1.0
dequeue-reaches start now [] id x (y ∷ xs) ys s window same split named steady =
    absurd (omega (arith, same))
dequeue-reaches start now (t ∷ ts) id x [] ys s window same split named steady =
    absurd (omega (arith, same))
