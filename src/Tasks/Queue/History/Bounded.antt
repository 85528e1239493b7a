-- ===== src/Tasks/Queue/History/Bounded.antt =====
-- How often a task runs (core/domain/task.go and adapters/driven/queue/postgres/queue.go).
use sercha_core.Base.{String, true, ◌≡◌, ◌≤◌, ◌<◌, List, [], All, Rows, Bool-cases, inl, inr, arith}
use sercha_core.Tasks.Domain.{
  Task, is_pending, can_retry, mark_processing, mark_completed, mark_failed,
}
use sercha_core.Tasks.Queue.History.{Op, run}
use sercha_core.Tasks.Queue.History.Closure.{IsClosed, Fits, run-Sound}

-- A task has had no more attempts than allowed, and one fewer at least while it waits.
abbrev pub InBounds : Task → Type 0
InBounds t =
    (t.attempts ≤ t.max_attempts) × (is_pending t.status ≡ true → t.attempts < t.max_attempts)

abbrev pub Anyone : String → Type 0
Anyone id = Unit

InBounds-IsClosed : IsClosed (λ k t. InBounds t) InBounds Anyone
unfolding mark_processing mark_completed mark_failed can_retry is_pending
InBounds-IsClosed = record {
  enter = λ t h. h;
  take = λ k now t waits h. (ground arith, λ e. ground arith);
  complete = λ k now t h. (h.0, λ e. ground arith);
  renew = λ k now reason t any again h. (h.0, λ e. ground arith);
  give_up = λ k now reason t h. (h.0, λ e. ground arith);
  cancel = λ k now t h. elim (Bool-cases (is_pending t.status)) [
    | inl waits ↦ rw waits (h.0, λ e. ground arith)
    | inr other ↦ rw other h
  ];
}

-- From an empty table, after any calls with any outcomes in which only tasks enter that may be
-- attempted (have fewer attempts than their maximum, or as many and do not wait): every task of the
-- table has had at most its maximal number of attempts, and fewer if it is pending.
pub run-InBounds :
    (ops : List Op) → All (Fits InBounds Anyone) ops → Rows (λ k t. InBounds t) (run ops [])
run-InBounds ops h =
    (run-Sound (λ k t. InBounds t) InBounds Anyone InBounds-IsClosed ops [] h (tt, tt)).1
