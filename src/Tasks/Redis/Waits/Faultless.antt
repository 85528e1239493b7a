-- ===== src/Tasks/Redis/Waits/Faultless.antt =====
-- A server that answers every call, for adapters/driven/queue/redis/queue.go.
use sercha_core.Base.{
  ℕ, ◌+◌, ◌≤◌, String, false, ◌≡◌, none, some, List, [], ◌∷◌, All, Table, lookup,
}
use sercha_core.Tasks.Domain.{Task}
use sercha_core.Tasks.Redis.{Faults}
use sercha_core.Tasks.Redis.Reading.{claim_timeout, dequeue_with_timeout}
use sercha_core.Tasks.Redis.Store.{Delivery, Server}

abbrev pub no_faults : Faults
no_faults = record {
  range_fails = false;
  promoted_fails = λ _. false;
  pending_fails = false;
  claim_fails = λ _. false;
  claimed_fails = λ _. false;
  read_fails = false;
  get_fails = λ _. false;
  msg_fails = false;
  ack_fails = λ _. false;
  del_fails = λ _. false;
  set_fails = false;
  set_msg_fails = false;
  del_task_fails = λ _. false;
  scan_fails = false;
  cut = none;
}

-- The server after dequeues at these times.
unfoldable pub after_dequeues : List ℕ → Server → Server
after_dequeues [] s = s
after_dequeues (t ∷ ts) s = after_dequeues ts (dequeue_with_timeout no_faults t s).1

-- No delivery is abandoned before this time.
abbrev pub Fresh : ℕ → List Delivery → Type 0
Fresh end ds = All (λ d. end ≤ d.since + claim_timeout) ds

-- The record of a task lasts to this time.
abbrev pub Lasts : ℕ → String → Table (Task × ℕ) → Type 0
Lasts end id db =
    (t : Task) × ((e : ℕ) × ((lookup id db ≡ some (t, e)) × ((t.id ≡ id) × (end ≤ e))))
