-- ===== src/Tasks/Redis/Store.antt =====
-- What adapters/driven/queue/redis/queue.go keeps in Redis: a task's record and the key of its
-- message, each with the time at which it expires, the sorted set of delayed tasks, and the stream
-- with its consumer group. The group's position splits the stream: what it has read, and what it has
-- not. A pipeline of commands that fails may have reached the server in part.
use sercha_core.Base.{
  ℕ, zero, suc, String, Bool, false, ◌||◌, Option, none, some, List, [], ◌∷◌, ◌++◌, Table, put,
  remove, Result, ok, err, internal, ◌==◌, if◌then◌else◌,
}
use sercha_core.Tasks.Domain.{Task}

-- An entry of the stream with its "task_id", where that is a string.
pub record Message : Type 0 where
  pub msg_id : ℕ
  pub task_id : Option String

-- An entry that was delivered and not acknowledged, with the time of the delivery.
pub record Delivery : Type 0 where
  pub msg_id : ℕ
  pub since : ℕ

pub record Server : Type 0 where
  pub tasks : Table (Task × ℕ)
  pub msgs : Table (ℕ × ℕ)
  pub delayed : Table ℕ
  pub unread : List Message
  pub read : List Message
  pub deliveries : List Delivery
  pub next_id : ℕ

abbrev pub empty_server : Server
empty_server = record {
  tasks = [];
  msgs = [];
  delayed = [];
  unread = [];
  read = [];
  deliveries = [];
  next_id = 0;
}

pub data Command : Type 0 where
  set_task : String → Task → ℕ → Command
  set_msg : String → ℕ → ℕ → Command
  del_task del_msg : String → Command
  z_add : String → ℕ → Command
  z_rem : String → Command
  x_add : String → Command
  x_ack x_del : ℕ → Command

unfoldable pub drop_message : ℕ → List Message → List Message
drop_message m [] = []
drop_message m (x ∷ xs) = let rest = drop_message m xs in if x.msg_id == m then rest else x ∷ rest

unfoldable pub drop_delivery : ℕ → List Delivery → List Delivery
drop_delivery m [] = []
drop_delivery m (d ∷ ds) = let rest = drop_delivery m ds in if d.msg_id == m then rest else d ∷ rest

unfoldable pub run_command : Command → Server → Server
run_command (set_task id t expires) s = record s { tasks = put id (t, expires) s.tasks }
run_command (set_msg id m expires) s = record s { msgs = put id (m, expires) s.msgs }
run_command (del_task id) s = record s { tasks = remove id s.tasks }
run_command (del_msg id) s = record s { msgs = remove id s.msgs }
run_command (z_add id score) s = record s { delayed = put id score s.delayed }
run_command (z_rem id) s = record s { delayed = remove id s.delayed }
run_command (x_add id) s = record s {
  unread = s.unread ++ (record { msg_id = s.next_id; task_id = some id } ∷ []);
  next_id = suc s.next_id;
}
run_command (x_ack m) s = record s { deliveries = drop_delivery m s.deliveries }
run_command (x_del m) s = record s {
  unread = drop_message m s.unread;
  read = drop_message m s.read;
}

unfoldable pub run_commands : List Command → Server → Server
run_commands [] s = s
run_commands (c ∷ cs) s = run_commands cs (run_command c s)

-- The commands that reach the server: all, or, where the call fails, so many.
abbrev pub sent : Option ℕ → List Command → List Command
sent none cs = cs
sent (some zero) cs = []
sent (some (suc n)) [] = []
sent (some (suc n)) (c ∷ cs) = c ∷ sent (some n) cs

abbrev pub answered : Option ℕ → Result (Unit {0})
answered none = ok tt
answered (some _) = err internal

unfoldable pub exec : Option ℕ → List Command → Server → Result (Unit {0}) × Server
exec cut cs s = (answered cut, run_commands (sent cut cs) s)

-- A single command, whose failure the caller ignores.
abbrev pub attempt : Bool → Command → Server → Server
attempt fails c s = if fails then s else run_command c s

abbrev pub as_delivered : ℕ → Message → Delivery
as_delivered now m = record { msg_id = m.msg_id; since = now }

-- XREADGROUP with `>` and a count of 1, by the entries that were not read
abbrev pub group_read : ℕ → List Message → Server → Option Message × Server
group_read now [] s = (none, s)
group_read now (m ∷ ms) s = (
  some m,
  record s {
    unread = ms;
    read = s.read ++ (m ∷ []);
    deliveries = s.deliveries ++ (as_delivered now m ∷ []);
  },
)

unfoldable pub read_group : ℕ → Server → Option Message × Server
read_group now s = group_read now s.unread s

unfoldable pub find_message : ℕ → List Message → Option Message
find_message m [] = none
find_message m (x ∷ xs) = if x.msg_id == m then some x else find_message m xs

unfoldable pub delivered_again : ℕ → ℕ → List Delivery → List Delivery
delivered_again now m [] = []
delivered_again now m (d ∷ ds) =
    (if d.msg_id == m then record { msg_id = m; since = now } else d) ∷ delivered_again now m ds

unfoldable pub held : ℕ → List Delivery → Bool
held m [] = false
held m (d ∷ ds) = d.msg_id == m || held m ds

-- XCLAIM of one delivery, if there still is one. That of an entry that is no longer in the stream is dropped.
abbrev pub claimed : ℕ → ℕ → Option Message → Server → Option Message × Server
claimed now m none s = (none, record s { deliveries = drop_delivery m s.deliveries })
claimed now m (some x) s = (some x, record s { deliveries = delivered_again now m s.deliveries })

unfoldable pub x_claim : ℕ → ℕ → Server → Option Message × Server
x_claim now m s = if held m s.deliveries then claimed now m (find_message m s.read) s else (none, s)
