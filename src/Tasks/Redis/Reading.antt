-- ===== src/Tasks/Redis/Reading.antt =====
-- DequeueWithTimeout, promoteScheduledTasks and claimAbandonedTask of
-- adapters/driven/queue/redis/queue.go.
use sercha_core.Base.{
  ℕ, ◌+◌, ◌*◌, ◌/◌, String, Bool, Option, none, some, List, [], ◌∷◌, ◌++◌, take, Table, Result, ok,
  err, internal, leb, if◌then◌else◌,
}
use sercha_core.Tasks.Domain.{Task, mark_processing, second}
use sercha_core.Tasks.Redis.Store.{
  Message, Delivery, Server, Command, set_task, set_msg, z_rem, x_add, x_ack, x_del, exec, attempt,
  read_group, x_claim,
}
use sercha_core.Tasks.Redis.{Faults, Call, ttl, get_task}

-- claimTimeout
abbrev pub claim_timeout : ℕ
claim_timeout = 300 * second

unfoldable pub insert_score : String × ℕ → Table ℕ → Table ℕ
insert_score e [] = e ∷ []
insert_score e (d ∷ ds) =
    let rest = insert_score e ds in if leb e.1 d.1 then e ∷ (d ∷ ds) else d ∷ rest

-- ZRANGEBYSCORE up to now, the lowest score first
unfoldable pub due : ℕ → Table ℕ → Table ℕ
due now [] = []
due now (e ∷ es) = let rest = due now es in if leb e.1 now then insert_score e rest else rest

-- What becomes of a due task, by the read of its record.
abbrev pub promotion : String → Result (Option Task) → List Command
promotion id (ok (some t)) = x_add t.id ∷ (z_rem id ∷ [])
promotion id (ok none) = z_rem id ∷ []
promotion id (err _) = z_rem id ∷ []

unfoldable pub promotions : Faults → ℕ → Server → Table ℕ → List Command
promotions f now s [] = []
promotions f now s ((id, _) ∷ es) =
    promotion id (get_task (f.promoted_fails id) now id s) ++ promotions f now s es

unfoldable pub promote_scheduled_tasks : Faults → ℕ → Server → Server
promote_scheduled_tasks f now s =
    if f.range_fails
    then s
    else (exec f.cut (promotions f now s (due (now / second) s.delayed)) s).1

-- The task of a message is marked; the writes may fail.
unfoldable pub deliver : Faults → ℕ → ℕ → Task → Server → Task × Server
deliver f now m t s =
    let t' = mark_processing now t in
    (
      t',
      attempt f.set_msg_fails (set_msg t.id m (now + ttl))
          (attempt f.set_fails (set_task t.id t' (now + ttl)) s),
    )

abbrev pub is_idle : ℕ → Delivery → Bool
is_idle now d = leb (d.since + claim_timeout) now

unfoldable pub idle_ids : ℕ → List Delivery → List ℕ
idle_ids now [] = []
idle_ids now (d ∷ ds) =
    let rest = idle_ids now ds in if is_idle now d then d.msg_id ∷ rest else rest

unfoldable pub discard : Faults → ℕ → Server → Server
discard f m s = attempt (f.del_fails m) (x_del m) (attempt (f.ack_fails m) (x_ack m) s)

-- The read of the task that a message names, by whether the read of an ID fails.
abbrev pub task_of : (String → Bool) → ℕ → Option String → Server → Result (Option Task)
task_of fails now none s = ok none
task_of fails now (some id) s = get_task (fails id) now id s

module _ (f : Faults) (now : ℕ) where
  -- A claimed message, by the read of its task: the task, or the next of the pending messages.
  abbrev pub claim_task :
      Message
      → Result (Option Task)
      → (Server → Option Task × Server)
      → Server
      → Option Task × Server
  claim_task x (ok (some t)) next s = let (t', s') = deliver f now x.msg_id t s in (some t', s')
  claim_task x (ok none) next s = next (discard f x.msg_id s)
  claim_task x (err _) next s = next (discard f x.msg_id s)

  abbrev pub claim_message :
      (Server → Option Task × Server) → Option Message × Server → Option Task × Server
  claim_message next (none, s) = next s
  claim_message next (some x, s) = claim_task x (task_of f.claimed_fails now x.task_id s) next s

  unfoldable pub claim_first : List ℕ → Server → Option Task × Server
  claim_first [] s = (none, s)
  claim_first (m ∷ ms) s =
      let next = claim_first ms in
      if f.claim_fails m then next s else claim_message next (x_claim now m s)

  unfoldable pub claim_abandoned_task : Server → Option Task × Server
  claim_abandoned_task s =
      if f.pending_fails then (none, s) else claim_first (take 10 (idle_ids now s.deliveries)) s

  -- The task of a message that was read from the stream.
  abbrev pub read_task : Message → Result (Option Task) → Call (Option Task)
  read_task x (ok (some t)) s = let (t', s') = deliver f now x.msg_id t s in (ok (some t'), s')
  read_task x (ok none) s = (ok none, attempt (f.ack_fails x.msg_id) (x_ack x.msg_id) s)
  read_task x (err e) s = (err e, s)

  abbrev pub read_message : Option Message × Server → Result (Option Task) × Server
  read_message (none, s) = (ok none, s)
  read_message (some x, s) = read_task x (task_of f.get_fails now x.task_id s) s

  abbrev pub read_next : Option Task × Server → Result (Option Task) × Server
  read_next (some t, s) = (ok (some t), s)
  read_next (none, s) = if f.read_fails then (err internal, s) else read_message (read_group now s)

  -- One read, which waits no time.
  unfoldable pub dequeue_with_timeout : Call (Option Task)
  dequeue_with_timeout s = read_next (claim_abandoned_task (promote_scheduled_tasks f now s))
