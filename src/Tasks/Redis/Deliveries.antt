-- ===== src/Tasks/Redis/Deliveries.antt =====
-- DequeueWithTimeout of adapters/driven/queue/redis/queue.go: abandoned tasks are claimed, then the
-- stream is read.
use sercha_core.Base.{
  ℕ, Error, ◌+◌, String, Bool, true, false, ◌≡◌, refl, sym, ap, ◌∙◌, Option, none, some, List, [],
  ◌∷◌, take, Result, ok, err, arith, Bool-cases, inl, inr,
}
use mathlib.Core.Path.{subst}
use sercha_core.Tasks.Domain.{Task, mark_processing}
use sercha_core.Tasks.Redis.{Faults, ttl}
use sercha_core.Tasks.Redis.Reading.{
  task_of, deliver, discard, claim_task, claim_message, claim_first, claim_abandoned_task, idle_ids,
  read_task, read_message, read_next, dequeue_with_timeout,
}
use sercha_core.Tasks.Redis.Store.{
  Message, Server, set_task, set_msg, x_ack, x_del, run_command, attempt, x_claim, read_group,
}
use sercha_core.Tasks.Redis.Names.{Named, has, in_stream}
use sercha_core.Tasks.Redis.Tracks.{in_read, needed, Safe, run_command-Safe, either_way}
use sercha_core.Tasks.Redis.Others.{but_one, and_one, run_command-SafeBut}
use sercha_core.Tasks.Redis.Entries.{
  PromotesAll, promote_scheduled_tasks-Safe, get_task-some, get_task-none, read_fine,
}
use sercha_core.Tasks.Redis.Taken.{Taken, IsTaking, x_claim-IsTaking, read_group-IsTaking}

-- A message whose task is gone or over.
abbrev Idle : ℕ → Message → Server → Type 0
Idle now x s =
    (in_stream x.msg_id x.task_id s ≡ true)
    × ((id : String) → x.task_id ≡ some id → needed now id s ≡ false)

Idle-spares :
    (now : ℕ) (x : Message) (s : Server) (id : String)
    → Idle now x s
    → Named s
    → needed now id s ≡ true
    → in_stream x.msg_id (some id) s ≡ false
Idle-spares now x s id idle named need = elim (Bool-cases (in_stream x.msg_id (some id) s)) [
  | inl there ↦
      let for_it = named.single x.msg_id x.task_id (some id) idle.0 there in
      let over = idle.1 id for_it in absurd (ground arith)
  | inr absent ↦ absent
]

pub discard-Safe :
    (f : Faults) (now : ℕ) (x : Message) (s : Server)
    → Idle now x s
    → Safe now s
    → Safe now (discard f x.msg_id s)
unfolding discard needed run_command
discard-Safe f now x s idle safe =
    let after_ack = attempt (f.ack_fails x.msg_id) (x_ack x.msg_id) s in
    let acked : Safe now after_ack × Idle now x after_ack =
      either_way (λ s'. Safe now s' × Idle now x s') (f.ack_fails x.msg_id) (safe, idle)
        (
          run_command-Safe now (x_ack x.msg_id) s tt
              (λ id need. (need, Idle-spares now x s id idle safe.0 need)) safe,
          idle,
        ) in
    either_way (Safe now) (f.del_fails x.msg_id) acked.0 (
      run_command-Safe now (x_del x.msg_id) after_ack tt
        (λ id need. (need, Idle-spares now x after_ack id acked.1 acked.0.0 need)) acked.0)

pub deliver-Safe :
    (f : Faults) (now : ℕ) (x : Message) (t : Task) (s : Server)
    → x.task_id ≡ some t.id
    → Taken x s
    → Safe now s
    → Safe now (deliver f now x.msg_id t s).1
unfolding deliver run_command needed mark_processing
deliver-Safe f now x t s named taken safe =
    let t' = mark_processing now t in
    let marked = attempt f.set_fails (set_task t.id t' (now + ttl)) s in
    let written : Safe now marked × Taken x marked =
      either_way (λ s'. Safe now s' × Taken x s') f.set_fails (safe, taken)
        (
          and_one t.id now _
              (λ _.
                in_read x.msg_id
                  (subst (λ (o : Option String). has x.msg_id o s.read ≡ true) named taken.0)
                  taken.1)
              (run_command-SafeBut t.id now (set_task t.id t' (now + ttl)) s refl refl
                (but_one t.id now s safe)),
          taken,
        ) in
    let there : in_stream x.msg_id x.task_id marked ≡ true = ground (arith, written.1.0) in
    let names = written.0.0 in
    either_way (Safe now) f.set_msg_fails written.0 (
      run_command-Safe now (set_msg t.id x.msg_id (now + ttl)) marked
        (
          names.below x.msg_id x.task_id there,
          λ j h. names.single x.msg_id j x.task_id h there ∙ named,
        )
        (λ id need. (need, tt)) written.0)

-- The reads of claimed tasks do not fail.
abbrev pub ClaimsAll : Faults → Type 0
ClaimsAll f = (id : String) → f.claimed_fails id ≡ false

task_of-some :
    (fails : String → Bool) (now : ℕ) (o : Option String) (s : Server) {t : Task}
    → Named s
    → task_of fails now o s ≡ ok (some t)
    → o ≡ some t.id
task_of-some fails now none s named h = absurd (ground arith)
task_of-some fails now (some id) s {t} named h =
    ap some (sym (get_task-some (fails id) now id s {t = t} named h))

task_of-none :
    (fails : String → Bool) (now : ℕ) (o : Option String) (s : Server) (id : String)
    → task_of fails now o s ≡ ok none
    → o ≡ some id
    → needed now id s ≡ false
task_of-none fails now none s id h e = absurd (ground arith)
task_of-none fails now (some j) s id h e =
    subst (λ (k : String). needed now k s ≡ false) (ground arith)
      (get_task-none (fails j) now j s h)

task_of-fine :
    (fails : String → Bool) (now : ℕ) (o : Option String) (s : Server) {e : Error}
    → ((id : String) → fails id ≡ false)
    → task_of fails now o s ≡ err e
    → ⊥
task_of-fine fails now none s reads h = ground arith
task_of-fine fails now (some id) s reads h = read_fine (fails id) now id s (reads id) h

module _ (f : Faults) (now : ℕ) (reads : ClaimsAll f) where
  abbrev KeepsSafe : (Server → Option Task × Server) → Type 0
  KeepsSafe next = (s : Server) → Safe now s → Safe now (next s).1

  claim_task-Safe :
      (x : Message) (q : Result (Option Task)) (next : Server → Option Task × Server) (s : Server)
      → task_of f.claimed_fails now x.task_id s ≡ q
      → KeepsSafe next
      → Taken x s
      → Safe now s
      → Safe now (claim_task f now x q next s).1
  claim_task-Safe x (ok (some t)) next s q keeps taken safe =
      deliver-Safe f now x t s (task_of-some f.claimed_fails now x.task_id s {t = t} safe.0 q) taken
        safe
  claim_task-Safe x (ok none) next s q keeps taken safe = keeps _ (
      discard-Safe f now x s
        (ground (arith, taken.0), λ id e. task_of-none f.claimed_fails now x.task_id s id q e) safe)
  claim_task-Safe x (err e) next s q keeps taken safe =
      absurd (task_of-fine f.claimed_fails now x.task_id s reads q)

  claim_message-Safe :
      (next : Server → Option Task × Server) (r : Option Message × Server)
      → KeepsSafe next
      → IsTaking now r
      → Safe now (claim_message f now next r).1
  claim_message-Safe next (none, s) keeps r = keeps s r.0
  claim_message-Safe next (some x, s) keeps r =
      claim_task-Safe x _ next s refl keeps (r.1 x refl) r.0

  claim_first-Safe : (ms : List ℕ) (s : Server) → Safe now s → Safe now (claim_first f now ms s).1
  unfolding claim_first
  claim_first-Safe [] s safe = safe
  claim_first-Safe (m ∷ ms) s safe =
      either_way (λ (r : Option Task × Server). Safe now r.1) (f.claim_fails m)
        (claim_first-Safe ms s safe)
        (claim_message-Safe (claim_first f now ms) (x_claim now m s) (claim_first-Safe ms)
          (x_claim-IsTaking now m s safe))

  claim_abandoned_task-Safe : (s : Server) → Safe now s → Safe now (claim_abandoned_task f now s).1
  unfolding claim_abandoned_task
  claim_abandoned_task-Safe s safe =
      either_way (λ (r : Option Task × Server). Safe now r.1) f.pending_fails safe
        (claim_first-Safe (take 10 (idle_ids now s.deliveries)) s safe)

  read_task-Safe :
      (x : Message) (q : Result (Option Task)) (s : Server)
      → task_of f.get_fails now x.task_id s ≡ q
      → Taken x s
      → Safe now s
      → Safe now (read_task f now x q s).1
  unfolding needed run_command
  read_task-Safe x (ok (some t)) s q taken safe =
      deliver-Safe f now x t s (task_of-some f.get_fails now x.task_id s {t = t} safe.0 q) taken
        safe
  read_task-Safe x (ok none) s q taken safe =
      let idle : Idle now x s =
        (ground (arith, taken.0), λ id e. task_of-none f.get_fails now x.task_id s id q e) in
      either_way (Safe now) (f.ack_fails x.msg_id) safe (
        run_command-Safe now (x_ack x.msg_id) s tt
          (λ id need. (need, Idle-spares now x s id idle safe.0 need)) safe)
  read_task-Safe x (err e) s q taken safe = safe

  read_message-Safe :
      (r : Option Message × Server) → IsTaking now r → Safe now (read_message f now r).1
  read_message-Safe (none, s) r = r.0
  read_message-Safe (some x, s) r = read_task-Safe x _ s refl (r.1 x refl) r.0

  read_next-Safe : (r : Option Task × Server) → Safe now r.1 → Safe now (read_next f now r).1
  read_next-Safe (some t, s) safe = safe
  read_next-Safe (none, s) safe =
      either_way (λ (r : Result (Option Task) × Server). Safe now r.1) f.read_fails safe
        (read_message-Safe (read_group now s) (read_group-IsTaking now s safe))

  pub dequeue_with_timeout-Safe :
      (s : Server) → PromotesAll f → Safe now s → Safe now (dequeue_with_timeout f now s).1
  unfolding dequeue_with_timeout
  dequeue_with_timeout-Safe s promotes safe =
      read_next-Safe _
        (claim_abandoned_task-Safe _ (promote_scheduled_tasks-Safe f now s promotes safe))
