-- ===== src/Tasks/Redis/Entries.antt =====
-- Tasks that enter the queue of adapters/driven/queue/redis/queue.go, and delayed ones that become due.
use sercha_core.Base.{
  Error, ℕ, zero, suc, ◌+◌, ◌/◌, Result-cases, String, Bool, true, false, ◌≡◌, refl, sym, ap, ◌∙◌,
  Option, none, some, List, [], ◌∷◌, Table, lookup, ok, err, ltb, arith, Bool-cases, Option-cases,
  inl, inr,
}
use mathlib.Core.Path.{subst}
use sercha_core.Tasks.Domain.{Task, second}
use sercha_core.Tasks.Redis.{
  Faults, ttl, live, score, get_task, entering, enqueue, all_entering, enqueue_batch,
}
use sercha_core.Tasks.Redis.Reading.{due, promotions, promote_scheduled_tasks}
use sercha_core.Tasks.Redis.Store.{
  Server, set_task, z_add, z_rem, x_add, run_command, run_commands, exec, sent,
}
use sercha_core.Tasks.Redis.Names.{Named}
use sercha_core.Tasks.Redis.Tracks.{
  Reached, in_unread, x_add_unread, unfinished, needed, Safe, run_command-Safe, x_add-Reached,
  z_add-Reached, sent_cons, either_way, is_whole, exec_whole, run_commands-append,
}
use sercha_core.Tasks.Redis.Others.{but_one, and_one, run_command-SafeBut}

pub entering-Safe :
    (now : ℕ) (t : Task) (s : Server) → Safe now s → Safe now (run_commands (entering now t) s)
unfolding entering run_commands
entering-Safe now t s safe =
    let set : Server = run_command (set_task t.id t (now + ttl)) s in
    let but =
      run_command-SafeBut t.id now (set_task t.id t (now + ttl)) s refl refl
        (but_one t.id now s safe) in
    elim (Bool-cases (ltb now t.scheduled_for)) [
      | inl later ↦ rw later (
          and_one t.id now _ (λ _. z_add-Reached t.id (score t) set)
            (run_command-SafeBut t.id now (z_add t.id (score t)) set tt tt but))
      | inr now_due ↦ rw now_due (
          and_one t.id now _ (λ _. x_add-Reached t.id set)
            (run_command-SafeBut t.id now (x_add t.id) set tt tt but))
    ]

pub enqueue-Safe :
    (f : Faults) (now : ℕ) (t : Task) (s : Server)
    → is_whole f.cut ≡ true
    → Safe now s
    → Safe now (enqueue f now t s).1
unfolding enqueue
enqueue-Safe f now t s whole safe =
    exec_whole (Safe now) f.cut (entering now t) s whole safe (entering-Safe now t s safe)

all_entering-Safe :
    (now : ℕ) (ts : List Task) (s : Server)
    → Safe now s
    → Safe now (run_commands (all_entering now ts) s)
unfolding all_entering run_commands
all_entering-Safe now [] s safe = safe
all_entering-Safe now (t ∷ ts) s safe =
    rw (run_commands-append (entering now t) (all_entering now ts) s)
      (all_entering-Safe now ts (run_commands (entering now t) s) (entering-Safe now t s safe))

pub enqueue_batch-Safe :
    (f : Faults) (now : ℕ) (ts : List Task) (s : Server)
    → is_whole f.cut ≡ true
    → Safe now s
    → Safe now (enqueue_batch f now ts s).1
unfolding enqueue_batch
enqueue_batch-Safe f now [] s whole safe = safe
enqueue_batch-Safe f now (t ∷ ts) s whole safe =
    exec_whole (Safe now) f.cut (all_entering now (t ∷ ts)) s whole safe
      (all_entering-Safe now (t ∷ ts) s safe)

-- A task that was read is live in the store, under its ID.
pub get_task-some :
    (fails : Bool) (now : ℕ) (id : String) (s : Server) {t : Task}
    → Named s
    → get_task fails now id s ≡ ok (some t)
    → t.id ≡ id
unfolding get_task
get_task-some true now id s named h = absurd (ground arith)
get_task-some false now id s {t} named h = elim (Option-cases (lookup id s.tasks)) [
  | inl nothing ↦ absurd (ground arith)
  | inr ((u, e), found) ↦ elim (Bool-cases (ltb now e)) [
    | inl alive ↦
        let same : u ≡ t = ground arith in
        ap (λ (x : Task). x.id) (sym same) ∙ named.keyed id u e found
    | inr dead ↦ absurd (ground arith)
  ]
]

pub get_task-none :
    (fails : Bool) (now : ℕ) (id : String) (s : Server)
    → get_task fails now id s ≡ ok none
    → needed now id s ≡ false
unfolding get_task needed
get_task-none fails now id s h = ground arith

pub read_fine :
    (fails : Bool) (now : ℕ) (id : String) (s : Server) {e : Error}
    → fails ≡ false
    → get_task fails now id s ≡ err e
    → ⊥
unfolding get_task
read_fine fails now id s h k = ground arith

sent_nil : (cut : Option ℕ) → sent cut [] ≡ []
sent_nil none = refl
sent_nil (some zero) = refl
sent_nil (some (suc n)) = refl

-- The reads of due tasks do not fail.
abbrev pub PromotesAll : Faults → Type 0
PromotesAll f = (id : String) → f.promoted_fails id ≡ false

-- A due task that is in the stream leaves the sorted set, and one that is not needed does.
z_rem-Safe :
    (now : ℕ) (id : String) (s : Server)
    → (needed now id s ≡ true → Reached id (run_command (z_rem id) s))
    → Safe now s
    → Safe now (run_command (z_rem id) s)
unfolding needed run_command
z_rem-Safe now id s h safe =
    and_one id now (run_command (z_rem id) s) h
      (run_command-SafeBut id now (z_rem id) s tt refl (but_one id now s safe))

added-Reached :
    (i id : String) (s : Server) → Reached i (run_command (z_rem id) (run_command (x_add i) s))
unfolding run_command
added-Reached i id s = in_unread s.next_id (x_add_unread i s)

x_add-Safe : (now : ℕ) (id : String) (s : Server) → Safe now s → Safe now (run_command (x_add id) s)
unfolding needed run_command
x_add-Safe now id s safe = run_command-Safe now (x_add id) s tt (λ i need. (need, tt)) safe

needed_same :
    (now : ℕ) (id : String) (s s' : Server)
    → s.tasks ≡ s'.tasks
    → needed now id s ≡ needed now id s'
unfolding needed
needed_same now id s s' same =
    ap (λ (db : Table (Task × ℕ)). unfinished (live now (lookup id db))) same

promotions-Safe :
    (f : Faults) (now : ℕ) (s₀ : Server) (es : Table ℕ) (cut : Option ℕ) (s : Server)
    → PromotesAll f
    → Named s₀
    → s.tasks ≡ s₀.tasks
    → Safe now s
    → Safe now (run_commands (sent cut (promotions f now s₀ es)) s)
unfolding promotions run_commands run_command
promotions-Safe f now s₀ [] cut s reads named same safe = rw (sent_nil cut) safe
promotions-Safe f now s₀ ((id, sc) ∷ es) cut s reads named same safe =
    let rest = promotions f now s₀ es in
    elim (Result-cases (get_task (f.promoted_fails id) now id s₀)) [
      | inl (none, there) ↦
          let idle =
            needed_same now id s s₀ same ∙ get_task-none (f.promoted_fails id) now id s₀ there in
          rw there (
            sent_cons (Safe now) cut (z_rem id) rest s safe (λ cut'.
              promotions-Safe f now s₀ es cut' (run_command (z_rem id) s) reads named same
                (z_rem-Safe now id s (λ need. absurd (ground arith)) safe)))
      | inl (some t, there) ↦
          let named_id = get_task-some (f.promoted_fails id) now id s₀ {t = t} named there in
          let added = run_command (x_add t.id) s in
          let safe_added = x_add-Safe now t.id s safe in
          let reached =
            subst (λ (k : String). Reached k (run_command (z_rem id) added)) named_id
              (added-Reached t.id id s) in
          rw there (
            sent_cons (Safe now) cut (x_add t.id) (z_rem id ∷ rest) s safe (λ cut'.
              sent_cons (Safe now) cut' (z_rem id) rest added safe_added (λ cut''.
                promotions-Safe f now s₀ es cut'' (run_command (z_rem id) added) reads named same
                  (z_rem-Safe now id added (λ _. reached) safe_added))))
      | inr (e, failed) ↦ absurd (read_fine (f.promoted_fails id) now id s₀ (reads id) failed)
    ]

pub promote_scheduled_tasks-Safe :
    (f : Faults) (now : ℕ) (s : Server)
    → PromotesAll f
    → Safe now s
    → Safe now (promote_scheduled_tasks f now s)
unfolding promote_scheduled_tasks exec
promote_scheduled_tasks-Safe f now s reads safe =
    either_way (Safe now) f.range_fails safe
      (promotions-Safe f now s (due (now / second) s.delayed) f.cut s reads safe.0 refl safe)
