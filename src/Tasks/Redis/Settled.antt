-- ===== src/Tasks/Redis/Settled.antt =====
-- Ack and Nack of adapters/driven/queue/redis/queue.go.
use sercha_core.Base.{
  ℕ, ◌+◌, Result-cases, String, Bool, true, false, ◌≡◌, refl, sym, ap, ◌∙◌, Option, none, some,
  List, [], ◌∷◌, Table, put, lookup, lookup-put, Result, ok, eq_iff, eq_refl, arith, Bool-cases,
  Option-cases, inl, inr,
}
use mathlib.Core.Path.{subst}
use sercha_core.Tasks.Domain.{Task, can_retry, retry, mark_completed, mark_failed, is_over}
use sercha_core.Tasks.Redis.{
  Faults, ttl, score, live, get_task, msg_of, found_msg, acknowledging, ack_of, ack, settling, nack,
  cancelled,
}
use sercha_core.Tasks.Redis.Store.{
  Server, Command, set_task, del_msg, z_add, x_ack, x_del, run_command, run_commands, exec,
}
use sercha_core.Tasks.Redis.Names.{Named, in_stream}
use sercha_core.Tasks.Redis.Tracks.{
  Reached, needed, unfinished, Safe, run_command-Reached, z_add-Reached, is_whole, exec_whole,
}
use sercha_core.Tasks.Redis.Others.{
  SafeBut, IsMine, AllMine, but_one, and_one, run_command-SafeBut, run_commands-SafeBut, needed-put,
}
use sercha_core.Tasks.Redis.Entries.{get_task-some, get_task-none, read_fine}

-- The store after the message of a task is acknowledged and deleted.
abbrev acked : Option ℕ → Server → Server
acked none s = s
acked (some m) s = run_command (x_del m) (run_command (x_ack m) s)

run_acknowledging :
    (o : Option ℕ) (cs : List Command) (s : Server)
    → run_commands (acknowledging o cs) s ≡ run_commands cs (acked o s)
unfolding run_commands
run_acknowledging none cs s = refl
run_acknowledging (some m) cs s = refl

acked_tasks : (o : Option ℕ) (s : Server) → (acked o s).tasks ≡ s.tasks
unfolding run_command
acked_tasks none s = refl
acked_tasks (some m) s = refl

-- The message that is kept for a task is for no other.
abbrev IsOwn : String → Option ℕ → Server → Type 0
IsOwn id o s = (m : ℕ) → o ≡ some m → IsMine id (x_ack m) s

msg_of-IsOwn :
    (fails : Bool) (now : ℕ) (id : String) (s : Server)
    → Named s
    → IsOwn id (found_msg (msg_of fails now id s)) s
msg_of-IsOwn true now id s named m h j other = absurd (ground arith)
msg_of-IsOwn false now id s named m h j other = elim (Bool-cases (in_stream m (some j) s)) [
  | inr absent ↦ absent
  | inl there ↦ elim (Option-cases (lookup id s.msgs)) [
    | inl nothing ↦ absurd (ground arith)
    | inr ((k, e), found) ↦
        let same : k ≡ m = ground arith in
        let for_it = named.kept id m e (some j) (found ∙ ap (λ (l : ℕ). some (l, e)) same) there in
        absurd (ground (arith, eq_iff id j))
  ]
]

acked-SafeBut :
    (id : String) (now : ℕ) (o : Option ℕ) (s : Server)
    → IsOwn id o s
    → Safe now s
    → SafeBut id now (acked o s)
unfolding run_command
acked-SafeBut id now none s own safe = but_one id now s safe
acked-SafeBut id now (some m) s own safe =
    run_command-SafeBut id now (x_del m) (run_command (x_ack m) s) tt (own m refl)
      (run_command-SafeBut id now (x_ack m) s tt (own m refl) (but_one id now s safe))

-- A pipeline that acknowledges a task and goes on with commands for it.
settling-Safe :
    (f : Faults) (id : String) (now : ℕ) (o : Option ℕ) (cs : List Command) (s : Server)
    → is_whole f.cut ≡ true
    → IsOwn id o s
    → AllMine id cs
    → (let s' = run_commands cs (acked o s) in needed now id s' ≡ true → Reached id s')
    → Safe now s
    → Safe now (exec f.cut (acknowledging o cs) s).1
settling-Safe f id now o cs s whole own mine reached safe =
    exec_whole (Safe now) f.cut (acknowledging o cs) s whole safe (
      subst (Safe now) (sym (run_acknowledging o cs s)) (
        and_one id now (run_commands cs (acked o s)) reached
          (run_commands-SafeBut id now cs (acked o s) mine (acked-SafeBut id now o s own safe))))

pub lookup-put_same {ℓ} :
    {V : Type ℓ} (id : String) (v : V) (db : Table V) → lookup id (put id v db) ≡ some v
lookup-put_same id v db = ground (arith, lookup-put id id v db, eq_refl id)

needed_tasks :
    (now : ℕ) (id : String) (s s' : Server)
    → s'.tasks ≡ s.tasks
    → needed now id s ≡ false
    → needed now id s' ≡ false
unfolding needed
needed_tasks now id s s' same h =
    ap (λ (db : Table (Task × ℕ)). unfinished (live now (lookup id db))) same ∙ h

pub never : {A : Type 0} (b : Bool) → b ≡ false → b ≡ true → A
never b h k = absurd (ground arith)

completed_over : (now : ℕ) (t : Task) → is_over (mark_completed now t).status ≡ true
unfolding mark_completed is_over
completed_over now t = refl

failed_over :
    (now : ℕ) (reason : String) (t : Task) → is_over (mark_failed now reason t).status ≡ true
unfolding mark_failed is_over
failed_over now reason t = refl

pub cancelled_over : (now : ℕ) (t : Task) → is_over (cancelled now t).status ≡ true
unfolding is_over
cancelled_over now t = refl

ack_of-Safe :
    (f : Faults) (now : ℕ) (id : String) (o : Option ℕ) (s : Server)
    → is_whole f.cut ≡ true
    → f.get_fails id ≡ false
    → IsOwn id o s
    → Safe now s
    → Safe now (ack_of f now id (ok o) s).1
unfolding run_commands run_command mark_completed
ack_of-Safe f now id o s whole reads own safe =
    elim (Result-cases (get_task (f.get_fails id) now id s)) [
      | inl (none, there) ↦
          let idle = get_task-none (f.get_fails id) now id s there in
          rw there (
            settling-Safe f id now o (del_msg id ∷ []) s whole own ((λ s'. (tt, tt)), tt)
              (never _ (needed_tasks now id s _ (acked_tasks o s) idle)) safe)
      | inl (some t, there) ↦
          let named = get_task-some (f.get_fails id) now id s {t = t} safe.0 there in
          let over = mark_completed now t in
          rw there (
            settling-Safe f id now o (set_task id over (now + ttl) ∷ (del_msg id ∷ [])) s whole own
              ((λ s'. (named, refl)), ((λ s'. (tt, tt)), tt))
              (never _ (
                needed-put now id over (now + ttl) _ (completed_over now t)
                  (lookup-put_same id (over, now + ttl) _)))
              safe)
      | inr (e, failed) ↦ absurd (read_fine (f.get_fails id) now id s reads failed)
    ]

pub ack-Safe :
    (f : Faults) (now : ℕ) (id : String) (s : Server)
    → is_whole f.cut ≡ true
    → f.get_fails id ≡ false
    → Safe now s
    → Safe now (ack f now id s).1
unfolding ack
ack-Safe f now id s whole reads safe = elim (Result-cases (msg_of f.msg_fails now id s)) [
  | inl (o, there) ↦ rw there (
      ack_of-Safe f now id o s whole reads
        (subst (λ (r : Result (Option ℕ)). IsOwn id (found_msg r) s) there
          (msg_of-IsOwn f.msg_fails now id s safe.0))
        safe)
  | inr (e, failed) ↦ rw failed safe
]

settled-Safe :
    (f : Faults) (now : ℕ) (id reason : String) (o : Option ℕ) (t : Task) (s : Server)
    → is_whole f.cut ≡ true
    → t.id ≡ id
    → IsOwn id o s
    → Safe now s
    → Safe now (exec f.cut (acknowledging o (settling now id reason t)) s).1
unfolding settling run_commands run_command retry mark_failed
settled-Safe f now id reason o t s whole named own safe = elim (Bool-cases (can_retry t)) [
  | inl again ↦
      let t' = retry now reason t in
      let set : Server = run_command (set_task id t' (now + ttl)) (acked o s) in
      let added : Server = run_command (z_add t.id (score t')) set in
      rw again (
        settling-Safe f id now o
          (set_task id t' (now + ttl) ∷ (z_add t.id (score t') ∷ (del_msg id ∷ []))) s whole own
          ((λ s'. (named, refl)), ((λ s'. (tt, tt)), ((λ s'. (tt, tt)), tt)))
          (λ need.
            run_command-Reached id (del_msg id) added tt
              (subst (λ (k : String). Reached k added) named (z_add-Reached t.id (score t') set)))
          safe)
  | inr over ↦
      let t' = mark_failed now reason t in
      rw over (
        settling-Safe f id now o (set_task id t' (now + ttl) ∷ (del_msg id ∷ [])) s whole own
          ((λ s'. (named, refl)), ((λ s'. (tt, tt)), tt))
          (never _ (
            needed-put now id t' (now + ttl) _ (failed_over now reason t)
              (lookup-put_same id (t', now + ttl) _)))
          safe)
]

pub nack-Safe :
    (f : Faults) (now : ℕ) (id reason : String) (s : Server)
    → is_whole f.cut ≡ true
    → Safe now s
    → Safe now (nack f now id reason s).1
unfolding nack
nack-Safe f now id reason s whole safe = elim (Result-cases (get_task (f.get_fails id) now id s)) [
  | inl (none, there) ↦ rw there safe
  | inl (some t, there) ↦ rw there (
      settled-Safe f now id reason (found_msg (msg_of f.msg_fails now id s)) t s whole
        (get_task-some (f.get_fails id) now id s {t = t} safe.0 there)
        (msg_of-IsOwn f.msg_fails now id s safe.0) safe)
  | inr (e, failed) ↦ rw failed safe
]
