-- ===== src/Tasks/Redis/Removals.antt =====
-- CancelTask and PurgeTasks of adapters/driven/queue/redis/queue.go.
use sercha_core.Base.{
  ℕ, ◌+◌, Error, Result-cases, String, true, false, ◌≡◌, refl, Option, none, some, List, [], ◌∷◌,
  Table, lookup-remove, Result, eq_refl, arith, inl, inr,
}
use sercha_core.Tasks.Domain.{Task, is_pending}
use sercha_core.Tasks.Redis.{
  Faults, ttl, get_task, cancelled, cancel_task, purges, purge_cutoff, purge_keys, purge_tasks,
}
use sercha_core.Tasks.Redis.Store.{
  Server, Command, set_task, del_task, z_rem, run_command, run_commands,
}
use sercha_core.Tasks.Redis.Tracks.{needed, Safe, either_way, is_whole, exec_whole}
use sercha_core.Tasks.Redis.Others.{
  but_one, and_one, run_command-SafeBut, run_commands-SafeBut, needed-put,
}
use sercha_core.Tasks.Redis.Entries.{get_task-some}
use sercha_core.Tasks.Redis.Settled.{never, cancelled_over, lookup-put_same}

pub cancel_task-Safe :
    (f : Faults) (now : ℕ) (id : String) (s : Server)
    → is_whole f.cut ≡ true
    → Safe now s
    → Safe now (cancel_task f now id s).1
unfolding cancel_task run_commands run_command
cancel_task-Safe f now id s whole safe = elim (Result-cases (get_task (f.get_fails id) now id s)) [
  | inl (none, there) ↦ rw there safe
  | inl (some t, there) ↦
      let named = get_task-some (f.get_fails id) now id s {t = t} safe.0 there in
      let t' = cancelled now t in
      let cs : List Command = z_rem id ∷ (set_task id t' (now + ttl) ∷ []) in
      rw there (
        either_way (λ (r : Result (Unit {0}) × Server). Safe now r.1) (is_pending t.status)
          (exec_whole (Safe now) f.cut cs s whole safe (
            and_one id now (run_commands cs s)
              (never _ (
                needed-put now id t' (now + ttl) _ (cancelled_over now t)
                  (lookup-put_same id (t', now + ttl) _)))
              (run_commands-SafeBut id now cs s ((λ s'. (tt, refl)), ((λ s'. (named, refl)), tt))
                (but_one id now s safe))))
          safe)
  | inr (e, failed) ↦ rw failed safe
]

gone : (now : ℕ) (id : String) (s : Server) → needed now id (run_command (del_task id) s) ≡ false
unfolding needed run_command
gone now id s = ground (arith, lookup-remove id id s.tasks, eq_refl id)

del_task-Safe :
    (now : ℕ) (id : String) (s : Server) → Safe now s → Safe now (run_command (del_task id) s)
del_task-Safe now id s safe =
    and_one id now (run_command (del_task id) s) (never _ (gone now id s))
      (run_command-SafeBut id now (del_task id) s tt refl (but_one id now s safe))

purge_keys-Safe :
    (f : Faults) (now cutoff : ℕ) (rows : Table (Task × ℕ)) (s : Server)
    → Safe now s
    → Safe now (purge_keys f now cutoff rows s).1
unfolding purge_keys
purge_keys-Safe f now cutoff [] s safe = safe
purge_keys-Safe f now cutoff ((id, _) ∷ rows) s safe = purge_keys-Safe f now cutoff rows _ (
    either_way (Safe now) (purges cutoff (get_task (f.get_fails id) now id s))
      (either_way (Safe now) (f.del_task_fails id) safe (del_task-Safe now id s safe)) safe)

pub purge_tasks-Safe :
    (f : Faults) (now older_than : ℕ) (s : Server)
    → Safe now s
    → Safe now (purge_tasks f now older_than s).1
unfolding purge_tasks
purge_tasks-Safe f now older_than s safe =
    either_way (λ (r : (ℕ × Option Error) × Server). Safe now r.1) f.scan_fails safe
      (purge_keys-Safe f now (purge_cutoff now older_than) s.tasks s safe)
