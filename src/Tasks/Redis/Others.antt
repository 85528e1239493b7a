-- ===== src/Tasks/Redis/Others.antt =====
-- The commands that adapters/driven/queue/redis/queue.go sends for one task, and what they leave of
-- all the others.
use sercha_core.Base.{
  ℕ, String, true, false, ◌≡◌, refl, sym, ap, ◌∙◌, Option, some, List, [], ◌∷◌, All, lookup,
  lookup-put, lookup-remove, str_eq, eq_iff, arith, Bool-cases, inl, inr,
}
use mathlib.Core.Path.{subst}
use sercha_core.Tasks.Domain.{Task, is_over}
use sercha_core.Tasks.Redis.{live}
use sercha_core.Tasks.Redis.Store.{
  Server, Command, set_task, set_msg, del_task, del_msg, z_add, z_rem, x_add, x_ack, x_del,
  run_command, run_commands,
}
use sercha_core.Tasks.Redis.Names.{in_stream, Named, Fits, run_command-Named}
use sercha_core.Tasks.Redis.Tracks.{Reached, needed, unfinished, Safe, Spares, run_command-Reached}

-- Every other task that is not over waits to be taken.
abbrev pub SafeBut : String → ℕ → Server → Type 0
SafeBut j now s =
    Named s × ((id : String) → str_eq j id ≡ false → needed now id s ≡ true → Reached id s)

-- A command for this task, or one on messages that are for no other.
abbrev pub IsMine : String → Command → Server → Type 0
IsMine j (set_task i t e) s = i ≡ j
IsMine j (set_msg i m e) s = Unit
IsMine j (del_task i) s = i ≡ j
IsMine j (del_msg i) s = Unit
IsMine j (z_add i score) s = Unit
IsMine j (z_rem i) s = i ≡ j
IsMine j (x_add i) s = Unit
IsMine j (x_ack m) s = (id : String) → str_eq j id ≡ false → in_stream m (some id) s ≡ false
IsMine j (x_del m) s = (id : String) → str_eq j id ≡ false → in_stream m (some id) s ≡ false

mine-Spares :
    (j id : String) (c : Command) (s : Server) → str_eq j id ≡ false → IsMine j c s → Spares id c s
mine-Spares j id (set_task i t e) s h mine = tt
mine-Spares j id (set_msg i m e) s h mine = tt
mine-Spares j id (del_task i) s h mine = tt
mine-Spares j id (del_msg i) s h mine = tt
mine-Spares j id (z_add i score) s h mine = tt
mine-Spares j id (z_rem i) s h mine = ap (λ (k : String). str_eq k id) mine ∙ h
mine-Spares j id (x_add i) s h mine = tt
mine-Spares j id (x_ack m) s h mine = mine id h
mine-Spares j id (x_del m) s h mine = mine id h

mine_tasks :
    (j id : String) (c : Command) (s : Server)
    → str_eq j id ≡ false
    → IsMine j c s
    → lookup id (run_command c s).tasks ≡ lookup id s.tasks
unfolding run_command
mine_tasks j id (set_task i t e) s h mine =
    let other = ap (λ (k : String). str_eq k id) mine ∙ h in
    ground (arith, lookup-put i id (t, e) s.tasks)
mine_tasks j id (set_msg i m e) s h mine = refl
mine_tasks j id (del_task i) s h mine =
    let other = ap (λ (k : String). str_eq k id) mine ∙ h in
    ground (arith, lookup-remove i id s.tasks)
mine_tasks j id (del_msg i) s h mine = refl
mine_tasks j id (z_add i score) s h mine = refl
mine_tasks j id (z_rem i) s h mine = refl
mine_tasks j id (x_add i) s h mine = refl
mine_tasks j id (x_ack m) s h mine = refl
mine_tasks j id (x_del m) s h mine = refl

pub run_command-SafeBut :
    (j : String) (now : ℕ) (c : Command) (s : Server)
    → Fits c s
    → IsMine j c s
    → SafeBut j now s
    → SafeBut j now (run_command c s)
unfolding needed
run_command-SafeBut j now c s fit mine safe = (
  run_command-Named c s fit safe.0,
  λ id other need. run_command-Reached id c s (mine-Spares j id c s other mine) (
      safe.1 id other (
        ap (λ (o : Option (Task × ℕ)). unfinished (live now o))
          (sym (mine_tasks j id c s other mine))
        ∙ need)),
)

abbrev pub AllMine : String → List Command → Type 0
AllMine j = All (λ c. (s : Server) → Fits c s × IsMine j c s)

pub run_commands-SafeBut :
    (j : String) (now : ℕ) (cs : List Command) (s : Server)
    → AllMine j cs
    → SafeBut j now s
    → SafeBut j now (run_commands cs s)
unfolding run_commands
run_commands-SafeBut j now [] s mine safe = safe
run_commands-SafeBut j now (c ∷ cs) s mine safe =
    run_commands-SafeBut j now cs (run_command c s) mine.1
      (run_command-SafeBut j now c s (mine.0 s).0 (mine.0 s).1 safe)

pub but_one : (j : String) (now : ℕ) (s : Server) → Safe now s → SafeBut j now s
but_one j now s safe = (safe.0, λ id other need. safe.1 id need)

pub and_one :
    (j : String) (now : ℕ) (s : Server)
    → (needed now j s ≡ true → Reached j s)
    → SafeBut j now s
    → Safe now s
and_one j now s reached safe = (
  safe.0,
  λ id need. elim (Bool-cases (str_eq j id)) [
    | inl e ↦
        let same = (eq_iff j id).0 e in
        subst (λ (k : String). Reached k s) same
          (reached (subst (λ (k : String). needed now k s ≡ true) (sym same) need))
    | inr e ↦ safe.1 id e need
  ],
)

-- A task that was written last is over or not, as it was written.
pub needed-put :
    (now : ℕ) (id : String) (t : Task) (e : ℕ) (s : Server)
    → is_over t.status ≡ true
    → lookup id s.tasks ≡ some (t, e)
    → needed now id s ≡ false
unfolding needed
needed-put now id t e s over found = ground arith
