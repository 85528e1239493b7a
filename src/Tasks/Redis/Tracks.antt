-- ===== src/Tasks/Redis/Tracks.antt =====
-- Where a task of adapters/driven/queue/redis/queue.go waits to be taken: in the sorted set, in the
-- part of the stream that was not read, or in the part that was and is not acknowledged. What a
-- command leaves of it.
use mathlib.Core.Path.{subst}
use sercha_core.Base.{
  ℕ, zero, suc, String, Bool, true, false, not, ◌||◌, ◌≡◌, refl, sym, Option, none, some, List, [],
  ◌∷◌, ◌++◌, Table, lookup, exists_in, put, remove, lookup-put, lookup-remove, ◌==◌, ==_iff, str_eq,
  eq_refl, arith, Bool-cases, inl, inr, if◌then◌else◌,
}
use sercha_core.Tasks.Domain.{Task, is_over}
use sercha_core.Tasks.Redis.{live}
use sercha_core.Tasks.Redis.Store.{
  held, Delivery, Server, Command, set_task, set_msg, del_task, del_msg, z_add, z_rem, x_add, x_ack,
  x_del, run_command, run_commands, drop_delivery, attempt, sent, exec,
}
use sercha_core.Tasks.Redis.Names.{
  has, has-append, has-drop, in_stream, Named, Fits, run_command-Named,
}

pub held-append : (m : ℕ) (ds es : List Delivery) → held m (ds ++ es) ≡ (held m ds || held m es)
unfolding held
held-append m [] es = refl
held-append m (d ∷ ds) es = ground (arith, held-append m ds es)

pub held-drop :
    (m k : ℕ) (ds : List Delivery)
    → held m (drop_delivery k ds) ≡ (if k == m then false else held m ds)
unfolding held drop_delivery
held-drop m k [] = ground arith
held-drop m k (d ∷ ds) =
    ground (arith, held-drop m k ds, ==_iff d.msg_id k, ==_iff d.msg_id m, ==_iff k m)

pub data Reached (id : String) (s : Server) : Type 0 where
  in_delayed : exists_in id s.delayed ≡ true → Reached id s
  in_unread : (m : ℕ) → has m (some id) s.unread ≡ true → Reached id s
  in_read : (m : ℕ) → has m (some id) s.read ≡ true → held m s.deliveries ≡ true → Reached id s

abbrev pub unfinished : Option Task → Bool
unfinished none = false
unfinished (some t) = not (is_over t.status)

-- The store has the task at this time, and the task is not over.
unfoldable pub needed : ℕ → String → Server → Bool
needed now id s = unfinished (live now (lookup id s.tasks))

-- Every task that is not over waits to be taken.
abbrev pub Tracked : ℕ → Server → Type 0
Tracked now s = (id : String) → needed now id s ≡ true → Reached id s

abbrev pub Safe : ℕ → Server → Type 0
Safe now s = Named s × Tracked now s

pub exists-put :
    {V : Type 0} (k j : String) (v : V) (t : Table V)
    → exists_in j (put k v t) ≡ (str_eq k j || exists_in j t)
exists-put k j v t = ground (arith, lookup-put k j v t)

pub exists-remove :
    {V : Type 0} (k j : String) (t : Table V)
    → exists_in j (remove k t) ≡ (if str_eq k j then false else exists_in j t)
exists-remove k j t = ground (arith, lookup-remove k j t)

-- A command that takes nothing away of where this task waits.
abbrev pub Spares : String → Command → Server → Type 0
Spares id (set_task j t e) s = Unit
Spares id (set_msg j m e) s = Unit
Spares id (del_task j) s = Unit
Spares id (del_msg j) s = Unit
Spares id (z_add j score) s = Unit
Spares id (z_rem j) s = str_eq j id ≡ false
Spares id (x_add j) s = Unit
Spares id (x_ack m) s = in_stream m (some id) s ≡ false
Spares id (x_del m) s = in_stream m (some id) s ≡ false

pub Reached-moved :
    (id : String) (s s' : Server)
    → (exists_in id s.delayed ≡ true → exists_in id s'.delayed ≡ true)
    → ((m : ℕ) → has m (some id) s.unread ≡ true → has m (some id) s'.unread ≡ true)
    → ((m : ℕ)
        → has m (some id) s.read ≡ true
        → held m s.deliveries ≡ true
        → (has m (some id) s'.read ≡ true) × (held m s'.deliveries ≡ true))
    → Reached id s
    → Reached id s'
Reached-moved id s s' d u r (in_delayed h) = in_delayed (d h)
Reached-moved id s s' d u r (in_unread m h) = in_unread m (u m h)
Reached-moved id s s' d u r (in_read m h k) = in_read m (r m h k).0 (r m h k).1

other :
    (m k : ℕ) (o : Option String) (s : Server)
    → in_stream m o s ≡ false
    → in_stream k o s ≡ true
    → (m == k) ≡ false
other m k o s h there = elim (Bool-cases (m == k)) [
  | inl e ↦
      absurd (
        ground (arith, h, subst (λ (l : ℕ). in_stream l o s ≡ true) (sym ((==_iff m k).0 e)) there))
  | inr e ↦ e
]

pub has_one : (m : ℕ) (o : Option String) → has m o (record { msg_id = m; task_id = o } ∷ []) ≡ true
unfolding has
has_one m none = ground (arith, ==_iff m m)
has_one m (some id) = ground (arith, ==_iff m m, eq_refl id)

pub run_command-Reached :
    (id : String) (c : Command) (s : Server)
    → Spares id c s
    → Reached id s
    → Reached id (run_command c s)
unfolding run_command
run_command-Reached id (set_task j t e) s spare =
    Reached-moved id s _ (λ h. h) (λ m h. h) (λ m h k. (h, k))
run_command-Reached id (set_msg j m e) s spare =
    Reached-moved id s _ (λ h. h) (λ m h. h) (λ m h k. (h, k))
run_command-Reached id (del_task j) s spare =
    Reached-moved id s _ (λ h. h) (λ m h. h) (λ m h k. (h, k))
run_command-Reached id (del_msg j) s spare =
    Reached-moved id s _ (λ h. h) (λ m h. h) (λ m h k. (h, k))
run_command-Reached id (z_add j score) s spare =
    Reached-moved id s _ (λ h. ground (arith, exists-put j id score s.delayed)) (λ m h. h)
      (λ m h k. (h, k))
run_command-Reached id (z_rem j) s spare =
    Reached-moved id s _ (λ h. ground (arith, exists-remove j id s.delayed)) (λ m h. h)
      (λ m h k. (h, k))
run_command-Reached id (x_add j) s spare =
    Reached-moved id s _ (λ h. h)
      (λ m h. ground (
        arith,
        has-append m (some id) s.unread (record { msg_id = s.next_id; task_id = some j } ∷ []),
      ))
      (λ m h k. (h, k))
run_command-Reached id (x_ack m) s spare =
    Reached-moved id s _ (λ h. h) (λ k h. h)
      (λ k h held_k.
        (h, ground (arith, held-drop k m s.deliveries, other m k (some id) s spare (ground arith))))
run_command-Reached id (x_del m) s spare =
    Reached-moved id s _ (λ h. h)
      (λ k h.
        ground (arith, has-drop k m (some id) s.unread, other m k (some id) s spare (ground arith)))
      (λ k h held_k. (
        ground (arith, has-drop k m (some id) s.read, other m k (some id) s spare (ground arith)),
        held_k,
      ))

-- A command after which no more is needed, and which takes away nothing of what is.
pub run_command-Safe :
    (now : ℕ) (c : Command) (s : Server)
    → Fits c s
    → ((id : String)
        → needed now id (run_command c s) ≡ true
        → (needed now id s ≡ true) × Spares id c s)
    → Safe now s
    → Safe now (run_command c s)
run_command-Safe now c s fit h safe = (
  run_command-Named c s fit safe.0,
  λ id need. run_command-Reached id c s (h id need).1 (safe.1 id (h id need).0),
)

pub x_add_unread :
    (id : String) (s : Server) → has s.next_id (some id) (run_command (x_add id) s).unread ≡ true
unfolding run_command
x_add_unread id s = ground (
  arith,
  has-append s.next_id (some id) s.unread (record { msg_id = s.next_id; task_id = some id } ∷ []),
  has_one s.next_id (some id),
)

pub x_add-Reached : (id : String) (s : Server) → Reached id (run_command (x_add id) s)
unfolding run_command
x_add-Reached id s = in_unread s.next_id (x_add_unread id s)

pub z_add-Reached :
    (id : String) (score : ℕ) (s : Server) → Reached id (run_command (z_add id score) s)
unfolding run_command
z_add-Reached id score s = in_delayed (ground (arith, exists-put id id score s.delayed, eq_refl id))

pub either_way {ℓ} :
    {A : Type ℓ} (P : A → Type 0) (b : Bool) {x y : A} → P x → P y → P (if b then x else y)
either_way P true h k = h
either_way P false h k = k

pub attempt-Safe :
    (now : ℕ) (fails : Bool) (c : Command) (s : Server)
    → Safe now s
    → Safe now (run_command c s)
    → Safe now (attempt fails c s)
attempt-Safe now true c s h k = h
attempt-Safe now false c s h k = k

-- The commands of a pipeline of which any number may arrive, one by one.
pub sent_cons :
    (P : Server → Type 0) (cut : Option ℕ) (c : Command) (cs : List Command) (s : Server)
    → P s
    → ((cut' : Option ℕ) → P (run_commands (sent cut' cs) (run_command c s)))
    → P (run_commands (sent cut (c ∷ cs)) s)
unfolding run_commands
sent_cons P none c cs s h k = k none
sent_cons P (some zero) c cs s h k = h
sent_cons P (some (suc n)) c cs s h k = k (some n)

-- A pipeline that arrives whole or not at all.
abbrev pub is_whole : Option ℕ → Bool
is_whole none = true
is_whole (some zero) = true
is_whole (some (suc n)) = false

pub exec_whole :
    (P : Server → Type 0) (cut : Option ℕ) (cs : List Command) (s : Server)
    → is_whole cut ≡ true
    → P s
    → P (run_commands cs s)
    → P (exec cut cs s).1
unfolding exec run_commands
exec_whole P none cs s w h k = k
exec_whole P (some zero) cs s w h k = h
exec_whole P (some (suc n)) cs s w h k = absurd (ground arith)

pub run_commands-append :
    (cs ds : List Command) (s : Server)
    → run_commands (cs ++ ds) s ≡ run_commands ds (run_commands cs s)
unfolding run_commands
run_commands-append [] ds s = refl
run_commands-append (c ∷ cs) ds s = run_commands-append cs ds (run_command c s)
