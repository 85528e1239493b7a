-- ===== src/Tasks/Redis/Names.antt =====
-- Which task a message of the stream is for, adapters/driven/queue/redis/queue.go: records stand under
-- the ID of their task, a message has a number of its own, and the message that is kept for a task is
-- one of that task. Every command keeps this.
use mathlib.Core.Path.{subst}
use sercha_core.Base.{
  ℕ, zero, suc, Table, All, ◌⊎◌, sym, ap, ◌∙◌, ◌<◌, String, Bool, true, false, ◌&&◌, ◌||◌, ◌≡◌,
  refl, Option, none, some, List, [], ◌∷◌, ◌++◌, lookup, lookup-put, lookup-remove, put, ◌==◌,
  ==_iff, str_eq, eq_iff, arith, Bool-cases, inl, inr, if◌then◌else◌,
}
use sercha_core.Tasks.Domain.{Task}
use sercha_core.Tasks.Redis.Store.{
  Message, Server, empty_server, Command, set_task, set_msg, del_task, del_msg, z_add, z_rem, x_add,
  x_ack, x_del, run_command, drop_message, run_commands, sent, exec,
}

abbrev pub is_for : Option String → Option String → Bool
is_for none none = true
is_for none (some j) = false
is_for (some id) none = false
is_for (some id) (some j) = str_eq j id

pub is_for_eq : (id o : Option String) → is_for id o ≡ true → id ≡ o
is_for_eq none none h = refl
is_for_eq none (some j) h = absurd (ground arith)
is_for_eq (some id) none h = absurd (ground arith)
is_for_eq (some id) (some j) h = ap some (sym ((eq_iff j id).0 h))

-- The list has a message with this number and this task.
unfoldable pub has : ℕ → Option String → List Message → Bool
has m id [] = false
has m id (x ∷ xs) = (x.msg_id == m && is_for id x.task_id) || has m id xs

pub has-append :
    (m : ℕ) (id : Option String) (xs ys : List Message)
    → has m id (xs ++ ys) ≡ (has m id xs || has m id ys)
unfolding has
has-append m id [] ys = refl
has-append m id (x ∷ xs) ys = ground (arith, has-append m id xs ys)

pub has-drop :
    (m k : ℕ) (id : Option String) (xs : List Message)
    → has m id (drop_message k xs) ≡ (if k == m then false else has m id xs)
unfolding has drop_message
has-drop m k id [] = ground arith
has-drop m k id (x ∷ xs) =
    ground (arith, has-drop m k id xs, ==_iff x.msg_id k, ==_iff x.msg_id m, ==_iff k m)

abbrev pub in_stream : ℕ → Option String → Server → Bool
in_stream m id s = has m id s.unread || has m id s.read

pub record Named (s : Server) : Type 0 where
  pub keyed : (id : String) (t : Task) (e : ℕ) → lookup id s.tasks ≡ some (t, e) → t.id ≡ id
  pub below : (m : ℕ) (id : Option String) → in_stream m id s ≡ true → m < s.next_id
  pub single :
      (m : ℕ) (id j : Option String) → in_stream m id s ≡ true → in_stream m j s ≡ true → id ≡ j
  pub kept_below : (id : String) (m e : ℕ) → lookup id s.msgs ≡ some (m, e) → m < s.next_id
  pub kept :
      (id : String) (m e : ℕ) (j : Option String)
      → lookup id s.msgs ≡ some (m, e)
      → in_stream m j s ≡ true
      → j ≡ some id

pub empty-Named : Named empty_server
unfolding lookup has
empty-Named = record {
  keyed = λ id t e h. absurd (ground arith);
  below = λ m id h. absurd (ground arith);
  single = λ m id j h k. absurd (ground arith);
  kept_below = λ id m e h. absurd (ground arith);
  kept = λ id m e j h k. absurd (ground arith);
}

-- What a command has to be for this: a record under its ID, a number of a message of the task.
abbrev pub Fits : Command → Server → Type 0
Fits (set_task id t e) s = t.id ≡ id
Fits (set_msg id m e) s =
    (m < s.next_id) × ((j : Option String) → in_stream m j s ≡ true → j ≡ some id)
Fits (del_task id) s = Unit
Fits (del_msg id) s = Unit
Fits (z_add id score) s = Unit
Fits (z_rem id) s = Unit
Fits (x_add id) s = Unit
Fits (x_ack m) s = Unit
Fits (x_del m) s = Unit

-- A store with no other records, numbers and messages.
pub Named-within :
    (s s' : Server)
    → ((id : String) (t : Task) (e : ℕ) → lookup id s'.tasks ≡ some (t, e) → t.id ≡ id)
    → s'.next_id ≡ s.next_id
    → ((id : String) (m e : ℕ) → lookup id s'.msgs ≡ some (m, e) → lookup id s.msgs ≡ some (m, e))
    → ((m : ℕ) (id : Option String) → in_stream m id s' ≡ true → in_stream m id s ≡ true)
    → Named s
    → Named s'
Named-within s s' keyed next msgs stream n = record {
  keyed = keyed;
  below = λ m id h. ground (arith, n.below m id (stream m id h));
  single = λ m id j h k. n.single m id j (stream m id h) (stream m j k);
  kept_below = λ id m e h. ground (arith, n.kept_below id m e (msgs id m e h));
  kept = λ id m e j h k. n.kept id m e j (msgs id m e h) (stream m j k);
}

added_cases :
    (m : ℕ) (id : String) (j : Option String) (s : Server)
    → in_stream m j (run_command (x_add id) s) ≡ true
    → (in_stream m j s ≡ true) ⊎ ((m ≡ s.next_id) × (j ≡ some id))
unfolding run_command has
added_cases m id j s h =
    let new : Message = record { msg_id = s.next_id; task_id = some id } in
    elim (Bool-cases (in_stream m j s)) [
      | inl old ↦ inl old
      | inr fresh ↦ inr (
        ground (arith, has-append m j s.unread (new ∷ []), ==_iff s.next_id m),
        is_for_eq j (some id) (ground (arith, has-append m j s.unread (new ∷ []))),
      )
    ]

x_add-Named : (id : String) (s : Server) → Named s → Named (run_command (x_add id) s)
unfolding run_command
x_add-Named id s n = record {
  keyed = n.keyed;
  below = λ m j h. elim (added_cases m id j s h) [
    | inl old ↦ omega (arith, n.below m j old)
    | inr new ↦ omega (arith, new.0)
  ];
  single = λ m i j h k. elim (added_cases m id i s h) [
    | inl old ↦ elim (added_cases m id j s k) [
      | inl old' ↦ n.single m i j old old'
      | inr new ↦ absurd (omega (arith, n.below m i old, new.0))
    ]
    | inr new ↦ elim (added_cases m id j s k) [
      | inl old ↦ absurd (omega (arith, n.below m j old, new.0))
      | inr new' ↦ new.1 ∙ sym new'.1
    ]
  ];
  kept_below = λ i m e h. omega (arith, n.kept_below i m e h);
  kept = λ i m e j h k. elim (added_cases m id j s k) [
    | inl old ↦ n.kept i m e j h old
    | inr new ↦ absurd (omega (arith, n.kept_below i m e h, new.0))
  ];
}

put_cases :
    {V : Type 0} (k j : String) (v u : V) (t : Table V)
    → lookup j (put k v t) ≡ some u
    → ((j ≡ k) × (u ≡ v)) ⊎ (lookup j t ≡ some u)
put_cases k j v u t h = elim (Bool-cases (str_eq k j)) [
  | inl e ↦ inl (sym ((eq_iff k j).0 e), ground (arith, lookup-put k j v t))
  | inr e ↦ inr (ground (arith, lookup-put k j v t))
]

pub run_command-Named : (c : Command) (s : Server) → Fits c s → Named s → Named (run_command c s)
unfolding run_command
run_command-Named (set_task id t e) s fit n =
    Named-within s _
      (λ j u e' h. elim (put_cases id j (t, e) (u, e') s.tasks h) [
        | inl new ↦ ap (λ (p : Task × ℕ). p.0.id) new.1 ∙ (fit ∙ sym new.0)
        | inr old ↦ n.keyed j u e' old
      ])
      refl (λ id m e h. h) (λ m id h. h) n
run_command-Named (set_msg id m e) s fit n = record {
  keyed = n.keyed;
  below = n.below;
  single = n.single;
  kept_below = λ i k e' h. elim (put_cases id i (m, e) (k, e') s.msgs h) [
    | inl new ↦ omega (arith, ap (λ (p : ℕ × ℕ). p.0) new.1, fit.0)
    | inr old ↦ n.kept_below i k e' old
  ];
  kept = λ i k e' j h r. elim (put_cases id i (m, e) (k, e') s.msgs h) [
    | inl new ↦
        let same : k ≡ m = ap (λ (p : ℕ × ℕ). p.0) new.1 in
        fit.1 j (subst (λ (l : ℕ). in_stream l j s ≡ true) same r) ∙ ap some (sym new.0)
    | inr old ↦ n.kept i k e' j old r
  ];
}
run_command-Named (del_task id) s fit n =
    Named-within s _ (λ j t e h. n.keyed j t e (ground (arith, lookup-remove id j s.tasks))) refl
      (λ id m e h. h) (λ m id h. h) n
run_command-Named (del_msg id) s fit n =
    Named-within s _ n.keyed refl (λ j m e h. ground (arith, lookup-remove id j s.msgs))
      (λ m id h. h) n
run_command-Named (z_add id score) s fit n =
    Named-within s _ n.keyed refl (λ id m e h. h) (λ m id h. h) n
run_command-Named (z_rem id) s fit n = Named-within s _ n.keyed refl (λ id m e h. h) (λ m id h. h) n
run_command-Named (x_add id) s fit n = x_add-Named id s n
run_command-Named (x_ack m) s fit n = Named-within s _ n.keyed refl (λ id m e h. h) (λ m id h. h) n
run_command-Named (x_del m) s fit n =
    Named-within s _ n.keyed refl (λ id m e h. h)
      (λ k id h. ground (arith, has-drop k m id s.unread, has-drop k m id s.read)) n

-- A list of commands that fit wherever they are run.
abbrev pub AllFit : List Command → Type 0
AllFit = All (λ c. (s : Server) → Fits c s)

pub run_commands-Named :
    (cs : List Command) (s : Server) → AllFit cs → Named s → Named (run_commands cs s)
unfolding run_commands
run_commands-Named [] s fit n = n
run_commands-Named (c ∷ cs) s fit n =
    run_commands-Named cs (run_command c s) fit.1 (run_command-Named c s (fit.0 s) n)

pub AllFit-append : (cs ds : List Command) → AllFit cs → AllFit ds → AllFit (cs ++ ds)
AllFit-append [] ds h k = k
AllFit-append (c ∷ cs) ds h k = (h.0, AllFit-append cs ds h.1 k)

sent-AllFit : (cut : Option ℕ) (cs : List Command) → AllFit cs → AllFit (sent cut cs)
sent-AllFit none cs h = h
sent-AllFit (some zero) cs h = tt
sent-AllFit (some (suc n)) [] h = tt
sent-AllFit (some (suc n)) (c ∷ cs) h = (h.0, sent-AllFit (some n) cs h.1)

pub exec-Named :
    (cut : Option ℕ) (cs : List Command) (s : Server)
    → AllFit cs
    → Named s
    → Named (exec cut cs s).1
unfolding exec
exec-Named cut cs s h n = run_commands-Named (sent cut cs) s (sent-AllFit cut cs h) n
