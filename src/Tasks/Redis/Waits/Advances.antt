-- ===== src/Tasks/Redis/Waits/Advances.antt =====
-- One dequeue of adapters/driven/queue/redis/queue.go where no message is abandoned.
use sercha_core.Base.{
  ℕ, Error, ◌+◌, ◌/◌, ◌≤◌, ◌<◌, String, false, ◌≡◌, refl, sym, ap, ◌∙◌, Option, none, some, List,
  [], ◌∷◌, ◌++◌, Table, put, lookup, lookup-put, Result, ok, err, ◌==◌, str_eq, eq_iff, arith,
  Bool-cases, inl, inr,
}
use mathlib.Core.Path.{subst}
use sercha_core.Tasks.Domain.{Task, second, mark_processing}
use sercha_core.Tasks.Redis.{ttl, get_task}
use sercha_core.Tasks.Redis.Reading.{
  claim_timeout, due, promotion, promotions, promote_scheduled_tasks, idle_ids, task_of, deliver,
  claim_first, claim_abandoned_task, read_task, read_message, read_next, dequeue_with_timeout,
}
use sercha_core.Tasks.Redis.Store.{
  Message, Delivery, Server, Command, x_add, z_rem, run_command, run_commands, exec, drop_delivery,
  as_delivered, group_read, read_group,
}
use sercha_core.Tasks.Redis.Tracks.{either_way}
use sercha_core.Tasks.Redis.Waits.Faultless.{no_faults, Fresh, Lasts}

-- Commands that add messages at most, behind those that are there.
abbrev Adds : List Command → Type 0
Adds cs =
    (s : Server)
    → (zs : List Message) × (((run_commands cs s).unread ≡ s.unread ++ zs)
        × (((run_commands cs s).deliveries ≡ s.deliveries) × ((run_commands cs s).tasks ≡ s.tasks)))

append_nil : {A : Type 0} (xs : List A) → xs ≡ xs ++ []
append_nil [] = refl
append_nil (x ∷ xs) = ap (◌∷◌ x) (append_nil xs)

pub append_assoc : {A : Type 0} (xs ys zs : List A) → (xs ++ ys) ++ zs ≡ xs ++ (ys ++ zs)
append_assoc [] ys zs = refl
append_assoc (x ∷ xs) ys zs = ap (◌∷◌ x) (append_assoc xs ys zs)

Adds-nil : Adds []
unfolding run_commands
Adds-nil s = ([], (append_nil s.unread, (refl, refl)))

Adds-rem : (id : String) (cs : List Command) → Adds cs → Adds (z_rem id ∷ cs)
unfolding run_commands run_command
Adds-rem id cs h s = h (run_command (z_rem id) s)

Adds-add : (id : String) (cs : List Command) → Adds cs → Adds (x_add id ∷ cs)
unfolding run_commands run_command
Adds-add id cs h s =
    let new : Message = record { msg_id = s.next_id; task_id = some id } in
    let (zs, rest) = h (run_command (x_add id) s) in
    (new ∷ zs, (rest.0 ∙ append_assoc s.unread (new ∷ []) zs, rest.1))

promoted-Adds :
    (id : String) (q : Result (Option Task)) (cs : List Command)
    → Adds cs
    → Adds (promotion id q ++ cs)
promoted-Adds id (ok (some t)) cs h = Adds-add t.id (z_rem id ∷ cs) (Adds-rem id cs h)
promoted-Adds id (ok none) cs h = Adds-rem id cs h
promoted-Adds id (err e) cs h = Adds-rem id cs h

promotions-Adds : (now : ℕ) (s : Server) (es : Table ℕ) → Adds (promotions no_faults now s es)
unfolding promotions
promotions-Adds now s [] = Adds-nil
promotions-Adds now s ((id, sc) ∷ es) =
    promoted-Adds id (get_task false now id s) (promotions no_faults now s es)
      (promotions-Adds now s es)

none_idle : (now end : ℕ) (ds : List Delivery) → now < end → Fresh end ds → idle_ids now ds ≡ []
unfolding idle_ids
none_idle now end [] h fresh = refl
none_idle now end (d ∷ ds) h fresh = ground (arith, none_idle now end ds h fresh.1, fresh.0)

Fresh-append :
    (end : ℕ) (ds es : List Delivery) → Fresh end ds → Fresh end es → Fresh end (ds ++ es)
Fresh-append end [] es h k = k
Fresh-append end (d ∷ ds) es h k = (h.0, Fresh-append end ds es h.1 k)

Fresh-drop : (end m : ℕ) (ds : List Delivery) → Fresh end ds → Fresh end (drop_delivery m ds)
unfolding drop_delivery
Fresh-drop end m [] h = tt
Fresh-drop end m (d ∷ ds) h =
    either_way (Fresh end) (d.msg_id == m) (Fresh-drop end m ds h.1) (h.0, Fresh-drop end m ds h.1)

Lasts-put :
    (end : ℕ) (id : String) (t : Task) (e : ℕ) (db : Table (Task × ℕ))
    → end ≤ e
    → Lasts end id db
    → Lasts end id (put t.id (t, e) db)
Lasts-put end id t e db later (u, (e', (found, (named, before)))) =
    elim (Bool-cases (str_eq t.id id)) [
      | inl same ↦
          (t, (e, (ground (arith, lookup-put t.id id (t, e) db), ((eq_iff t.id id).0 same, later))))
      | inr other ↦ (u, (e', (ground (arith, lookup-put t.id id (t, e) db), (named, before))))
    ]

-- A store that gives nothing back before this time, and has the task for so long.
abbrev pub Steady : ℕ → String → Server → Type 0
Steady end id s = Fresh end s.deliveries × Lasts end id s.tasks

-- What a dequeue leaves whose next message is this one, and what it returns if that is for the task.
abbrev pub Advances : ℕ → String → Message → List Message → Result (Option Task) × Server → Type 0
Advances end id x rest r =
    ((zs : List Message) × (r.1.unread ≡ rest ++ zs))
    × (Steady end id r.1 × (x.task_id ≡ some id → (u : Task) × ((r.0 ≡ ok (some u)) × (u.id ≡ id))))

found_task :
    (now end : ℕ) (id : String) (o : Option String) (s : Server) (q : Option Task)
    → now < end
    → Lasts end id s.tasks
    → task_of (λ _. false) now o s ≡ ok q
    → o ≡ some id
    → (u : Task) × ((q ≡ some u) × (u.id ≡ id))
unfolding get_task
found_task now end id none s q h lasts read named = absurd (ground arith)
found_task now end id (some j) s q h (t, (e, (found, (same, before)))) read named =
    let at : lookup j s.tasks ≡ some (t, e) =
      ap (λ (k : String). lookup k s.tasks) (ground arith) ∙ found in
    (t, (ground arith, same))

no_error :
    (now : ℕ) (o : Option String) (s : Server) (e : Error)
    → task_of (λ _. false) now o s ≡ err e
    → ⊥
unfolding get_task
no_error now none s e read = ground arith
no_error now (some id) s e read = ground arith

module _ (now end : ℕ) (before : now < end) (soon : end ≤ now + claim_timeout) (id : String) where
  read_task-Advances :
      (x : Message) (q : Result (Option Task)) (rest zs : List Message) (s : Server)
      → task_of (λ _. false) now x.task_id s ≡ q
      → s.unread ≡ rest ++ zs
      → Steady end id s
      → Advances end id x rest (read_task no_faults now x q s)
  unfolding deliver run_command mark_processing
  read_task-Advances x (ok (some t)) rest zs s read split steady = (
    (zs, split),
    (
      (
        steady.0,
        Lasts-put end id (mark_processing now t) (now + ttl) s.tasks (omega arith) steady.1,
      ),
      λ named.
          let (u, (same, is_id)) =
            found_task now end id x.task_id s (some t) before steady.1 read named in
          let the_task : t ≡ u = ground arith in
          (mark_processing now t, (refl, ap (λ (v : Task). v.id) the_task ∙ is_id)),
    ),
  )
  read_task-Advances x (ok none) rest zs s read split steady = (
    (zs, split),
    (
      (Fresh-drop end x.msg_id s.deliveries steady.0, steady.1),
      λ named.
          let (u, (same, is_id)) =
            found_task now end id x.task_id s none before steady.1 read named in
          absurd (ground arith),
    ),
  )
  read_task-Advances x (err e) rest zs s read split steady =
      absurd (no_error now x.task_id s e read)

  read_group-Advances :
      (x : Message) (rest zs : List Message) (s : Server)
      → s.unread ≡ x ∷ (rest ++ zs)
      → Steady end id s
      → Advances end id x rest (read_message no_faults now (read_group now s))
  unfolding read_group
  read_group-Advances x rest zs s split steady =
      subst
        (λ (ms : List Message).
          Advances end id x rest (read_message no_faults now (group_read now ms s)))
        (sym split)
        (read_task-Advances x _ rest zs (group_read now (x ∷ (rest ++ zs)) s).1 refl refl
          (Fresh-append end s.deliveries (as_delivered now x ∷ []) steady.0 (soon, tt), steady.1))

  quiet :
      (s : Server)
      → Fresh end s.deliveries
      → read_next no_faults now (claim_abandoned_task no_faults now s)
        ≡ read_message no_faults now (read_group now s)
  unfolding claim_abandoned_task claim_first
  quiet s fresh = rw (none_idle now end s.deliveries before fresh) refl

  pub dequeue-Advances :
      (x : Message) (rest : List Message) (s : Server)
      → s.unread ≡ x ∷ rest
      → Steady end id s
      → Advances end id x rest (dequeue_with_timeout no_faults now s)
  unfolding dequeue_with_timeout promote_scheduled_tasks exec
  dequeue-Advances x rest s split steady =
      let p = promote_scheduled_tasks no_faults now s in
      let (zs, (added, (same_deliveries, same_tasks))) =
        promotions-Adds now s (due (now / second) s.delayed) s in
      let steady_p : Steady end id p = (
        subst (Fresh end) (sym same_deliveries) steady.0,
        subst (Lasts end id) (sym same_tasks) steady.1,
      ) in
      subst (Advances end id x rest) (sym (quiet p steady_p.0)) (
        read_group-Advances x rest zs p (added ∙ ap (λ (ms : List Message). ms ++ zs) split)
          steady_p)
