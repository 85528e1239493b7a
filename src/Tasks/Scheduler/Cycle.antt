-- ===== src/Tasks/Scheduler/Cycle.antt =====
-- What a cycle of core/services/scheduler.go does to the schedules and to the queue.
use mathlib.Core.Path.{subst}
use sercha_core.Base.{
  ℕ, suc, ◌+◌, ◌≤◌, ◌<◌, String, ◌⊎◌, ◌∙◌, sym, Bool, true, false, ◌≡◌, ◌≢◌, refl, inl, inr, Option,
  none, some, List, [], ◌∷◌, All, lookup, modify, lookup-modify, leb, Result, ok, err, Bool-cases,
  Option-cases, arith, str_eq, eq_iff,
}
use sercha_core.Tasks.Queue.{enqueue}
use sercha_core.Tasks.Schedules.{
  ScheduledTask, Schedules, is_due, is_selected, insert_next, next_first, get_scheduled_task,
  get_due_scheduled_tasks, update_last_run, ran,
}
use sercha_core.Tasks.Scheduler.{
  Scheduler, SchedulerState, new_scheduler, create_task, Turn, visit, visit_all, last_error_of,
  may_run, check_and_enqueue,
}

-- A scheduler that was made with a lock does nothing in a cycle for which it does not get the lock,
-- be it held by another instance or failing, whatever LockRequired was set to.
pub check_and_enqueue-Locked :
    (lock_required : Bool) (lock : Result Bool) (down : Bool) (now : ℕ) (turns : ℕ → Turn)
    (st : SchedulerState)
    → lock ≢ ok true
    → check_and_enqueue (new_scheduler true lock_required) lock down now turns st ≡ st
unfolding check_and_enqueue may_run new_scheduler
check_and_enqueue-Locked true (err e) down now turns st h = refl
check_and_enqueue-Locked false (err e) down now turns st h = refl
check_and_enqueue-Locked r (ok false) down now turns st h = refl
check_and_enqueue-Locked r (ok true) down now turns st h = absurd (h refl)

-- The schedule of this ID, if there is one, runs next when its interval has passed since `start`.
abbrev pub Rests : ℕ → String → Schedules → Type 0
Rests start id db = (s : ScheduledTask) → lookup id db ≡ some s → start + s.interval ≤ s.next_run

module _ (start : ℕ) where
  -- Calls of the store succeed, and clock readings come later than `start`.
  abbrev pub IsUp : Turn → Type 0
  IsUp turn =
      (turn.read_down ≡ false)
      × ((turn.write_down ≡ false) × ((start < turn.seen_at) × (start ≤ turn.updated_at)))

  some_inj : {a b : ScheduledTask} → ◌≡◌ {A = Option ScheduledTask} (some a) (some b) → a ≡ b
  some_inj h = ground arith

  ran_rests :
      (now : ℕ) (reason : String) (s : ScheduledTask)
      → start ≤ now
      → start + (ran now (now + s.interval) reason s).interval
        ≤ (ran now (now + s.interval) reason s).next_run
  ran_rests now reason s later = omega (arith, later)

  ran-Rests :
      (now : ℕ) (id j reason : String) (s : ScheduledTask) (db : Schedules)
      → start ≤ now
      → lookup id db ≡ some s
      → (str_eq id j ≡ true) ⊎ Rests start j db
      → Rests start j (modify id (ran now (now + s.interval) reason) db)
  ran-Rests now id j reason s db later found or r e = elim (Bool-cases (str_eq id j)) [
    | inl same ↦
        let here : lookup j db ≡ some s =
          subst (λ k. lookup k db ≡ some s) ((eq_iff id j).0 same) found in
        let row : some (ran now (now + s.interval) reason s) ≡ some r =
          sym (lookup-modify id j (ran now (now + s.interval) reason) db ∙ cc) ∙ e in
        subst (λ (x : ScheduledTask). start + x.interval ≤ x.next_run) (some_inj row)
          (ran_rests now reason s later)
    | inr other ↦ elim or [
      | inl same ↦ absurd (ground arith)
      | inr rests ↦
          rests r
            (sym (lookup-modify id j (ran now (now + s.interval) reason) db ∙ ground arith) ∙ e)
    ]
  ]

  missing_row :
      (id j : String) (db : Schedules) (r : ScheduledTask)
      → str_eq id j ≡ true
      → lookup id db ≡ none
      → lookup j db ≡ some r
      → ⊥
  missing_row id j db r same missing e =
      let there : lookup id db ≡ some r =
        subst (λ k. lookup k db ≡ some r) (sym ((eq_iff id j).0 same)) e in
      ground arith

  updated :
      (turn : Turn) (id reason : String) (s : ScheduledTask) (db : Schedules)
      → IsUp turn
      → lookup id db ≡ some s
      → (update_last_run turn.read_down turn.write_down turn.updated_at id reason db).1
        ≡ modify id (ran turn.updated_at (turn.updated_at + s.interval) reason) db
  unfolding update_last_run get_scheduled_task
  updated turn id reason s db up row = ground arith

  update-Rests :
      (turn : Turn) (id j reason : String) (db : Schedules)
      → IsUp turn
      → (str_eq id j ≡ true) ⊎ Rests start j db
      → Rests start j
          (update_last_run turn.read_down turn.write_down turn.updated_at id reason db).1
  unfolding update_last_run get_scheduled_task
  update-Rests turn id j reason db up or r e = elim (Option-cases (lookup id db)) [
    | inl missing ↦ elim or [
      | inl same ↦ absurd (
          missing_row id j db r same missing
            (subst (λ (d : Schedules). lookup j d ≡ some r) (ground arith) e))
      | inr rests ↦ rests r (subst (λ (d : Schedules). lookup j d ≡ some r) (ground arith) e)
    ]
    | inr found ↦
        let (s, row) = found in
        ran-Rests turn.updated_at id j reason s db up.1.1.1 row or r
          (subst (λ (d : Schedules). lookup j d ≡ some r) (updated turn id reason s db up row) e)
  ]

  abbrev queued : Turn → ScheduledTask → SchedulerState → Result (Unit {0})
  queued turn s st =
      (enqueue turn.queue_down (create_task turn.task_id turn.created_at s) st.tasks).0

  later_due :
      (turn : Turn) (s : ScheduledTask)
      → start < turn.seen_at
      → is_selected start s ≡ true
      → is_due turn.seen_at s ≡ false
      → ⊥
  unfolding is_due is_selected
  later_due turn s later chosen idle = ground arith

  skipped :
      (turn : Turn) (s : ScheduledTask) (st : SchedulerState)
      → is_due turn.seen_at s ≡ false
      → visit turn s st ≡ st
  unfolding visit is_due
  skipped turn s st idle = ground arith

  visited :
      (turn : Turn) (s : ScheduledTask) (st : SchedulerState)
      → is_due turn.seen_at s ≡ true
      → (visit turn s st).schedules
        ≡ (update_last_run turn.read_down turn.write_down turn.updated_at s.id
            (last_error_of turn.reason (queued turn s st))
            st.schedules).1
  unfolding visit is_due
  visited turn s st due = ground arith

  visit-Rests :
      (turn : Turn) (s : ScheduledTask) (j : String) (st : SchedulerState)
      → IsUp turn
      → ((str_eq s.id j ≡ true) × (is_selected start s ≡ true)) ⊎ Rests start j st.schedules
      → Rests start j (visit turn s st).schedules
  visit-Rests turn s j st up or = elim (Bool-cases (is_due turn.seen_at s)) [
    | inl due ↦ subst (Rests start j) (sym (visited turn s st due)) (
        update-Rests turn s.id j (last_error_of turn.reason (queued turn s st)) st.schedules up
          (elim or [ inl here ↦ inl here.0 | inr rests ↦ inr rests ]))
    | inr idle ↦ elim or [
      | inl here ↦ absurd (later_due turn s up.1.1.0 here.1 idle)
      | inr rests ↦
          subst (λ (x : SchedulerState). Rests start j x.schedules) (sym (skipped turn s st idle))
            rests
    ]
  ]

  visit_all-Rests :
      (turns : ℕ → Turn) (i : ℕ) (ss : List ScheduledTask) (j : String) (st : SchedulerState)
      → ((i : ℕ) → IsUp (turns i))
      → Rests start j st.schedules
      → Rests start j (visit_all turns i ss st).schedules
  unfolding visit_all
  visit_all-Rests turns i [] j st up h = h
  visit_all-Rests turns i (s ∷ ss) j st up h =
      visit_all-Rests turns (suc i) ss j (visit (turns i) s st) up
        (visit-Rests (turns i) s j st (up i) (inr h))

  due-Rests :
      (turns : ℕ → Turn) (i : ℕ) (ss : List ScheduledTask) (st : SchedulerState)
      → ((i : ℕ) → IsUp (turns i))
      → All (λ s. is_selected start s ≡ true) ss
      → All (λ s. Rests start s.id (visit_all turns i ss st).schedules) ss
  unfolding visit_all
  due-Rests turns i [] st up h = tt
  due-Rests turns i (s ∷ ss) st up h = (
    visit_all-Rests turns (suc i) ss s.id (visit (turns i) s st) up
        (visit-Rests (turns i) s s.id st (up i) (inl ((eq_iff s.id s.id).1 refl, h.0))),
    due-Rests turns (suc i) ss (visit (turns i) s st) up h.1,
  )

insert-All :
    (P : ScheduledTask → Type 0) (s : ScheduledTask) (us : List ScheduledTask)
    → P s
    → All P us
    → All P (insert_next s us)
unfolding insert_next
insert-All P s [] h k = (h, tt)
insert-All P s (u ∷ us) h k = elim (Bool-cases (leb s.next_run u.next_run)) [
  | inl here ↦ rw here (h, k)
  | inr later ↦ rw later (k.0, insert-All P s us h k.1)
]

next_first-All :
    (p : ScheduledTask → Bool) (db : Schedules) → All (λ s. p s ≡ true) (next_first p db)
unfolding next_first
next_first-All p [] = tt
next_first-All p ((k, s) ∷ db) = elim (Bool-cases (p s)) [
  | inl fits ↦ rw fits (insert-All (λ s. p s ≡ true) s (next_first p db) fits (next_first-All p db))
  | inr other ↦ rw other (next_first-All p db)
]

due_inj : {a b : List ScheduledTask} → ◌≡◌ {A = Result (List ScheduledTask)} (ok a) (ok b) → a ≡ b
due_inj h = ground arith

-- After a cycle that runs at `start`, in which the calls of the store succeed and the clock goes on,
-- each schedule that was due runs next when its interval has passed since `start`, or later. This
-- holds whether its task was enqueued or the queue failed.
pub check_and_enqueue-Rests :
    (s : Scheduler) (lock : Result Bool) (start : ℕ) (turns : ℕ → Turn) (st : SchedulerState)
    {due : List ScheduledTask}
    → may_run s lock ≡ true
    → ((i : ℕ) → IsUp start (turns i))
    → get_due_scheduled_tasks false start st.schedules ≡ ok due
    → All (λ x. Rests start x.id (check_and_enqueue s lock false start turns st).schedules) due
unfolding check_and_enqueue get_due_scheduled_tasks
check_and_enqueue-Rests s lock start turns st {due} runs up e =
    let chosen = next_first (is_selected start) st.schedules in
    let same : chosen ≡ due = due_inj e in
    rw runs (
      subst
        (λ (xs : List ScheduledTask).
          All (λ x. Rests start x.id (visit_all turns 0 chosen st).schedules) xs)
        same
        (due-Rests start turns 0 chosen st up (next_first-All (is_selected start) st.schedules)))
