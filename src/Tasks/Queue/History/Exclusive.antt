-- ===== src/Tasks/Queue/History/Exclusive.antt =====
-- A task that a worker has taken is not handed out again (Dequeue of
-- adapters/driven/queue/postgres/queue.go).
use mathlib.Core.Path.{subst₂}
use sercha_core.Base.{
  ℕ, String, Bool, true, false, ◌≡◌, ◌≢◌, refl, sym, ap, ◌∙◌, Bool-cases, inl, inr, Option, none,
  some, List, All, modify, lookup-Rows, Result, ok, Option-cases, Rows-of_modify, arith,
}
use sercha_core.Tasks.Domain.{Task, is_pending, mark_processing, mark_completed, mark_failed}
use sercha_core.Tasks.Queue.{Tasks, dequeue, waits, next_of}
use sercha_core.Tasks.Queue.Keyed.{IsKeyed, IsNext, IsKeyed-modify, next_of-IsNext}
use sercha_core.Tasks.Queue.History.{Op, run}
use sercha_core.Tasks.Queue.History.Closure.{IsClosed, Fits, Sound, run-Sound}

-- What a Dequeue that returns a task has found and done.
pub record Taken (locked : List String) (at now : ℕ) (db : Tasks) (t : Task) (db' : Tasks)
    : Type 0 where
  pub row : Task
  pub next : IsNext (waits locked at) db row
  pub returned : t ≡ mark_processing now row
  pub updated : db' ≡ modify row.id (mark_processing now) db
  pub same_id : t.id ≡ row.id

returned_none :
    {db db' : Tasks} {t : Task}
    → ◌≡◌ {A = Result (Option Task) × Tasks} (ok none, db) (ok (some t), db')
    → ⊥
returned_none h = ground arith

returned_some :
    {db db' : Tasks} {u t : Task}
    → ◌≡◌ {A = Result (Option Task) × Tasks} (ok (some u), db) (ok (some t), db')
    → u ≡ t
returned_some h = ground arith

-- If Dequeue returns a task, then the table had its row, which was pending, due and locked by no
-- other transaction; no such row of the table comes before it (a higher priority, or the same and
-- created earlier); and the row, and the task as it is returned, became a processing one with one
-- more attempt, and no other row changed.
pub dequeue-Taken :
    (down : Bool) (locked : List String) (at now : ℕ) (db db' : Tasks) (t : Task)
    → IsKeyed db
    → dequeue down locked at now db ≡ (ok (some t), db')
    → Taken locked at now db t db'
unfolding dequeue
dequeue-Taken true locked at now db db' t keyed h = absurd (ground arith)
dequeue-Taken false locked at now db db' t keyed h =
    elim (Option-cases (next_of (waits locked at) db)) [
      | inl nothing ↦ absurd (returned_none (rw nothing at h))
      | inr (u, next) ↦
          let run = rw next at h in
          let same = returned_some run in
          record {
            row = u;
            next = next_of-IsNext (waits locked at) db {t = u} keyed next;
            returned = sym same;
            updated = sym (ap (λ (r : Result (Option Task) × Tasks). r.1) run);
            same_id = ap (λ (x : Task). x.id) (sym same) ∙ unfold mark_processing in refl;
          }
    ]

abbrev pub Another : String → Task → Type 0
Another x t = t.id ≢ x

abbrev pub Elsewhere : String → String → Type 0
Elsewhere x id = id ≢ x

abbrev Busy : String → String → Task → Type 0
Busy x k t = k ≡ x → is_pending t.status ≡ false

Busy-IsClosed : (x : String) → IsClosed (Busy x) (Another x) (Elsewhere x)
unfolding mark_processing mark_completed mark_failed is_pending
Busy-IsClosed x = record {
  enter = λ t other e. absurd (other e);
  take = λ k now t waits h e. refl;
  complete = λ k now t h e. refl;
  renew = λ k now reason t other again h e. absurd (other e);
  give_up = λ k now reason t h e. refl;
  cancel = λ k now t h e. elim (Bool-cases (is_pending t.status)) [
    | inl waits ↦ rw waits refl
    | inr ended ↦ rw ended (h e)
  ];
}

taken-Sound :
    (now : ℕ) (x : String) (db : Tasks)
    → IsKeyed db
    → Sound (Busy x) (Another x) (Elsewhere x) (Busy-IsClosed x) (modify x (mark_processing now) db)
unfolding mark_processing is_pending
taken-Sound now x db keyed = (
  IsKeyed-modify x (mark_processing now) db (λ u. refl) keyed,
  Rows-of_modify (Busy x) x (mark_processing now) db (λ u e. refl)
      (λ j u other e. absurd (other e)),
)

waits-pending :
    (locked : List String) (at : ℕ) (t : Task)
    → waits locked at t ≡ true
    → is_pending t.status ≡ true
unfolding waits
waits-pending locked at t h = ground arith

-- Once Dequeue has returned a task, then after any calls with any outcomes in which the task's ID is
-- not given to a Nack and no task of that ID enters, no Dequeue returns a task of that ID.
pub dequeue_once :
    (down down' : Bool) (locked locked' : List String) (at now at' now' : ℕ) (db db' db'' : Tasks)
    (t t' : Task) (ops : List Op)
    → IsKeyed db
    → dequeue down locked at now db ≡ (ok (some t), db')
    → All (Fits (Another t.id) (Elsewhere t.id)) ops
    → dequeue down' locked' at' now' (run ops db') ≡ (ok (some t'), db'')
    → t'.id ≢ t.id
dequeue_once down down' locked locked' at now at' now' db db' db'' t t' ops keyed first later second
      same =
    let taken = dequeue-Taken down locked at now db db' t keyed first in
    let x = t.id in
    let start : Sound (Busy x) (Another x) (Elsewhere x) (Busy-IsClosed x) db' =
      subst₂
        (λ (y : String) (rows : Tasks).
          Sound (Busy y) (Another y) (Elsewhere y) (Busy-IsClosed y) rows)
        (sym taken.same_id) (sym taken.updated) (taken-Sound now taken.row.id db keyed) in
    let sound =
      run-Sound (Busy x) (Another x) (Elsewhere x) (Busy-IsClosed x) ops db' later start in
    let again = dequeue-Taken down' locked' at' now' (run ops db') db'' t' sound.0 second in
    let busy =
      lookup-Rows (Busy x) again.row.id (run ops db') sound.1 again.next.stored
        (sym again.same_id ∙ same) in
    let waiting = waits-pending locked' at' again.row again.next.passes in ground arith
