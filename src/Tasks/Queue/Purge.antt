-- ===== src/Tasks/Queue/Purge.antt =====
-- PurgeTasks of adapters/driven/queue/postgres/queue.go
use mathlib.Core.Path.{subst, subst₂}
use sercha_core.Base.{
  ℕ, zero, suc, ◌+◌, ◌-◌, ◌*◌, ◌%◌, ◌^◌, ◌≤◌, ◌<◌, String, Bool, true, false, not, ◌≡◌, refl, sym,
  ap, ◌∙◌, ◌⊎◌, eq_iff, Option, none, some, [], ◌∷◌, lookup, keep, length, Result, ok, Bool-cases,
  inl, inr, arith, str_eq, if◌then◌else◌,
}
use sercha_core.Tasks.Domain.{
  Task, TaskStatus, pending, processing, completed, failed, is_over, second, add_duration,
}
use sercha_core.Tasks.Queue.{Tasks, is_old, cutoff, purge_tasks}
use sercha_core.Tasks.Queue.Keyed.{IsKeyed, lookup-keep-none}

length-keep : (p : Task → Bool) (db : Tasks) → length (keep p db) ≤ length db
unfolding keep
length-keep p [] = ground arith
length-keep p ((k, t) ∷ db) = ground (arith, length-keep p db)

abbrev pub kept_if : (Task → Bool) → Option Task → Option Task
kept_if p none = none
kept_if p (some t) = if p t then some t else none

-- The row of a key after a DELETE.
lookup-keep :
    (p : Task → Bool) (k : String) (db : Tasks)
    → IsKeyed db
    → lookup k (keep p db) ≡ kept_if p (lookup k db)
unfolding lookup keep
lookup-keep p k [] h = refl
lookup-keep p k ((j, t) ∷ db) h =
    let ih = lookup-keep p k db h.1.1 in
    elim (Bool-cases (str_eq j k)) [
      | inl same ↦
          let absent =
            lookup-keep-none p k db
              (subst (λ (i : String). lookup i db ≡ none) ((eq_iff j k).0 same) h.1.0) in
          elim (Bool-cases (p t)) [
            | inl stays ↦ rw (same, stays, same) refl
            | inr goes ↦ rw (same, goes) absent
          ]
      | inr other ↦ elim (Bool-cases (p t)) [
        | inl stays ↦ rw (other, stays, other) ih
        | inr goes ↦ rw (other, goes) ih
      ]
    ]

-- No wrap-around: an age in seconds whose nanoseconds fit 63 bits.
abbrev pub max_age : ℕ
max_age = 9_223_372_036

negated :
    (n : ℕ) → 0 < n → n ≤ max_age → (2 ^ 64 - n) % 2 ^ 64 * second % 2 ^ 64 ≡ 2 ^ 64 - n * second
negated n h k = omega arith

cutoff-before : (now n : ℕ) → n ≤ max_age → cutoff now n ≡ now - n * second
unfolding cutoff add_duration
cutoff-before now zero h = ground arith
cutoff-before now (suc n) h = rw (negated (suc n) (omega arith) h) (ground arith)

-- What a purge at a time of the tasks that are over and were not updated for some seconds leaves.
pub record Purged (now older_than : ℕ) (db db' : Tasks) (n : ℕ) : Type 0 where
  pub counted : n + length db' ≡ length db
  pub goes :
      (k : String) (t : Task)
      → lookup k db ≡ some t
      → (t.status ≡ completed) ⊎ (t.status ≡ failed)
      → t.updated_at + older_than * second < now
      → lookup k db' ≡ none
  pub stays :
      (k : String) (t : Task)
      → lookup k db ≡ some t
      → ((t.status ≡ pending) ⊎ (t.status ≡ processing))
        ⊎ (now ≤ t.updated_at + older_than * second)
      → lookup k db' ≡ some t
  pub adds_none : (k : String) → lookup k db ≡ none → lookup k db' ≡ none

over : (s : TaskStatus) → (s ≡ completed) ⊎ (s ≡ failed) → is_over s ≡ true
unfolding is_over
over s (inl e) = rw e refl
over s (inr e) = rw e refl

not_over : (s : TaskStatus) → (s ≡ pending) ⊎ (s ≡ processing) → is_over s ≡ false
unfolding is_over
not_over s (inl e) = rw e refl
not_over s (inr e) = rw e refl

old_enough :
    (now age : ℕ) (t : Task)
    → is_over t.status ≡ true
    → t.updated_at + age < now
    → not (is_old (now - age) t) ≡ false
old_enough now age t h k = ground arith

too_young : (now age : ℕ) (t : Task) → now ≤ t.updated_at + age → not (is_old (now - age) t) ≡ true
too_young now age t k = ground arith

unfinished_row :
    (now age : ℕ) (t : Task) → is_over t.status ≡ false → not (is_old (now - age) t) ≡ true
unfinished_row now age t k = ground arith

Purged-rows :
    (now older_than : ℕ) (db : Tasks)
    → IsKeyed db
    → (let db' = keep (λ t. not (is_old (now - older_than * second) t)) db in
        Purged now older_than db db' (length db - length db'))
Purged-rows now older_than db keyed =
    let age = older_than * second in
    let stay : Task → Bool = λ t. not (is_old (now - age) t) in
    let row = λ (k : String). lookup-keep stay k db keyed in
    record {
      counted = omega (arith, length-keep stay db);
      goes = λ k t found ended old.
          row k
          ∙ (ap (kept_if stay) found ∙ (rw (old_enough now age t (over t.status ended) old) refl));
      stays = λ k t found why.
          row k
          ∙ (ap (kept_if stay) found ∙ elim why [
            | inl runs ↦ rw (unfinished_row now age t (not_over t.status runs)) refl
            | inr young ↦ rw (too_young now age t young) refl
          ]);
      adds_none = λ k missing. row k ∙ ap (kept_if stay) missing;
    }

-- For an age of at most 9223372036 seconds: if PurgeTasks returns a number, then that many rows are
-- gone; a row of a completed or failed task is gone if more than the age has passed since its last
-- update; a row of a pending or processing task, or of one that was updated within the age, is as it
-- was; and no row was added.
pub purge_tasks-Purged :
    (down : Bool) (now older_than n : ℕ) (db db' : Tasks)
    → older_than ≤ max_age
    → IsKeyed db
    → purge_tasks down now older_than db ≡ (ok n, db')
    → Purged now older_than db db' n
unfolding purge_tasks
purge_tasks-Purged true now older_than n db db' fits keyed h = absurd (ground arith)
purge_tasks-Purged false now older_than n db db' fits keyed h =
    let rows : ℕ → Tasks = λ c. keep (λ t. not (is_old c t)) db in
    let same = cutoff-before now older_than fits in
    let result : ◌≡◌ {A = Result ℕ × Tasks}
        (
          ok (length db - length (rows (now - older_than * second))),
          rows (now - older_than * second),
        )
        (ok n, db') =
      ap (λ (c : ℕ). (ok (length db - length (rows c)), rows c)) (sym same) ∙ h in
    let number : length db - length (rows (now - older_than * second)) ≡ n = ground arith in
    subst₂ (Purged now older_than db) (ap (λ (r : Result ℕ × Tasks). r.1) result) number
      (Purged-rows now older_than db keyed)
