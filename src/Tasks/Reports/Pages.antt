-- ===== src/Tasks/Reports/Pages.antt =====
-- The pages that ListTasks of adapters/driven/queue/postgres/queue.go returns.
use Prim.Native.Nat.{min}
use mathlib.Core.Path.{subst}
use sercha_core.Base.{
  ℕ, zero, suc, ◌-◌, ◌≤◌, Bool, true, false, ◌≡◌, ◌∙◌, ap, refl, inl, inr, List, [], ◌∷◌, All,
  length, length-take, length-drop, take, drop, ltb, leb, Result, ok, Bool-cases, arith,
  if◌then◌else◌,
}
use sercha_core.Tasks.Domain.{Task}
use sercha_core.Tasks.Queue.{Tasks}
use sercha_core.Tasks.Reports.{
  TaskFilter, fits, selected, insert_newest, newest_first, page, list_tasks, count_tasks,
}

length-insert_newest : (t : Task) (ts : List Task) → length (insert_newest t ts) ≡ suc (length ts)
unfolding insert_newest
length-insert_newest t [] = refl
length-insert_newest t (u ∷ ts) = ground (arith, length-insert_newest t ts)

length-newest_first : (ts : List Task) → length (newest_first ts) ≡ length ts
unfolding newest_first
length-newest_first [] = refl
length-newest_first (t ∷ ts) =
    length-insert_newest t (newest_first ts) ∙ ap suc (length-newest_first ts)

-- Each task is at least as old as the one before it.
abbrev pub NewestFirst : List Task → Type 0
NewestFirst [] = Unit
NewestFirst (t ∷ ts) = All (λ u. u.created_at ≤ t.created_at) ts × NewestFirst ts

All-older :
    (a b : ℕ) (ts : List Task)
    → a ≤ b
    → All (λ u. u.created_at ≤ a) ts
    → All (λ u. u.created_at ≤ b) ts
All-older a b [] h k = tt
All-older a b (t ∷ ts) h k = (omega (arith, h, k.0), All-older a b ts h k.1)

All-insert :
    (b : ℕ) (t : Task) (ts : List Task)
    → t.created_at ≤ b
    → All (λ u. u.created_at ≤ b) ts
    → All (λ u. u.created_at ≤ b) (insert_newest t ts)
unfolding insert_newest
All-insert b t [] h k = (h, tt)
All-insert b t (u ∷ ts) h k = elim (Bool-cases (leb u.created_at t.created_at)) [
  | inl here ↦ rw here (h, k)
  | inr later ↦ rw later (k.0, All-insert b t ts h k.1)
]

insert-NewestFirst : (t : Task) (ts : List Task) → NewestFirst ts → NewestFirst (insert_newest t ts)
unfolding insert_newest
insert-NewestFirst t [] h = (tt, tt)
insert-NewestFirst t (u ∷ ts) h = elim (Bool-cases (leb u.created_at t.created_at)) [
  | inl here ↦
      rw here ((ground arith, All-older u.created_at t.created_at ts (ground arith) h.0), h)
  | inr later ↦
      rw later (All-insert u.created_at t ts (ground arith) h.0, insert-NewestFirst t ts h.1)
]

newest_first-NewestFirst : (ts : List Task) → NewestFirst (newest_first ts)
unfolding newest_first
newest_first-NewestFirst [] = tt
newest_first-NewestFirst (t ∷ ts) =
    insert-NewestFirst t (newest_first ts) (newest_first-NewestFirst ts)

module _ (P : Task → Type 0) where
  drop-All : (n : ℕ) (ts : List Task) → All P ts → All P (drop n ts)
  drop-All zero ts h = h
  drop-All (suc n) [] h = tt
  drop-All (suc n) (t ∷ ts) h = drop-All n ts h.1

  take-All : (n : ℕ) (ts : List Task) → All P ts → All P (take n ts)
  take-All zero ts h = tt
  take-All (suc n) [] h = tt
  take-All (suc n) (t ∷ ts) h = (h.0, take-All n ts h.1)

drop-NewestFirst : (n : ℕ) (ts : List Task) → NewestFirst ts → NewestFirst (drop n ts)
drop-NewestFirst zero ts h = h
drop-NewestFirst (suc n) [] h = tt
drop-NewestFirst (suc n) (t ∷ ts) h = drop-NewestFirst n ts h.1

take-NewestFirst : (n : ℕ) (ts : List Task) → NewestFirst ts → NewestFirst (take n ts)
take-NewestFirst zero ts h = tt
take-NewestFirst (suc n) [] h = tt
take-NewestFirst (suc n) (t ∷ ts) h =
    (take-All (λ u. u.created_at ≤ t.created_at) n ts h.0, take-NewestFirst n ts h.1)

-- How many tasks a page has, of so many that fit.
abbrev pub page_length : TaskFilter → ℕ → ℕ
page_length f count = if ltb 0 f.limit then min f.limit (count - f.offset) else count - f.offset

page-NewestFirst :
    (limit offset : ℕ) (ts : List Task) → NewestFirst ts → NewestFirst (page limit offset ts)
unfolding page
page-NewestFirst limit offset ts h =
    let rest = drop-NewestFirst offset ts h in
    elim (Bool-cases (ltb 0 limit)) [
      | inl limited ↦ rw limited (take-NewestFirst limit (drop offset ts) rest)
      | inr whole ↦ rw whole rest
    ]

length-page :
    (limit offset : ℕ) (ts : List Task)
    → length (page limit offset ts)
      ≡ (if ltb 0 limit then min limit (length ts - offset) else length ts - offset)
unfolding page
length-page limit offset ts = elim (Bool-cases (ltb 0 limit)) [
  | inl limited ↦
      rw limited (length-take limit (drop offset ts) ∙ ap (min limit) (length-drop offset ts))
  | inr whole ↦ rw whole (length-drop offset ts)
]

pub same_result : {A : Type 0} {a b : A} → ◌≡◌ {A = Result A} (ok a) (ok b) → a ≡ b
same_result h = ground arith

-- If ListTasks and CountTasks return, then the listed tasks go from the newest to the oldest, and there
-- are as many as the count leaves behind the offset, at most the limit where there is one.
pub list_tasks-NewestFirst :
    (down down' : Bool) (f : TaskFilter) (db : Tasks) {ts : List Task} {n : ℕ}
    → list_tasks down f db ≡ ok ts
    → count_tasks down' f db ≡ ok n
    → NewestFirst ts × (length ts ≡ page_length f n)
unfolding list_tasks count_tasks page
list_tasks-NewestFirst true down' f db h k = absurd (ground arith)
list_tasks-NewestFirst false true f db h k = absurd (ground arith)
list_tasks-NewestFirst false false f db {ts} {n} h k =
    let chosen = selected (fits f) db in
    let whole = newest_first chosen in
    let counted : length whole ≡ n = length-newest_first chosen ∙ same_result k in
    subst (λ (xs : List Task). NewestFirst xs × (length xs ≡ page_length f n)) (same_result h)
      (
        page-NewestFirst f.limit f.offset whole (newest_first-NewestFirst chosen),
        length-page f.limit f.offset whole ∙ ap (page_length f) counted,
      )

selected-All : (p : Task → Bool) (db : Tasks) → All (λ t. p t ≡ true) (selected p db)
unfolding selected
selected-All p [] = tt
selected-All p ((k, t) ∷ db) = elim (Bool-cases (p t)) [
  | inl passes ↦ rw passes (passes, selected-All p db)
  | inr fails ↦ rw fails (selected-All p db)
]

module _ (P : Task → Type 0) where
  All-insert_newest : (t : Task) (ts : List Task) → P t → All P ts → All P (insert_newest t ts)
  unfolding insert_newest
  All-insert_newest t [] h k = (h, tt)
  All-insert_newest t (u ∷ ts) h k = elim (Bool-cases (leb u.created_at t.created_at)) [
    | inl here ↦ rw here (h, k)
    | inr later ↦ rw later (k.0, All-insert_newest t ts h k.1)
  ]

  All-newest_first : (ts : List Task) → All P ts → All P (newest_first ts)
  unfolding newest_first
  All-newest_first [] h = tt
  All-newest_first (t ∷ ts) h = All-insert_newest t (newest_first ts) h.0 (All-newest_first ts h.1)

-- Every task that ListTasks returns passes the filter.
pub list_tasks-All :
    (down : Bool) (f : TaskFilter) (db : Tasks) {ts : List Task}
    → list_tasks down f db ≡ ok ts
    → All (λ t. fits f t ≡ true) ts
unfolding list_tasks page
list_tasks-All true f db h = absurd (ground arith)
list_tasks-All false f db {ts} h =
    let P : Task → Type 0 = λ t. fits f t ≡ true in
    let whole = newest_first (selected (fits f) db) in
    let rest =
      drop-All P f.offset whole
        (All-newest_first P (selected (fits f) db) (selected-All (fits f) db)) in
    subst (All P) (same_result h) (elim (Bool-cases (ltb 0 f.limit)) [
      | inl limited ↦ rw limited (take-All P f.limit (drop f.offset whole) rest)
      | inr no_limit ↦ rw no_limit rest
    ])
