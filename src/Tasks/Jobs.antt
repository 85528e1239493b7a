-- ===== src/Tasks/Jobs.antt =====
-- The job history of the admin dashboard: ListJobs of core/services/admin.go over the reads of
-- adapters/driven/queue/postgres/queue.go.
use Prim.Native.Nat.{min}
use mathlib.Core.Path.{subst}
use sercha_core.Base.{
  ℕ, ◌-◌, ◌≤◌, ◌<◌, Bool, true, ◌≡◌, ◌∙◌, refl, lt→ltb, List, length, ltb, Result, ok, err, arith,
  if◌then◌else◌,
}
use sercha_core.Tasks.Domain.{Task}
use sercha_core.Tasks.Queue.{Tasks}
use sercha_core.Tasks.Reports.{TaskFilter, list_tasks, count_tasks}
use sercha_core.Tasks.Reports.Pages.{list_tasks-NewestFirst, same_result}

pub record JobHistory : Type 0 where
  pub jobs : List Task
  pub total_count : ℕ
  pub has_more : Bool

unfoldable pub new_job_history : List Task → ℕ → JobHistory
new_job_history jobs total_count = record {
  jobs = jobs;
  total_count = total_count;
  has_more = ltb (length jobs) total_count;
}

-- 50 where none is given, and 100 at most
unfoldable pub clamped : ℕ → ℕ
clamped limit = if ltb 0 limit then min limit 100 else 50

abbrev pub history_of : Result (List Task) → Result ℕ → Result JobHistory
history_of (ok jobs) (ok n) = ok (new_job_history jobs n)
history_of (ok jobs) (err e) = err e
history_of (err e) r = err e

unfoldable pub list_jobs : Bool → Bool → TaskFilter → Tasks → Result JobHistory
list_jobs down down' f db =
    let g : TaskFilter = record f { limit = clamped f.limit } in
    history_of (list_tasks down g db) (count_tasks down' g db)

history_parts :
    (r : Result (List Task)) (s : Result ℕ) {h : JobHistory}
    → history_of r s ≡ ok h
    → (r ≡ ok h.jobs) × ((s ≡ ok h.total_count) × (h.has_more ≡ ltb (length h.jobs) h.total_count))
unfolding new_job_history
history_parts (ok jobs) (ok n) e =
    subst
      (λ (x : JobHistory).
        (◌≡◌ {A = Result (List Task)} (ok jobs) (ok x.jobs))
        × ((◌≡◌ {A = Result ℕ} (ok n) (ok x.total_count))
            × (x.has_more ≡ ltb (length x.jobs) x.total_count)))
      (same_result e) (refl, (refl, refl))
history_parts (ok jobs) (err x) e = absurd (ground arith)
history_parts (err x) s e = absurd (ground arith)

clamped_bounds : (limit : ℕ) → (0 < clamped limit) × (clamped limit ≤ 100)
unfolding clamped
clamped_bounds limit = ground arith

page_bound :
    (c offset total n : ℕ)
    → (0 < c) × (c ≤ 100)
    → n ≡ (if ltb 0 c then min c (total - offset) else total - offset)
    → 0 < offset
    → 0 < total
    → (n < total) × (n ≤ 100)
page_bound c offset total n h e k l = ground arith

-- A page that ListJobs returns for an offset above 0 says that there is more, however many tasks are
-- left behind it, if any task fits at all; and it has at most 100 tasks.
pub list_jobs-has_more :
    (down down' : Bool) (f : TaskFilter) (db : Tasks) {h : JobHistory}
    → list_jobs down down' f db ≡ ok h
    → 0 < f.offset
    → 0 < h.total_count
    → (h.has_more ≡ true) × (length h.jobs ≤ 100)
unfolding list_jobs clamped
list_jobs-has_more down down' f db {h} e behind some_fit =
    let g : TaskFilter = record f { limit = clamped f.limit } in
    let (listed, (counted, more)) =
      history_parts (list_tasks down g db) (count_tasks down' g db) {h = h} e in
    let (sorted, long) =
      list_tasks-NewestFirst down down' g db {ts = h.jobs} {n = h.total_count} listed counted in
    let (lt, le) =
      page_bound (clamped f.limit) f.offset h.total_count (length h.jobs) (clamped_bounds f.limit)
        long behind some_fit in
    (more ∙ lt→ltb (length h.jobs) h.total_count lt, le)
