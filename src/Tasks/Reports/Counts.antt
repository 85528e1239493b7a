-- ===== src/Tasks/Reports/Counts.antt =====
-- What Stats of adapters/driven/queue/postgres/queue.go counts.
use sercha_core.Base.{
  ℕ, ◌+◌, String, Bool, true, false, ◌||◌, ◌≡◌, refl, sym, ap, ◌∙◌, List, [], ◌∷◌, length, ltb, ok,
  Bool-cases, inl, inr, arith, if◌then◌else◌,
}
use sercha_core.Tasks.Domain.{Task, TaskStatus, pending, processing, completed, failed}
use sercha_core.Tasks.Queue.{Tasks}
use sercha_core.Tasks.Reports.Pages.{same_result}
use sercha_core.Tasks.Reports.{
  same_status, selected, count_status, QueueStats, set_count, no_counts, read_counts, with_age,
  stats,
}

abbrev pub flag : Bool → ℕ
flag true = 1
flag false = 0

count_status-cons :
    (s : TaskStatus) (k : String) (t : Task) (db : Tasks)
    → count_status s ((k, t) ∷ db) ≡ flag (same_status t.status s) + count_status s db
unfolding count_status selected
count_status-cons s k t db = ground arith

one_status :
    (s : TaskStatus)
    → flag (same_status s pending)
        + (flag (same_status s processing)
            + (flag (same_status s completed) + flag (same_status s failed)))
      ≡ 1
unfolding same_status
one_status pending = refl
one_status processing = refl
one_status completed = refl
one_status failed = refl

counts-total :
    (db : Tasks)
    → count_status pending db
        + (count_status processing db + (count_status completed db + count_status failed db))
      ≡ length db
unfolding count_status selected
counts-total [] = refl
counts-total ((k, t) ∷ db) = omega (
  arith,
  count_status-cons pending k t db,
  count_status-cons processing k t db,
  count_status-cons completed k t db,
  count_status-cons failed k t db,
  one_status t.status,
  counts-total db,
)

abbrev pub count_in : TaskStatus → QueueStats → ℕ
count_in pending s = s.pending_count
count_in processing s = s.processing_count
count_in completed s = s.completed_count
count_in failed s = s.failed_count

abbrev pub arrives : TaskStatus → List TaskStatus → Bool
arrives status [] = false
arrives status (st ∷ sts) = same_status st status || arrives status sts

same_status_eq : (a b : TaskStatus) → same_status a b ≡ true → a ≡ b
unfolding same_status
same_status_eq pending b h = ground arith
same_status_eq processing b h = ground arith
same_status_eq completed b h = ground arith
same_status_eq failed b h = ground arith

count_in-set :
    (st status : TaskStatus) (n : ℕ) (s : QueueStats)
    → count_in status (set_count st n s) ≡ (if same_status st status then n else count_in status s)
unfolding same_status
count_in-set pending status n s = ground arith
count_in-set processing status n s = ground arith
count_in-set completed status n s = ground arith
count_in-set failed status n s = ground arith

-- A count that was read before is not of a status that no task has.
abbrev Agrees : Tasks → QueueStats → Type 0
Agrees db s = (status : TaskStatus) → count_status status db ≡ 0 → count_in status s ≡ 0

one_row :
    (db : Tasks) (st status : TaskStatus) (s : QueueStats)
    → Agrees db s
    → (let n = count_status st db in
        count_in status (if ltb 0 n then set_count st n s else s)
        ≡ (if same_status st status then count_status status db else count_in status s))
one_row db st status s agrees = elim (Bool-cases (same_status st status)) [
  | inl same ↦
      let it = same_status_eq st status same in
      let number = ap (λ (x : TaskStatus). count_status x db) it in
      rw same (ground (arith, count_in-set st status (count_status st db) s, agrees status))
  | inr other ↦ rw other (ground (arith, count_in-set st status (count_status st db) s))
]

after_row :
    (db : Tasks) (st : TaskStatus) (s : QueueStats)
    → Agrees db s
    → (let n = count_status st db in Agrees db (if ltb 0 n then set_count st n s else s))
after_row db st s agrees status none_there =
    ground (arith, one_row db st status s agrees, agrees status none_there)

read_counts-arrives :
    (db : Tasks) (arriving : List TaskStatus) (status : TaskStatus) (s : QueueStats)
    → Agrees db s
    → count_in status (read_counts db arriving s)
      ≡ (if arrives status arriving then count_status status db else count_in status s)
unfolding read_counts
read_counts-arrives db [] status s agrees = refl
read_counts-arrives db (st ∷ sts) status s agrees =
    let n = count_status st db in
    let next : QueueStats = if ltb 0 n then set_count st n s else s in
    ground (
      arith,
      read_counts-arrives db sts status next (after_row db st s agrees),
      one_row db st status s agrees,
    )

zero_count : (status : TaskStatus) → count_in status no_counts ≡ 0
zero_count pending = refl
zero_count processing = refl
zero_count completed = refl
zero_count failed = refl

aged-count :
    (status : TaskStatus) (n : ℕ) (s : QueueStats)
    → count_in status (record s { oldest_pending_age = n }) ≡ count_in status s
aged-count pending n s = refl
aged-count processing n s = refl
aged-count completed n s = refl
aged-count failed n s = refl

with_age-counts :
    (down : Bool) (now : ℕ) (db : Tasks) (s : QueueStats) {s' : QueueStats}
    → with_age down now db s ≡ ok s'
    → (status : TaskStatus) → count_in status s' ≡ count_in status s
with_age-counts true now db s h status = absurd (ground arith)
with_age-counts false now db s h status =
    ap (count_in status) (sym (same_result h)) ∙ aged-count status _ s

-- The number of tasks that have the status.
abbrev pub tasks_with : TaskStatus → Tasks → ℕ
tasks_with status [] = 0
tasks_with status ((_, t) ∷ db) = flag (same_status t.status status) + tasks_with status db

tasks_with-count :
    (status : TaskStatus) (db : Tasks) → count_status status db ≡ tasks_with status db
unfolding count_status selected
tasks_with-count status [] = refl
tasks_with-count status ((k, t) ∷ db) =
    ground (arith, count_status-cons status k t db, tasks_with-count status db)

-- If Stats returns, then its count for a status is the number of tasks that have the status, where
-- the row of the status has arrived, and 0 where it has not, since an iteration that breaks off is
-- taken for one that has ended; and where the rows of all four statuses have arrived (that of a status
-- without tasks, which does not come, counts as arrived), the counts add up to the number of tasks.
pub stats-tasks :
    (down down' : Bool) (arriving : List TaskStatus) (now : ℕ) (db : Tasks) {s : QueueStats}
    → stats down (ok arriving) down' now db ≡ ok s
    → ((status : TaskStatus)
        → count_in status s ≡ (if arrives status arriving then tasks_with status db else 0))
      × (((status : TaskStatus) → arrives status arriving ≡ true)
          → s.pending_count + (s.processing_count + (s.completed_count + s.failed_count))
            ≡ length db)
unfolding stats
stats-tasks true down' arriving now db h = absurd (ground arith)
stats-tasks false down' arriving now db {s} h =
    let counts : (status : TaskStatus)
        → count_in status s ≡ (if arrives status arriving then tasks_with status db else 0) =
      λ status.
        with_age-counts down' now db (read_counts db arriving no_counts) {s' = s} h status
        ∙ (read_counts-arrives db arriving status no_counts (λ st e. zero_count st)
            ∙ ground (arith, zero_count status, tasks_with-count status db)) in
    (
      counts,
      λ all. ground (
        arith,
        counts-total db,
        counts pending,
        counts processing,
        counts completed,
        counts failed,
        all pending,
        all processing,
        all completed,
        all failed,
        tasks_with-count pending db,
        tasks_with-count processing db,
        tasks_with-count completed db,
        tasks_with-count failed db,
      ),
    )
