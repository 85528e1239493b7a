-- ===== src/Tasks/Reports.antt =====
-- The reads of adapters/driven/queue/postgres/queue.go: ListTasks, CountTasks and Stats.
-- A limit or an offset below 1 counts as 0, an empty filter field as `none`.
pub mod Pages
pub mod Counts
use sercha_core.Base.{
  ℕ, suc, ◌+◌, ◌-◌, ◌/◌, String, Bool, true, false, ◌&&◌, Option, none, some, List, [], ◌∷◌, length,
  take, drop, ltb, leb, Result, ok, err, internal, str_eq, if◌then◌else◌,
}
use sercha_core.Tasks.Domain.{
  Task, TaskStatus, TaskType, pending, processing, completed, failed, sync_source, sync_all,
  sync_container, second,
}
use sercha_core.Tasks.Queue.{Tasks}

unfoldable pub same_status : TaskStatus → TaskStatus → Bool
same_status pending pending = true
same_status processing processing = true
same_status completed completed = true
same_status failed failed = true
same_status _ _ = false

unfoldable pub same_type : TaskType → TaskType → Bool
same_type sync_source sync_source = true
same_type sync_all sync_all = true
same_type sync_container sync_container = true
same_type _ _ = false

pub record TaskFilter : Type 0 where
  pub team_id : String
  pub status : Option TaskStatus
  pub type : Option TaskType
  pub limit : ℕ
  pub offset : ℕ

abbrev pub status_fits : Option TaskStatus → Task → Bool
status_fits none t = true
status_fits (some s) t = same_status t.status s

abbrev pub type_fits : Option TaskType → Task → Bool
type_fits none t = true
type_fits (some k) t = same_type t.type k

-- the WHERE clause of both queries
unfoldable pub fits : TaskFilter → Task → Bool
fits f t = str_eq t.team_id f.team_id && (status_fits f.status t && type_fits f.type t)

unfoldable pub selected : (Task → Bool) → Tasks → List Task
selected p [] = []
selected p ((_, t) ∷ db) = let rest = selected p db in if p t then t ∷ rest else rest

unfoldable pub insert_newest : Task → List Task → List Task
insert_newest t [] = t ∷ []
insert_newest t (u ∷ ts) =
    let rest = insert_newest t ts in
    if leb u.created_at t.created_at then t ∷ (u ∷ ts) else u ∷ rest

-- ORDER BY created_at DESC; of tasks of one age the earlier row comes first
unfoldable pub newest_first : List Task → List Task
newest_first [] = []
newest_first (t ∷ ts) = insert_newest t (newest_first ts)

-- LIMIT and OFFSET, each where it is above 0
unfoldable pub page : ℕ → ℕ → List Task → List Task
page limit offset ts = let rest = drop offset ts in if ltb 0 limit then take limit rest else rest

unfoldable pub list_tasks : Bool → TaskFilter → Tasks → Result (List Task)
list_tasks down f db =
    if down then err internal else ok (page f.limit f.offset (newest_first (selected (fits f) db)))

unfoldable pub count_tasks : Bool → TaskFilter → Tasks → Result ℕ
count_tasks down f db = if down then err internal else ok (length (selected (fits f) db))

-- COUNT(*) ... GROUP BY status, for one status
unfoldable pub count_status : TaskStatus → Tasks → ℕ
count_status s db = length (selected (λ t. same_status t.status s) db)

-- MIN(created_at) of the pending tasks
unfoldable pub oldest : List Task → Option ℕ
oldest [] = none
oldest (t ∷ ts) =
    let rest = oldest ts in
    some (elim rest [
      | none ↦ t.created_at
      | some at ↦ if ltb at t.created_at then at else t.created_at
    ])

-- the epoch of the difference, which the cast to bigint rounds
abbrev pub age_of : ℕ → Option ℕ → ℕ
age_of now none = 0
age_of now (some at) = (now - at + second / 2) / second

pub record QueueStats : Type 0 where
  pub pending_count : ℕ
  pub processing_count : ℕ
  pub completed_count : ℕ
  pub failed_count : ℕ
  pub oldest_pending_age : ℕ

abbrev pub no_counts : QueueStats
no_counts = record {
  pending_count = 0;
  processing_count = 0;
  completed_count = 0;
  failed_count = 0;
  oldest_pending_age = 0;
}

abbrev pub set_count : TaskStatus → ℕ → QueueStats → QueueStats
set_count pending n s = record s { pending_count = n }
set_count processing n s = record s { processing_count = n }
set_count completed n s = record s { completed_count = n }
set_count failed n s = record s { failed_count = n }

-- The loop over the rows of GROUP BY status, one for each of these statuses that some task has.
unfoldable pub read_counts : Tasks → List TaskStatus → QueueStats → QueueStats
read_counts db [] s = s
read_counts db (status ∷ arriving) s =
    let n = count_status status db in
    read_counts db arriving (if ltb 0 n then set_count status n s else s)

abbrev pub with_age : Bool → ℕ → Tasks → QueueStats → Result QueueStats
with_age down now db s =
    if down
    then err internal
    else ok (record s {
      oldest_pending_age = age_of now (oldest (selected (λ t. same_status t.status pending) db));
    })

-- Two queries; no task is created later than `now`. The rows of the first arrive in the order of
-- `arriving`, which ends early where the connection breaks, since the code does not ask for the
-- error of the iteration; it is an error where a row cannot be scanned.
unfoldable pub stats : Bool → Result (List TaskStatus) → Bool → ℕ → Tasks → Result QueueStats
stats down (err e) down' now db = err internal
stats down (ok arriving) down' now db =
    if down then err internal else with_age down' now db (read_counts db arriving no_counts)
