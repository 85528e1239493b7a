-- ===== src/Tasks/Redis/Scans.antt =====
-- The reads of adapters/driven/queue/redis/queue.go that scan the keys: ListTasks, CountTasks and
-- Stats. Redis leaves the order of a scan open; here it is that of the records. A key whose read fails
-- is passed over, and a scan that fails does so at its start. A limit or an offset below 1 counts as 0.
use sercha_core.Base.{
  ℕ, ◌+◌, Bool, true, ◌&&◌, Option, none, some, List, [], ◌∷◌, length, take, drop, Table, ltb, leb,
  Result, ok, err, internal, str_eq, if◌then◌else◌,
}
use sercha_core.Tasks.Domain.{Task, TaskStatus, completed, failed}
use sercha_core.Tasks.Reports.{TaskFilter, QueueStats, fits, status_fits, type_fits, same_status}
use sercha_core.Tasks.Redis.{Faults, get_task}
use sercha_core.Tasks.Redis.Store.{Server}

abbrev read_key : Result (Option Task) → List Task → List Task
read_key (ok (some t)) ts = t ∷ ts
read_key (ok none) ts = ts
read_key (err _) ts = ts

unfoldable pub scanned : Faults → ℕ → Server → Table (Task × ℕ) → List Task
scanned f now s [] = []
scanned f now s ((id, _) ∷ rows) =
    read_key (get_task (f.get_fails id) now id s) (scanned f now s rows)

unfoldable pub matching : (Task → Bool) → List Task → List Task
matching p [] = []
matching p (t ∷ ts) = let rest = matching p ts in if p t then t ∷ rest else rest

-- The filter of ListTasks, for which an empty team is any team.
unfoldable pub fits_any : TaskFilter → Task → Bool
fits_any q t =
    (if str_eq q.team_id "" then true else str_eq t.team_id q.team_id)
    && (status_fits q.status t && type_fits q.type t)

abbrev pub from_offset : ℕ → List Task → List Task
from_offset offset ts =
    if ltb 0 offset && ltb offset (length ts)
    then drop offset ts
    else if leb (length ts) offset
    then []
    else ts

-- The loop returns as soon as the limit is reached; only a list that ends before has its offset taken.
unfoldable pub limited : ℕ → ℕ → List Task → List Task
limited limit offset ts =
    if ltb 0 limit && leb limit (length ts) then take limit ts else from_offset offset ts

unfoldable pub list_tasks : Faults → ℕ → TaskFilter → Server → Result (List Task)
list_tasks f now q s =
    if f.scan_fails
    then err internal
    else ok (limited q.limit q.offset (matching (fits_any q) (scanned f now s s.tasks)))

-- Here the team of the filter is compared even where it is empty.
unfoldable pub count_tasks : Faults → ℕ → TaskFilter → Server → Result ℕ
count_tasks f now q s =
    if f.scan_fails then err internal else ok (length (matching (fits q) (scanned f now s s.tasks)))

abbrev pub count_scanned : Faults → ℕ → Server → TaskStatus → ℕ
count_scanned f now s status =
    if f.scan_fails
    then 0
    else length (matching (λ t. same_status t.status status) (scanned f now s s.tasks))

-- The reads of the stream, the sorted set and the groups fail apart from the scan; the age of the
-- oldest task is not set.
unfoldable pub stats : Bool → Bool → Bool → Faults → ℕ → Server → Result QueueStats
stats info_fails card_fails groups_fail f now s =
    if info_fails
    then err internal
    else if card_fails
    then err internal
    else ok (record {
      pending_count = length s.unread + length s.read + length s.delayed;
      processing_count = if groups_fail then 0 else length s.deliveries;
      completed_count = count_scanned f now s completed;
      failed_count = count_scanned f now s failed;
      oldest_pending_age = 0;
    })
