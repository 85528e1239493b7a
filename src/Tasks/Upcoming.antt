-- ===== src/Tasks/Upcoming.antt =====
-- GetUpcomingJobs of core/services/admin.go, and the UpcomingJobs of core/domain/job_stats.go that it
-- returns.
use Prim.Native.Nat.{min}
use mathlib.Core.Path.{subst}
use sercha_core.Base.{
  ℕ, ◌+◌, ◌-◌, str_eq, eq_iff, ◌≤◌, String, Bool, true, false, ◌≡◌, refl, sym, ◌↔◌, ◌&&◌, Option,
  none, some, List, [], ◌∷◌, All, length, ltb, Result, ok, err, arith, if◌then◌else◌,
}
use sercha_core.Tasks.Domain.{Task, TaskStatus, is_pending}
use sercha_core.Tasks.Queue.{Tasks}
use sercha_core.Tasks.Reports.{TaskFilter, list_tasks, count_tasks, fits, selected, same_status}
use sercha_core.Tasks.Reports.Pages.{
  NewestFirst, list_tasks-NewestFirst, list_tasks-All, same_result,
}
use sercha_core.Tasks.Schedules.{ScheduledTask, Schedules, list_scheduled_tasks}

pub record UpcomingJobs : Type 0 where
  pub pending_tasks : List Task
  pub scheduled_tasks : List ScheduledTask
  pub next_scheduled_run : Option ℕ

abbrev pub is_sooner : ℕ → Option ℕ → Bool
is_sooner at none = true
is_sooner at (some next) = ltb at next

unfoldable pub earliest : Option ℕ → List ScheduledTask → Option ℕ
earliest next [] = next
earliest next (s ∷ ss) =
    earliest (if s.enabled && is_sooner s.next_run next then some s.next_run else next) ss

unfoldable pub new_upcoming_jobs : List Task → List ScheduledTask → UpcomingJobs
new_upcoming_jobs pending_tasks scheduled_tasks = record {
  pending_tasks = pending_tasks;
  scheduled_tasks = scheduled_tasks;
  next_scheduled_run = earliest none scheduled_tasks;
}

abbrev pub pending_of : String → TaskFilter
pending_of team_id = record {
  team_id = team_id;
  status = some TaskStatus.pending;
  type = none;
  limit = 20;
  offset = 0;
}

abbrev pub upcoming_of : Result (List Task) → Result (List ScheduledTask) → Result UpcomingJobs
upcoming_of (ok ts) (ok ss) = ok (new_upcoming_jobs ts ss)
upcoming_of (ok ts) (err e) = err e
upcoming_of (err e) r = err e

unfoldable pub get_upcoming_jobs : Bool → Bool → String → Tasks → Schedules → Result UpcomingJobs
get_upcoming_jobs down down' team_id tasks schedules =
    upcoming_of (list_tasks down (pending_of team_id) tasks)
      (list_scheduled_tasks down' team_id schedules)

-- The time is not before `at`, where there is one.
abbrev pub NotBefore : ℕ → Option ℕ → Type 0
NotBefore at none = Unit
NotBefore at (some next) = at ≤ next

abbrev pub AllFrom : ℕ → List ScheduledTask → Type 0
AllFrom at ss = All (λ s. s.enabled ≡ true → at ≤ s.next_run) ss

first_time :
    (at n : ℕ) (enabled : Bool)
    → NotBefore at (if enabled && true then some n else none)
      ↔ (NotBefore at none × (enabled ≡ true → at ≤ n))
first_time at n true = ((λ h. (tt, λ e. h)), (λ h. h.1 refl))
first_time at n false = ((λ h. (tt, λ e. absurd (ground arith))), (λ h. tt))

sooner_time :
    (at n next : ℕ) (enabled sooner : Bool)
    → sooner ≡ ltb n next
    → NotBefore at (if enabled && sooner then some n else some next)
      ↔ ((at ≤ next) × (enabled ≡ true → at ≤ n))
sooner_time at n next true true e = ((λ h. (ground arith, λ d. h)), (λ h. h.1 refl))
sooner_time at n next true false e = ((λ h. (h, λ d. ground arith)), (λ h. h.0))
sooner_time at n next false sooner e = ((λ h. (h, λ d. absurd (ground arith))), (λ h. h.0))

one_sooner :
    (at : ℕ) (next : Option ℕ) (s : ScheduledTask)
    → NotBefore at (if s.enabled && is_sooner s.next_run next then some s.next_run else next)
      ↔ (NotBefore at next × (s.enabled ≡ true → at ≤ s.next_run))
one_sooner at none s = first_time at s.next_run s.enabled
one_sooner at (some next) s = sooner_time at s.next_run next s.enabled (ltb s.next_run next) refl

earliest_iff :
    (at : ℕ) (next : Option ℕ) (ss : List ScheduledTask)
    → NotBefore at (earliest next ss) ↔ (NotBefore at next × AllFrom at ss)
unfolding earliest
earliest_iff at next [] = ((λ h. (h, tt)), (λ h. h.0))
earliest_iff at next (s ∷ ss) =
    let sooner : Option ℕ =
      if s.enabled && is_sooner s.next_run next then some s.next_run else next in
    let rest = earliest_iff at sooner ss in
    let one = one_sooner at next s in
    (
      (λ h. ((one.0 (rest.0 h).0).0, ((one.0 (rest.0 h).0).1, (rest.0 h).1))),
      (λ h. rest.1 (one.1 (h.0, h.1.0), h.1.1)),
    )

upcoming_parts :
    (r : Result (List Task)) (q : Result (List ScheduledTask)) {u : UpcomingJobs}
    → upcoming_of r q ≡ ok u
    → (r ≡ ok u.pending_tasks)
      × ((q ≡ ok u.scheduled_tasks) × (u.next_scheduled_run ≡ earliest none u.scheduled_tasks))
unfolding new_upcoming_jobs
upcoming_parts (ok ts) (ok ss) e =
    subst
      (λ (x : UpcomingJobs).
        (◌≡◌ {A = Result (List Task)} (ok ts) (ok x.pending_tasks))
        × ((◌≡◌ {A = Result (List ScheduledTask)} (ok ss) (ok x.scheduled_tasks))
            × (x.next_scheduled_run ≡ earliest none x.scheduled_tasks)))
      (same_result e) (refl, (refl, refl))
upcoming_parts (ok ts) (err x) e = absurd (ground arith)
upcoming_parts (err x) q e = absurd (ground arith)

counted :
    (f : TaskFilter) (db : Tasks) → count_tasks false f db ≡ ok (length (selected (fits f) db))
unfolding count_tasks
counted f db = refl

-- A pending task of the team, as the filter has it.
abbrev pub IsPendingOf : String → Task → Type 0
IsPendingOf team_id t = (t.team_id ≡ team_id) × (t.status ≡ TaskStatus.pending)

abbrev pub waiting_of : String → Tasks → ℕ
waiting_of team_id [] = 0
waiting_of team_id ((_, t) ∷ db) =
    (if str_eq t.team_id team_id && is_pending t.status then 1 else 0) + waiting_of team_id db

pending_status : (s : TaskStatus) → same_status s TaskStatus.pending ≡ true → s ≡ TaskStatus.pending
unfolding same_status
pending_status s h = ground arith

fits-IsPendingOf :
    (team_id : String) (t : Task) → fits (pending_of team_id) t ≡ true → IsPendingOf team_id t
unfolding fits
fits-IsPendingOf team_id t h =
    ((eq_iff t.team_id team_id).0 (ground arith), pending_status t.status (ground arith))

All-IsPendingOf :
    (team_id : String) (ts : List Task)
    → All (λ t. fits (pending_of team_id) t ≡ true) ts
    → All (IsPendingOf team_id) ts
All-IsPendingOf team_id [] h = tt
All-IsPendingOf team_id (t ∷ ts) h =
    (fits-IsPendingOf team_id t h.0, All-IsPendingOf team_id ts h.1)

same_pending : (s : TaskStatus) → same_status s TaskStatus.pending ≡ is_pending s
unfolding same_status is_pending
same_pending TaskStatus.pending = refl
same_pending TaskStatus.processing = refl
same_pending TaskStatus.completed = refl
same_pending TaskStatus.failed = refl

selected-waiting :
    (team_id : String) (db : Tasks)
    → length (selected (fits (pending_of team_id)) db) ≡ waiting_of team_id db
unfolding selected fits
selected-waiting team_id [] = refl
selected-waiting team_id ((k, t) ∷ db) =
    ground (arith, selected-waiting team_id db, same_pending t.status)

twenty_at_most :
    (n total waiting : ℕ) → n ≡ min 20 (total - 0) → total ≡ waiting → n ≡ min 20 waiting
twenty_at_most n total waiting h k = ground arith

-- If GetUpcomingJobs returns, then it lists tasks that are pending and of the team only, from the
-- newest to the oldest, and as many as the table has, or 20 where it has more; and its next run is the
-- earliest one of the enabled schedules that it lists: a time is not after it exactly if it is after
-- none of theirs, where a time is not after a missing next run.
pub get_upcoming_jobs-NotBefore :
    (down down' : Bool) (team_id : String) (tasks : Tasks) (schedules : Schedules)
    {u : UpcomingJobs}
    → get_upcoming_jobs down down' team_id tasks schedules ≡ ok u
    → (All (IsPendingOf team_id) u.pending_tasks × NewestFirst u.pending_tasks)
      × ((length u.pending_tasks ≡ min 20 (waiting_of team_id tasks))
          × ((at : ℕ) → NotBefore at u.next_scheduled_run ↔ AllFrom at u.scheduled_tasks))
unfolding get_upcoming_jobs
get_upcoming_jobs-NotBefore down down' team_id tasks schedules {u} e =
    let f = pending_of team_id in
    let (listed, (found, next)) =
      upcoming_parts (list_tasks down f tasks) (list_scheduled_tasks down' team_id schedules)
        {u = u} e in
    let total = length (selected (fits f) tasks) in
    let (sorted, long) =
      list_tasks-NewestFirst down false f tasks {ts = u.pending_tasks} {n = total} listed
        (counted f tasks) in
    (
      (
        All-IsPendingOf team_id u.pending_tasks
            (list_tasks-All down f tasks {ts = u.pending_tasks} listed),
        sorted,
      ),
      (
        twenty_at_most (length u.pending_tasks) total (waiting_of team_id tasks) long
            (selected-waiting team_id tasks),
        λ at.
            subst (λ run. NotBefore at run ↔ AllFrom at u.scheduled_tasks) (sym next)
              (
                (λ h. ((earliest_iff at none u.scheduled_tasks).0 h).1),
                (λ h. (earliest_iff at none u.scheduled_tasks).1 (tt, h)),
              ),
      ),
    )
