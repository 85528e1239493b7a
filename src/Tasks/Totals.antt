-- ===== src/Tasks/Totals.antt =====
-- The first query of GetJobStats of adapters/driven/queue/postgres/queue.go: how many tasks of a team
-- were created in a period, by their status, and the retries that it sums up.
use mathlib.Core.Path.{subst}
use sercha_core.Base.{
  ℕ, suc, ◌+◌, ◌-◌, String, Bool, true, false, not, ◌&&◌, ◌≡◌, ◌∙◌, refl, sym, List, [], ◌∷◌,
  length, ltb, leb, ℤ, pos, pos_part, neg_part, sub_ℕ, Result, ok, err, internal, str_eq, arith,
  Bool-cases, inl, inr, if◌then◌else◌,
}
use sercha_core.Tasks.Domain.{Task, TaskStatus, pending, processing, completed, failed}
use sercha_core.Tasks.Queue.{Tasks}
use sercha_core.Tasks.Reports.{same_status, selected}
use sercha_core.Tasks.Reports.Pages.{same_result}

pub record AnalyticsPeriod : Type 0 where
  pub start : ℕ
  pub end : ℕ

pub record JobCounts : Type 0 where
  pub total_jobs : ℕ
  pub pending_jobs : ℕ
  pub processing_jobs : ℕ
  pub completed_jobs : ℕ
  pub failed_jobs : ℕ
  pub total_retries : ℤ

-- WHERE team_id = $1 AND created_at >= $2 AND created_at <= $3
unfoldable pub in_period : String → AnalyticsPeriod → Task → Bool
in_period team_id period t =
    str_eq t.team_id team_id && (leb period.start t.created_at && leb t.created_at period.end)

-- COUNT(*) FILTER (WHERE status = ...)
unfoldable pub count_filter : TaskStatus → List Task → ℕ
count_filter status [] = 0
count_filter status (t ∷ ts) =
    let rest = count_filter status ts in if same_status t.status status then suc rest else rest

-- COALESCE(SUM(attempts - 1), 0)
unfoldable pub sum_retries : List Task → ℤ
sum_retries [] = pos 0
sum_retries (t ∷ ts) =
    let rest = sum_retries ts in sub_ℕ (t.attempts + pos_part rest) (suc (neg_part rest))

unfoldable pub get_job_counts : Bool → String → AnalyticsPeriod → Tasks → Result JobCounts
get_job_counts down team_id period db =
    if down
    then err internal
    else (let ts = selected (in_period team_id period) db in
        ok (record {
          total_jobs = length ts;
          pending_jobs = count_filter pending ts;
          processing_jobs = count_filter processing ts;
          completed_jobs = count_filter completed ts;
          failed_jobs = count_filter failed ts;
          total_retries = sum_retries ts;
        }))

-- Whether the task counts: of the team, and created neither before nor after the period.
abbrev pub is_counted : String → AnalyticsPeriod → Task → Bool
is_counted team_id period t =
    str_eq t.team_id team_id
    && not (ltb t.created_at period.start)
    && not (ltb period.end t.created_at)

-- The attempts behind the first of the tasks that count.
abbrev pub retries_of : String → AnalyticsPeriod → Tasks → ℕ
retries_of team_id period [] = 0
retries_of team_id period ((_, t) ∷ db) =
    (if is_counted team_id period t then t.attempts - 1 else 0) + retries_of team_id period db

-- How many of the tasks that count have not been attempted.
abbrev pub unattempted : String → AnalyticsPeriod → Tasks → ℕ
unattempted team_id period [] = 0
unattempted team_id period ((_, t) ∷ db) =
    (if is_counted team_id period t && ltb t.attempts 1 then 1 else 0)
    + unattempted team_id period db

abbrev pub counted_with : (Task → Bool) → String → AnalyticsPeriod → Tasks → ℕ
counted_with p team_id period [] = 0
counted_with p team_id period ((_, t) ∷ db) =
    (if is_counted team_id period t && p t then 1 else 0) + counted_with p team_id period db

one_more :
    (a r u : ℕ)
    → sub_ℕ (a + pos_part (sub_ℕ r u)) (suc (neg_part (sub_ℕ r u)))
      ≡ sub_ℕ (a - 1 + r) ((if ltb a 1 then 1 else 0) + u)
one_more a r u = ground arith

none_more : (r u : ℕ) → sub_ℕ r u ≡ sub_ℕ (0 + r) (0 + u)
none_more r u = ground arith

same_condition :
    (team_id : String) (period : AnalyticsPeriod) (t : Task)
    → in_period team_id period t ≡ is_counted team_id period t
unfolding in_period
same_condition team_id period t = ground arith

sum_retries-parts :
    (team_id : String) (period : AnalyticsPeriod) (db : Tasks)
    → sum_retries (selected (in_period team_id period) db)
      ≡ sub_ℕ (retries_of team_id period db) (unattempted team_id period db)
unfolding selected sum_retries
sum_retries-parts team_id period [] = refl
sum_retries-parts team_id period ((k, t) ∷ db) =
    let same = same_condition team_id period t in
    let rest = sum_retries-parts team_id period db in
    elim (Bool-cases (in_period team_id period t)) [
      | inl counts ↦
          rw (counts, sym same ∙ counts, rest)
            (one_more t.attempts (retries_of team_id period db) (unattempted team_id period db))
      | inr left_out ↦
          rw (left_out, sym same ∙ left_out)
            (rest ∙ none_more (retries_of team_id period db) (unattempted team_id period db))
    ]

count_filter-counted :
    (status : TaskStatus) (team_id : String) (period : AnalyticsPeriod) (db : Tasks)
    → count_filter status (selected (in_period team_id period) db)
      ≡ counted_with (λ t. same_status t.status status) team_id period db
unfolding selected count_filter
count_filter-counted status team_id period [] = refl
count_filter-counted status team_id period ((k, t) ∷ db) =
    ground (arith, count_filter-counted status team_id period db, same_condition team_id period t)

selected-counted :
    (team_id : String) (period : AnalyticsPeriod) (db : Tasks)
    → length (selected (in_period team_id period) db) ≡ counted_with (λ t. true) team_id period db
unfolding selected
selected-counted team_id period [] = refl
selected-counted team_id period ((k, t) ∷ db) =
    ground (arith, selected-counted team_id period db, same_condition team_id period t)

-- What the first query says of the tasks of a team that were created in a period.
pub record IsCounts (team_id : String) (period : AnalyticsPeriod) (db : Tasks) (c : JobCounts)
    : Type 0 where
  pub total : c.total_jobs ≡ counted_with (λ t. true) team_id period db
  pub waiting : c.pending_jobs ≡ counted_with (λ t. same_status t.status pending) team_id period db
  pub running :
      c.processing_jobs ≡ counted_with (λ t. same_status t.status processing) team_id period db
  pub done : c.completed_jobs ≡ counted_with (λ t. same_status t.status completed) team_id period db
  pub broken : c.failed_jobs ≡ counted_with (λ t. same_status t.status failed) team_id period db
  pub retries :
      c.total_retries ≡ sub_ℕ (retries_of team_id period db) (unattempted team_id period db)

-- If the first query of GetJobStats returns, then its five counts are the numbers of tasks of the team
-- that were created neither before nor after the period, in all and by status; and its sum of
-- retries is the number of attempts behind the first of those tasks, less one for each of them that
-- was not attempted.
pub get_job_counts-IsCounts :
    (down : Bool) (team_id : String) (period : AnalyticsPeriod) (db : Tasks) {c : JobCounts}
    → get_job_counts down team_id period db ≡ ok c
    → IsCounts team_id period db c
unfolding get_job_counts
get_job_counts-IsCounts true team_id period db h = absurd (ground arith)
get_job_counts-IsCounts false team_id period db {c} h =
    subst (IsCounts team_id period db) (same_result h) (record {
      total = selected-counted team_id period db;
      waiting = count_filter-counted pending team_id period db;
      running = count_filter-counted processing team_id period db;
      done = count_filter-counted completed team_id period db;
      broken = count_filter-counted failed team_id period db;
      retries = sum_retries-parts team_id period db;
    })
