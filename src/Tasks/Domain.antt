-- ===== src/Tasks/Domain.antt =====
-- core/domain/task.go: a task, its life cycle and its retries. A duration is the 64 bits of an int64
-- in two's complement; attempts count from 0, and a maximum below 0 allows what 0 allows.
use sercha_core.Base.{
  ℕ, suc, ◌+◌, ◌-◌, ◌*◌, ◌%◌, ◌^◌, String, Bool, true, false, not, ◌&&◌, Option, none, some, Table,
  [], ◌∷◌, lookup, ltb, leb, ℤ, pos, str_eq, if◌then◌else◌,
}

pub data TaskType : Type 0 where
  sync_source sync_all sync_container : TaskType

pub data TaskTrigger : Type 0 where
  manual scheduled webhook : TaskTrigger

pub data TaskStatus : Type 0 where
  pending processing completed failed : TaskStatus

unfoldable pub is_pending : TaskStatus → Bool
is_pending pending = true
is_pending _ = false

-- status IN ('completed', 'failed')
unfoldable pub is_over : TaskStatus → Bool
is_over completed = true
is_over failed = true
is_over _ = false

pub record Task : Type 0 where
  pub id : String
  pub type : TaskType
  pub team_id : String
  pub payload : Table String
  pub status : TaskStatus
  pub priority : ℤ
  pub attempts : ℕ
  pub max_attempts : ℕ
  pub error : String
  pub created_at : ℕ
  pub updated_at : ℕ
  pub started_at : Option ℕ
  pub completed_at : Option ℕ
  pub scheduled_for : ℕ

unfoldable pub new_task : String → ℕ → TaskType → String → Table String → Task
new_task id now type team_id payload = record {
  id = id;
  type = type;
  team_id = team_id;
  payload = payload;
  status = pending;
  priority = pos 0;
  attempts = 0;
  max_attempts = 3;
  error = "";
  created_at = now;
  updated_at = now;
  started_at = none;
  completed_at = none;
  scheduled_for = now;
}

unfoldable pub trigger_text : TaskTrigger → String
trigger_text manual = "manual"
trigger_text scheduled = "scheduled"
trigger_text webhook = "webhook"

-- NewSyncSourceTaskWithTrigger
unfoldable pub new_sync_source_task : String → ℕ → String → String → TaskTrigger → Task
new_sync_source_task id now team_id source_id t =
    new_task id now sync_source team_id
      (("source_id", source_id) ∷ ("trigger", trigger_text t) ∷ [])

unfoldable pub new_sync_all_task : String → ℕ → String → Task
new_sync_all_task id now team_id =
    new_task id now sync_all team_id (("trigger", trigger_text scheduled) ∷ [])

unfoldable pub new_sync_container_task : String → ℕ → String → String → String → Task
new_sync_container_task id now team_id source_id container_id =
    new_task id now sync_container team_id (
      ("source_id", source_id)
      ∷ ("container_id", container_id)
      ∷ ("trigger", trigger_text manual)
      ∷ [])

-- reading a Go map: "" where the key is missing
abbrev pub text_of : Option String → String
text_of none = ""
text_of (some s) = s

unfoldable pub source_id : Task → String
source_id t = text_of (lookup "source_id" t.payload)

unfoldable pub container_id : Task → String
container_id t = text_of (lookup "container_id" t.payload)

unfoldable pub trigger_of : String → TaskTrigger
trigger_of s =
    if str_eq s "manual" then manual else if str_eq s "webhook" then webhook else scheduled

unfoldable pub trigger : Task → TaskTrigger
trigger t = trigger_of (text_of (lookup "trigger" t.payload))

unfoldable pub can_retry : Task → Bool
can_retry t = ltb t.attempts t.max_attempts

unfoldable pub is_ready : ℕ → Task → Bool
is_ready now t = is_pending t.status && ltb t.scheduled_for now

unfoldable pub mark_processing : ℕ → Task → Task
mark_processing now t = record t {
  status = processing;
  started_at = some now;
  updated_at = now;
  attempts = suc t.attempts;
}

unfoldable pub mark_completed : ℕ → Task → Task
mark_completed now t = record t {
  status = completed;
  completed_at = some now;
  updated_at = now;
  error = "";
}

unfoldable pub mark_failed : ℕ → String → Task → Task
mark_failed now reason t = record t { status = failed; updated_at = now; error = reason }

abbrev pub second : ℕ
second = 1_000_000_000

-- 5 * time.Minute
abbrev pub max_backoff : ℕ
max_backoff = 300 * second

abbrev pub is_negative : ℕ → Bool
is_negative d = leb (2 ^ 63) d

-- time.Duration(1<<attempts) * time.Second, with both wrap-arounds
unfoldable pub raw_backoff : ℕ → ℕ
raw_backoff attempts = 2 ^ attempts % 2 ^ 64 * second % 2 ^ 64

-- `if backoff > 5*time.Minute`, a signed comparison
unfoldable pub backoff : ℕ → ℕ
backoff attempts =
    let d = raw_backoff attempts in
    if not (is_negative d) && ltb max_backoff d then max_backoff else d

-- now.Add(d)
unfoldable pub add_duration : ℕ → ℕ → ℕ
add_duration now d = if is_negative d then now - (2 ^ 64 - d) else now + d

unfoldable pub retry : ℕ → String → Task → Task
retry now reason t = record t {
  status = pending;
  updated_at = now;
  error = reason;
  scheduled_for = add_duration now (backoff t.attempts);
}
