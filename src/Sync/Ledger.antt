-- ===== src/Sync/Ledger.antt =====
-- adapters/driven/postgres/sync_failed_doc_store.go over the table of
-- migrations/0003_sync_failed_documents.sql, whose key is the source with the external ID. A
-- statement fails as a whole where its argument `down` says so. A duration is the 64 bits of an
-- int64; the error text is the one that truncateError returns.
pub mod Delays
pub mod Rows
use sercha_core.Base.{
  ℕ, zero, suc, ◌+◌, ◌-◌, ◌*◌, ◌%◌, ◌^◌, String, Bool, true, false, not, ◌&&◌, ◌||◌, Option, none,
  some, List, [], ◌∷◌, take, length, ltb, leb, ◌==◌, str_eq, Result, ok, err, internal,
  if◌then◌else◌,
}

pub record SyncFailedDoc : Type 0 where
  pub source_id : String
  pub external_id : String
  pub attempt_count : ℕ
  pub last_error : String
  pub last_attempted_at : ℕ
  pub next_retry_after : ℕ
  pub terminal : Bool
  pub created_at : ℕ

abbrev pub Ledger : Type 0
Ledger = List SyncFailedDoc

-- A base, a maximum or a number of attempts below 0 counts as 0.
pub record RetryBackoff : Type 0 where
  pub base : ℕ
  pub max : ℕ
  pub max_attempts : ℕ

abbrev pub is_negative : ℕ → Bool
is_negative d = leb (2 ^ 63) d

-- d >= m for a maximum that is not negative
abbrev pub reaches : ℕ → ℕ → Bool
reaches d m = not (is_negative d) && leb m d

abbrev pub capped : ℕ → ℕ → ℕ
capped d m = if not (is_negative d) && ltb m d then m else d

-- The loop with this many doublings left.
unfoldable pub doubled : ℕ → ℕ → ℕ → ℕ
doubled zero d m = capped d m
doubled (suc left) d m =
    let d' = d * 2 % 2 ^ 64 in let rest = doubled left d' m in if reaches d' m then m else rest

unfoldable pub compute_backoff_delay : ℕ → RetryBackoff → ℕ
compute_backoff_delay attempt b = doubled (attempt - 1) b.base b.max

unfoldable pub is_row : String → String → SyncFailedDoc → Bool
is_row source_id external_id r = str_eq r.source_id source_id && str_eq r.external_id external_id

unfoldable pub find_row : String → String → Ledger → Option SyncFailedDoc
find_row source_id external_id [] = none
find_row source_id external_id (r ∷ rows) =
    if is_row source_id external_id r then some r else find_row source_id external_id rows

unfoldable pub delete_row : String → String → Ledger → Ledger
delete_row source_id external_id [] = []
delete_row source_id external_id (r ∷ rows) =
    let rest = delete_row source_id external_id rows in
    if is_row source_id external_id r then rest else r ∷ rest

abbrev pub attempts_of : Option SyncFailedDoc → ℕ
attempts_of none = 0
attempts_of (some r) = r.attempt_count

abbrev pub created_of : ℕ → Option SyncFailedDoc → ℕ
created_of now none = now
created_of now (some r) = r.created_at

-- The row that the upsert leaves, from the one that was there.
abbrev pub next_row :
    ℕ → String → String → String → RetryBackoff → Option SyncFailedDoc → SyncFailedDoc
next_row now source_id external_id reason b old =
    let attempt = suc (attempts_of old) in
    record {
      source_id = source_id;
      external_id = external_id;
      attempt_count = attempt;
      last_error = reason;
      last_attempted_at = now;
      next_retry_after = now + compute_backoff_delay attempt b;
      terminal = leb b.max_attempts attempt;
      created_at = created_of now old;
    }

abbrev pub is_valid_backoff : RetryBackoff → Bool
is_valid_backoff b = ltb 0 b.base && (ltb 0 b.max && ltb 0 b.max_attempts)

-- Record. Its two statements have the row to themselves.
unfoldable pub record_failure :
    Bool → Bool → ℕ → String → String → String → RetryBackoff → Ledger → Result (Unit {0}) × Ledger
record_failure down down' now source_id external_id reason b rows =
    if str_eq source_id "" || str_eq external_id ""
    then (err internal, rows)
    else if not (is_valid_backoff b)
    then (err internal, rows)
    else if down || down'
    then (err internal, rows)
    else (
      ok tt,
      next_row now source_id external_id reason b (find_row source_id external_id rows)
          ∷ delete_row source_id external_id rows,
    )

unfoldable pub mark_succeeded : Bool → String → String → Ledger → Result (Unit {0}) × Ledger
mark_succeeded down source_id external_id rows =
    if down then (err internal, rows) else (ok tt, delete_row source_id external_id rows)

-- WHERE source_id = ... AND terminal = FALSE AND next_retry_after <= now
unfoldable pub is_ready : String → ℕ → SyncFailedDoc → Bool
is_ready source_id now r =
    str_eq r.source_id source_id && (not r.terminal && leb r.next_retry_after now)

unfoldable pub insert_due : SyncFailedDoc → Ledger → Ledger
insert_due r [] = r ∷ []
insert_due r (s ∷ rows) =
    let rest = insert_due r rows in
    if leb r.next_retry_after s.next_retry_after then r ∷ (s ∷ rows) else s ∷ rest

-- ORDER BY next_retry_after ASC; of rows that are due at one time the earlier comes first
unfoldable pub ready_rows : String → ℕ → Ledger → Ledger
ready_rows source_id now [] = []
ready_rows source_id now (r ∷ rows) =
    let rest = ready_rows source_id now rows in
    if is_ready source_id now r then insert_due r rest else rest

unfoldable pub list_ready_for_retry : Bool → String → ℕ → ℕ → Ledger → Result Ledger
list_ready_for_retry down source_id now limit rows =
    if limit == 0
    then ok []
    else if down
    then err internal
    else ok (take limit (ready_rows source_id now rows))

unfoldable pub insert_latest : SyncFailedDoc → Ledger → Ledger
insert_latest r [] = r ∷ []
insert_latest r (s ∷ rows) =
    let rest = insert_latest r rows in
    if leb s.last_attempted_at r.last_attempted_at then r ∷ (s ∷ rows) else s ∷ rest

-- WHERE source_id = ... ORDER BY last_attempted_at DESC
unfoldable pub rows_of : String → Ledger → Ledger
rows_of source_id [] = []
rows_of source_id (r ∷ rows) =
    let rest = rows_of source_id rows in
    if str_eq r.source_id source_id then insert_latest r rest else rest

-- ListBySource and CountBySource
unfoldable pub list_by_source : Bool → String → ℕ → Ledger → Result Ledger
list_by_source down source_id limit rows =
    if down
    then err internal
    else ok (take (if limit == 0 then 100 else limit) (rows_of source_id rows))

unfoldable pub count_by_source : Bool → String → Ledger → Result ℕ
count_by_source down source_id rows =
    if down then err internal else ok (length (rows_of source_id rows))
