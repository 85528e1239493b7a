-- ===== src/Sync/Ledger/Rows.antt =====
-- The rows of the ledger by their key.
use sercha_core.Base.{
  String, true, false, ◌&&◌, ◌≡◌, none, some, [], ◌∷◌, ℕ, str_eq, eq_iff, arith, if◌then◌else◌,
}
use sercha_core.Sync.Ledger.{
  Ledger, RetryBackoff, is_row, find_row, delete_row, next_row, record_failure, is_valid_backoff,
}

pub find_row-delete :
    (s e s' e' : String) (rows : Ledger)
    → find_row s e (delete_row s' e' rows)
      ≡ (if str_eq s' s && str_eq e' e then none else find_row s e rows)
unfolding find_row delete_row is_row
find_row-delete s e s' e' [] = ground arith
find_row-delete s e s' e' (r ∷ rows) = ground (
  arith,
  find_row-delete s e s' e' rows,
  eq_iff s' s,
  eq_iff e' e,
  eq_iff r.source_id s,
  eq_iff r.source_id s',
  eq_iff r.external_id e,
  eq_iff r.external_id e',
)

-- A failure that is recorded has a row, and the rows of other documents stay.
pub find_row-record :
    (now : ℕ) (s e e' reason : String) (b : RetryBackoff) (rows : Ledger)
    → is_valid_backoff b ≡ true
    → str_eq s "" ≡ false
    → str_eq e' "" ≡ false
    → find_row s e (record_failure false false now s e' reason b rows).1 ≡ (
        if str_eq e' e
        then some (next_row now s e' reason b (find_row s e' rows))
        else find_row s e rows)
unfolding record_failure find_row is_row
find_row-record now s e e' reason b rows v p q =
    ground (arith, find_row-delete s e s e' rows, eq_iff s s, eq_iff e' e)
