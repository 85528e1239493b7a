-- ===== src/Sync/Containers.antt =====
-- One container, core/services/sync.go: the deletions that a connector's inventory shows, the retries
-- from the ledger, and the pages of changes. The changes of a page stand in the order in which the
-- pool of goroutines processes them, each as one step.
pub mod Deletions
pub mod Reconcile
use sercha_core.Base.{
  ℕ, zero, suc, ◌+◌, String, Bool, true, false, not, ◌&&◌, ◌||◌, Option, none, some, List, [], ◌∷◌,
  ◌==◌, str_eq, contains, Result, ok, err, internal, Error, if◌then◌else◌,
}
use text.Mathlib.Text.{starts_with}
use sercha_core.Sync.Domain.{
  ChangeType, Document, Change, Source, SyncStats, no_stats, modified, deleted,
}
use sercha_core.Sync.Documents.{list_external_ids}
use sercha_core.Sync.Ledger.{
  Ledger, SyncFailedDoc, record_failure, mark_succeeded, list_ready_for_retry,
}
use sercha_core.Sync.World.{
  World, Env, Orchestrator, Connector, Prog, ◌>>=◌, ◌>>◌, after, pure, when, call, send, log, count,
  one_error, mark, on_ledger, delete_chunks, delete_embeddings,
}
use sercha_core.Sync.Changes.{get_external, process_change}

abbrev pub deletion : String → Change
deletion external_id = record {
  type = deleted;
  document = none;
  content = "";
  load_content = none;
  external_id = external_id;
}

abbrev pub count_failed : Result (Unit {0}) → Prog (Unit {0})
count_failed (ok _) = pure tt
count_failed (err _) = count one_error

unfoldable pub in_scope : String → List String → List String
in_scope scope [] = []
in_scope scope (id ∷ ids) =
    let rest = in_scope scope ids in if starts_with id scope then id ∷ rest else rest

abbrev pub refetched : String → Option Document → String → Change
refetched external_id d content = record {
  type = modified;
  document = d;
  content = content;
  load_content = none;
  external_id = external_id;
}

module _ (o : Orchestrator) (env : Env) (source : Source) where
  unfoldable pub record_document_failure : String → Error → Prog (Unit {0})
  record_document_failure external_id e w =
      if not o.has_ledger || str_eq external_id "" then (tt, w) else (
        tt,
        (on_ledger w (
            record_failure (env.ledger_down w.calls) (env.ledger_down (suc w.calls))
              (env.clock w.calls) source.id external_id (env.text e) o.backoff w.failed)).1,
      )

  unfoldable pub clear_document_failure : String → Prog (Unit {0})
  clear_document_failure external_id w =
      if not o.has_ledger || str_eq external_id "" then (tt, w) else (
        tt,
        (on_ledger w (mark_succeeded (env.ledger_down w.calls) source.id external_id w.failed)).1,
      )

  -- reconcileDeletions
  abbrev pub delete_unless : Bool → String → Prog (Unit {0})
  delete_unless true external_id = pure tt
  delete_unless false external_id = do
    mark external_id
    r ← process_change o env source (deletion external_id)
    count_failed r

  unfoldable pub delete_missing : List String → List String → Prog (Unit {0})
  delete_missing inventory [] = pure tt
  delete_missing inventory (id ∷ ids) =
      (λ w. delete_unless (contains inventory id || contains w.processed id) id w)
      >> delete_missing inventory ids

  abbrev pub delete_by : Result (List String) → List String → Prog (Unit {0})
  delete_by (err e) ids = pure tt
  delete_by (ok inventory) ids = delete_missing inventory ids

  abbrev pub reconcile_stored : Connector → String → List String → Prog (Unit {0})
  reconcile_stored c scope [] = pure tt
  reconcile_stored c scope (id ∷ ids) = do k ← call; delete_by (c.inventory k scope) (id ∷ ids)

  unfoldable pub reconcile_scopes : Connector → List String → List String → Prog (Unit {0})
  reconcile_scopes c ids [] = pure tt
  reconcile_scopes c ids (scope ∷ scopes) =
      reconcile_stored c scope (in_scope scope ids) >> reconcile_scopes c ids scopes

  abbrev pub reconcile_listed : Connector → List String → Result (List String) → Prog (Unit {0})
  reconcile_listed c scopes (err e) = pure tt
  reconcile_listed c scopes (ok ids) = reconcile_scopes c ids scopes

  abbrev pub reconcile_declared : Connector → List String → Prog (Unit {0})
  reconcile_declared c [] = pure tt
  reconcile_declared c (scope ∷ scopes) = λ w.
      reconcile_listed c (scope ∷ scopes)
        (list_external_ids (env.down w.calls) source.id w.documents)
        (record w { calls = suc w.calls })

  unfoldable pub reconcile_deletions : Connector → Prog (Unit {0})
  reconcile_deletions c = reconcile_declared c c.reconciliation_scopes

  -- retryFailedDocuments
  abbrev pub settle_retry : String → Result (Unit {0}) → Prog (Unit {0})
  settle_retry external_id (ok _) = do clear_document_failure external_id; log external_id true
  settle_retry external_id (err e) = do
    count one_error
    record_document_failure external_id e
    log external_id false

  abbrev pub retry_fetched : String → Result (Option Document × String) → Prog (Unit {0})
  retry_fetched external_id (err e) = do
    record_document_failure external_id e
    log external_id false
    mark external_id
  retry_fetched external_id (ok (d, content)) = do
    mark external_id
    r ← process_change o env source (refetched external_id d content)
    settle_retry external_id r

  unfoldable pub retry_row : Connector → SyncFailedDoc → Prog (Unit {0})
  retry_row c r w =
      if contains w.processed r.external_id
      then (tt, w)
      else retry_fetched r.external_id (c.fetch_document w.calls r.external_id)
          (record w { calls = suc w.calls })

  unfoldable pub retry_rows : Connector → Ledger → Prog (Unit {0})
  retry_rows c [] = pure tt
  retry_rows c (r ∷ rows) = do
    k ← call
    let rest = retry_row c r >> retry_rows c rows
    λ w. if env.is_cancelled k then (tt, w) else rest w

  abbrev pub retry_listed : Connector → Result Ledger → Prog (Unit {0})
  retry_listed c (err e) = pure tt
  retry_listed c (ok rows) = retry_rows c rows

  unfoldable pub retry_failed_documents : Connector → Prog (Unit {0})
  retry_failed_documents c w =
      if not o.has_ledger
      then (tt, w)
      else retry_listed c
          (list_ready_for_retry (env.ledger_down (suc w.calls)) source.id (env.clock w.calls)
            o.retry_batch w.failed)
          (record w { calls = suc (suc w.calls) })
