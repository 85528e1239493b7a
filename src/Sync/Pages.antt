-- ===== src/Sync/Pages.antt =====
-- syncContainer of core/services/sync.go: the loop over the pages of changes, on fuel for as many
-- pages, and the container as a whole. Out of fuel the result is `none`.
pub mod Accounts
pub mod Marks
pub mod Unlost
pub mod Retries
use sercha_core.Base.{
  ℕ, zero, suc, ◌+◌, String, Bool, true, false, not, ◌&&◌, ◌||◌, Option, none, some, List, [], ◌∷◌,
  ◌==◌, str_eq, contains, Result, ok, err, internal, Error, if◌then◌else◌,
}
use sercha_core.Sync.Domain.{
  ChangeType, Document, Change, Source, SyncStats, no_stats, modified, added, deleted, unknown,
}
use sercha_core.Sync.World.{
  World, Env, Orchestrator, Connector, Prog, ◌>>=◌, ◌>>◌, after, pure, when, call, send, log, count,
  one_error, mark, delete_chunks, delete_embeddings,
}
use sercha_core.Sync.Changes.{get_external, process_change}
use sercha_core.Sync.Containers.{
  record_document_failure, clear_document_failure, reconcile_deletions, retry_failed_documents,
}

-- The changes of a page that are not processed yet.
unfoldable pub unprocessed : List String → List Change → List Change
unprocessed done [] = []
unprocessed done (c ∷ cs) =
    let rest = unprocessed done cs in if contains done c.external_id then rest else c ∷ rest

abbrev pub add_id : Result Document → List String → List String
add_id (err e) ids = ids
add_id (ok d) ids = d.id ∷ ids

unfoldable pub mark_all : List Change → Prog (Unit {0})
mark_all [] = pure tt
mark_all (c ∷ cs) = mark c.external_id >> mark_all cs

-- readStatsErrors
abbrev pub read_errors : Prog ℕ
read_errors w = (w.stats.errors, w)

abbrev pub Outcome : Type 0
Outcome = Option (Result String)

-- No more pages, or the next one.
abbrev pub turn : (String → String → Prog Outcome) → String → String → String → Prog Outcome
turn rest cursor last next w =
    if str_eq next "" || str_eq next cursor then (some (ok last), w) else rest next last w

abbrev pub unless_cancelled : Bool → Prog Outcome → Prog Outcome
unless_cancelled true m = pure (some (err internal))
unless_cancelled false m = m

module _ (o : Orchestrator) (env : Env) (source : Source) where
  abbrev pub update_id : ChangeType → Change → Prog (Result Document)
  update_id modified c = get_external o env source c.external_id
  update_id added c = pure (err internal)
  update_id deleted c = pure (err internal)
  update_id (unknown _) c = pure (err internal)

  -- The documents whose chunks are cleaned up before they are indexed again.
  unfoldable pub update_ids : List Change → Prog (List String)
  update_ids [] = pure []
  update_ids (c ∷ cs) = do r ← update_id c.type c; ids ← update_ids cs; pure (add_id r ids)

  abbrev pub delete_old : List String → Prog (Unit {0})
  delete_old [] = pure tt
  delete_old (id ∷ ids) = do
    when o.has_engine (send (delete_chunks (id ∷ ids)))
    when o.has_vectors (send (delete_embeddings (id ∷ ids)))

  unfoldable pub cleanup_old_chunks_batch : List String → Prog (Unit {0})
  cleanup_old_chunks_batch ids = delete_old ids

  abbrev pub settle : String → Result (Unit {0}) → Prog (Unit {0})
  settle external_id (ok _) = do
    log external_id true
    clear_document_failure o env source external_id
  settle external_id (err e) = do
    log external_id false
    count one_error
    record_document_failure o env source external_id e

  unfoldable pub process_one : Change → Prog (Unit {0})
  process_one c = do r ← process_change o env source c; settle c.external_id r

  unfoldable pub fan_out : List Change → Prog (Unit {0})
  fan_out [] = pure tt
  fan_out (c ∷ cs) = process_one c >> fan_out cs

  -- A page, and whether its changes all succeeded.
  unfoldable pub process_page : List Change → Prog Bool
  process_page cs = do
    ids ← update_ids cs
    cleanup_old_chunks_batch ids
    mark_all cs
    errors_before ← read_errors
    fan_out cs
    errors_after ← read_errors
    pure (errors_after == errors_before)

  abbrev pub on_new :
      (String → String → Prog Outcome) → String → String → String → List Change → Prog Outcome
  on_new rest cursor last next [] = turn rest cursor last next
  on_new rest cursor last next (c ∷ cs) = do
    clean ← process_page (c ∷ cs)
    turn rest cursor (if o.has_ledger || clean then next else last) next

  abbrev pub on_page :
      (String → String → Prog Outcome)
      → String
      → String
      → Result (List Change × String)
      → Prog Outcome
  on_page rest cursor last (err e) = pure (some (err e))
  on_page rest cursor last (ok ([], next)) = pure (some (ok last))
  on_page rest cursor last (ok (c ∷ cs, next)) =
      λ w. on_new rest cursor last next (unprocessed w.processed (c ∷ cs)) w

  -- From a cursor on, with the last cursor that was reached.
  unfoldable pub fetch_pages : ℕ → Connector → String → String → Prog Outcome
  fetch_pages zero c cursor last = pure none
  fetch_pages (suc n) c cursor last =
      let rest = fetch_pages n c in
      do
        k ← call
        unless_cancelled (env.is_cancelled k)
            do k' ← call; on_page rest cursor last (c.fetch_changes k' cursor)

  -- Phase 1b and phase 2.
  unfoldable pub update_container : ℕ → Connector → String → Prog Outcome
  update_container fuel c cursor = do
    retry_failed_documents o env source c
    fetch_pages fuel c cursor ""

  abbrev pub sync_tested : ℕ → Connector → String → Result (Unit {0}) → Prog Outcome
  sync_tested fuel c cursor (err e) = pure (some (err e))
  sync_tested fuel c cursor (ok _) = do
    count (λ s. no_stats)
    reconcile_deletions o env source c
    update_container fuel c cursor

  abbrev pub sync_connected : ℕ → String → Result Connector → Prog Outcome
  sync_connected fuel cursor (err e) = pure (some (err e))
  sync_connected fuel cursor (ok c) = do k ← call; sync_tested fuel c cursor (c.test_connection k)

  unfoldable pub sync_container : ℕ → String → String → Prog Outcome
  sync_container fuel cursor container_id = do
    k ← call
    sync_connected fuel cursor (env.connect k container_id)
