-- ===== src/Sync/Changes.antt =====
-- One change, core/services/sync.go: processChange with the deletion, the exclusion rules and the
-- indexing of a document. The metadata that the pipeline is given, and its preferences, belong to the
-- answer of the pipeline.
pub mod Books
use sercha_core.Base.{
  Bytes, ℕ, suc, ◌+◌, String, Bool, true, false, not, ◌&&◌, Option, none, some, List, [], ◌∷◌,
  str_eq, Result, ok, err, internal, Error, if◌then◌else◌,
}
use sercha_core.Content.{matches_exclusion_pattern}
use sercha_core.Sync.Domain.{
  ChangeType, Document, Change, Source, Settings, SyncStats, SyncExclusionSettings, added, modified,
  deleted, unknown, get_active_patterns, has_patterns,
}
use sercha_core.Sync.Documents.{get_by_external_id, save_document, delete_document}
use sercha_core.Sync.World.{
  World, Env, Orchestrator, Request, Prog, ◌>>=◌, ◌>>◌, after, pure, when, call, send, count,
  on_documents, delete_chunks, delete_embeddings, observe_ingested, observe_deleted,
}

module _ (o : Orchestrator) (env : Env) (source : Source) where
  -- GetByExternalID of the document store
  unfoldable pub get_external : String → Prog (Result Document)
  get_external external_id w = (
    get_by_external_id (env.down w.calls) source.id external_id w.documents,
    record w { calls = suc w.calls },
  )

  abbrev pub count_deleted : SyncStats → SyncStats
  count_deleted s = record s { documents_deleted = suc s.documents_deleted }

  abbrev pub finish_delete : Document → Result (Unit {0}) → Prog (Result (Unit {0}))
  finish_delete d (err e) = pure (err e)
  finish_delete d (ok _) = do
    when o.observes_delete (send (observe_deleted d))
    count count_deleted
    pure (ok tt)

  abbrev pub delete_found : Result Document → Prog (Result (Unit {0}))
  delete_found (err e) = pure (ok tt)
  delete_found (ok d) = do
    when o.has_vectors (send (delete_embeddings (d.id ∷ [])))
    when o.has_engine (send (delete_chunks (d.id ∷ [])))
    r ← λ w. on_documents w (delete_document (env.down w.calls) d.id w.documents)
    finish_delete d r

  unfoldable pub process_delete : Change → Prog (Result (Unit {0}))
  process_delete c = do r ← get_external c.external_id; delete_found r

  abbrev pub excludes : SyncExclusionSettings → Bytes → Bool
  excludes s path = has_patterns s && matches_exclusion_pattern path (get_active_patterns s)

  abbrev pub excluded_by : Result Settings → Bytes → Bool
  excluded_by (err e) path = false
  excluded_by (ok s) path = elim s.sync_exclusions [ none ↦ false | some x ↦ excludes x path ]

  unfoldable pub should_exclude : Document → Prog Bool
  should_exclude d w = (excluded_by (env.settings w.calls) d.path, record w { calls = suc w.calls })

  abbrev pub count_indexed : Bool → ℕ → SyncStats → SyncStats
  count_indexed true n s = record s {
    documents_updated = suc s.documents_updated;
    chunks_indexed = s.chunks_indexed + n;
  }
  count_indexed false n s = record s {
    documents_added = suc s.documents_added;
    chunks_indexed = s.chunks_indexed + n;
  }

  abbrev pub finish_save : Document → Bool → ℕ → Result (Unit {0}) → Prog (Result (Unit {0}))
  finish_save d is_update n (err e) = pure (err e)
  finish_save d is_update n (ok _) = do
    when o.observes_ingest (send (observe_ingested d))
    count (count_indexed is_update n)
    pure (ok tt)

  abbrev pub save_indexed : Document → Bool → Result ℕ → Prog (Result (Unit {0}))
  save_indexed d is_update (err e) = pure (err e)
  save_indexed d is_update (ok n) = do
    r ← λ w. on_documents w (save_document (env.down w.calls) d w.documents)
    finish_save d is_update n r

  unfoldable pub process_with_pipeline : Document → String → Bool → Prog (Result (Unit {0}))
  process_with_pipeline d content is_update = do
    k ← call
    save_indexed d is_update (env.run_pipeline k d content)

  -- The fields that the orchestrator fills in, by the document that was there.
  abbrev pub completed : ℕ → String → String → Document → Result Document → Document
  completed now external_id id d (err e) = record d {
    id = if str_eq d.id "" then id else d.id;
    source_id = source.id;
    external_id = external_id;
    updated_at = now;
    indexed_at = now;
    created_at = now;
  }
  completed now external_id id d (ok old) = record d {
    id = old.id;
    source_id = source.id;
    external_id = external_id;
    updated_at = now;
    indexed_at = now;
    created_at = old.created_at;
  }

  abbrev pub is_there : Result Document → Bool
  is_there (ok _) = true
  is_there (err _) = false

  abbrev pub index_unless : Bool → Document → String → Bool → Prog (Result (Unit {0}))
  index_unless true d content is_update = pure (ok tt)
  index_unless false d content is_update =
      process_with_pipeline d (env.normalise d.mime_type content) is_update

  abbrev pub index_loaded : Change → Option Document → Result String → Prog (Result (Unit {0}))
  index_loaded c d (err e) = pure (err e)
  index_loaded c none (ok content) = pure (err internal)
  index_loaded c (some d) (ok content) = do
    old ← get_external c.external_id
    k ← call
    let d' = completed (env.clock k) c.external_id (env.new_id k) d old
    x ← should_exclude d'
    index_unless x d' content (is_there old)

  abbrev pub loaded : Change → ℕ → Option (ℕ → Result String) → Result String
  loaded c k none = ok c.content
  loaded c k (some load) = load k

  unfoldable pub process_add_or_update : Change → Prog (Result (Unit {0}))
  process_add_or_update c = do k ← call; index_loaded c c.document (loaded c k c.load_content)

  abbrev pub process_type : ChangeType → Change → Prog (Result (Unit {0}))
  process_type deleted c = process_delete c
  process_type added c = process_add_or_update c
  process_type modified c = process_add_or_update c
  process_type (unknown _) c = pure (err internal)

  unfoldable pub process_change : Change → Prog (Result (Unit {0}))
  process_change c = process_type c.type c
