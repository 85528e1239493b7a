-- ===== src/Sync/Tests.antt =====
-- Sources at which the theorems about core/services/sync.go apply.
use Prim.Native.Nat.{min}
use sercha_core.Base.{
  ◌+◌, ◌*◌, ◌^◌, String, true, false, ◌≡◌, ◌⊎◌, refl, none, some, [], ◌∷◌, ok, err, internal,
  lookup, put, remove, contains, str_eq, arith, if◌then◌else◌,
}
use sercha_core.Sync.Domain.{Document, Change, ChangeType, Source, no_stats, idle_state}
use sercha_core.Sync.Ledger.{RetryBackoff, compute_backoff_delay, list_ready_for_retry, ready_rows}
use sercha_core.Sync.Ledger.Delays.{compute_backoff_delay-min}
use sercha_core.Sync.World.{World, Env, Orchestrator, Connector, clear_source, delete_embeddings}
use sercha_core.Sync.Documents.{
  list_external_ids, external_ids, delete_document, get_by_external_id, find_external,
  save_document, get_by_source, of_source, insert_created,
}
use sercha_core.Sync.Documents.Distinct.{Distinct}
use sercha_core.Sync.Containers.Deletions.{Missing}
use sercha_core.Sync.Containers.Reconcile.{reconcile_deletions-Kept}
use sercha_core.Sync.Changes.{
  process_delete, get_external, process_change, process_add_or_update, should_exclude,
  process_with_pipeline,
}
use sercha_core.Sync.Containers.{
  record_document_failure, clear_document_failure, reconcile_deletions, reconcile_scopes, in_scope,
  delete_missing, retry_failed_documents, retry_rows,
}
use sercha_core.Sync.Pages.{
  update_container, sync_container, fetch_pages, unprocessed, process_page, update_ids,
  cleanup_old_chunks_batch, mark_all, fan_out, process_one,
}
use sercha_core.Sync.Pages.Accounts.{HasLedger, Accounted}
use sercha_core.Sync.Pages.Retries.{update_container-Accounted}
use sercha_core.Sync.States.{
  guarded, when_enabled, acquire_source_lock, start, load_state, get_state, store_state, save_state,
  save_event,
}
use sercha_core.Sync.Sources.{
  sync_source, container_ids, clear_indexed, sync_containers, finish, status_of, error_of,
  add_stats,
}
use sercha_core.Sync.Sources.Agreement.{Agrees, sync_source-Agrees}
use sercha_core.Sync.Sources.Idle.{IsIdle, Forgets, sync_source-Forgets}

abbrev five_minutes : RetryBackoff
five_minutes = record { base = 300_000_000_000; max = 86_400_000_000_000; max_attempts = 10 }

compute_backoff_delay-min_example :
    compute_backoff_delay 4 five_minutes ≡ min (300_000_000_000 * 2 ^ 3) 86_400_000_000_000
compute_backoff_delay-min_example =
    compute_backoff_delay-min 3 five_minutes (omega arith) (omega arith)

abbrev wiki : Source
wiki = record {
  id = "wiki";
  name = "Wiki";
  provider_type = "notion";
  enabled = true;
  containers = [];
}

abbrev titled : String → Document
titled title = record {
  id = "";
  source_id = "";
  external_id = "";
  path = [];
  title = title;
  mime_type = "text/plain";
  created_at = 0;
  updated_at = 0;
  indexed_at = 0;
}

abbrev change : String → String → Change
change id title = record {
  type = ChangeType.added;
  document = some (titled title);
  content = "text";
  load_content = none;
  external_id = id;
}

-- One page of two changes, and then no more.
abbrev two_changes : Connector
two_changes = record {
  test_connection = λ k. ok tt;
  fetch_changes = λ k cursor.
      if str_eq cursor ""
      then ok (change "good" "good" ∷ (change "bad" "bad" ∷ []), "c1")
      else ok ([], "c1");
  fetch_document = λ k id. err internal;
  reconciliation_scopes = [];
  inventory = λ k scope. ok [];
}

abbrev quiet : Connector
quiet = record two_changes { fetch_changes = λ k cursor. ok ([], "c1") }

-- The pipeline fails for the title "bad".
abbrev working : Env
working = record {
  down = λ k. false;
  ledger_down = λ k. false;
  text = λ e. "failed";
  clock = λ k. 1000 + k;
  new_id = λ k. "new";
  settings = λ k. ok (record { sync_enabled = true; sync_exclusions = none });
  get_source = λ k id. ok wiki;
  list_sources = λ k. ok (wiki ∷ []);
  lock = λ k. ok true;
  resolve_containers = λ k s. ok none;
  connect = λ k id. ok two_changes;
  normalise = λ mime content. content;
  run_pipeline = λ k d content. if str_eq d.title "bad" then err internal else ok 3;
  is_cancelled = λ k. false;
}

abbrev unchanged : Env
unchanged = record working { connect = λ k id. ok quiet }

abbrev wired : Orchestrator
wired = record {
  has_lock = false;
  has_engine = true;
  has_vectors = true;
  has_ledger = true;
  has_events = true;
  has_resolver = λ p. false;
  observes_ingest = false;
  observes_delete = false;
  backoff = five_minutes;
  retry_batch = 50;
}

abbrev fresh : World
fresh = record {
  calls = 0;
  documents = [];
  failed = [];
  states = [];
  events = [];
  requests = [];
  outcomes = [];
  processed = [];
  stats = no_stats;
}

abbrev wiki_has_ledger : HasLedger wired working wiki
wiki_has_ledger = record { wired = refl; valid = refl; named = refl; is_up = λ k. refl }

-- The failed change is marked, and is in the ledger.
bad_is_marked :
    contains (update_container wired working wiki 3 two_changes "" fresh).1.processed "bad" ≡ true
unfolding update_container retry_failed_documents list_ready_for_retry ready_rows retry_rows
    fetch_pages unprocessed contains process_page update_ids cleanup_old_chunks_batch mark_all
    fan_out process_one process_change process_add_or_update get_external get_by_external_id
    find_external should_exclude process_with_pipeline save_document put remove lookup
    record_document_failure clear_document_failure
bad_is_marked = refl

update_container-Accounted_example :
    (contains [] "bad" ≡ true)
    ⊎ Accounted wiki "bad" (update_container wired working wiki 3 two_changes "" fresh).1
update_container-Accounted_example =
    update_container-Accounted wired working wiki 3 two_changes "" "bad" fresh wiki_has_ledger refl
      bad_is_marked

sync_source-Agrees_example : Agrees "wiki" fresh (sync_source wired working 3 "wiki" fresh)
sync_source-Agrees_example = sync_source-Agrees wired working 3 "wiki" fresh (λ k. refl)

-- What an earlier run left: a cursor, and a document that is indexed.
abbrev later : World
later = record fresh {
  states = ("wiki", record (idle_state "wiki") { cursor = "c1" }) ∷ [];
  documents =
      ("d1", record (titled "old") { id = "d1"; source_id = "wiki"; external_id = "e1" }) ∷ [];
}

-- The orchestrator with a lock and a resolver, as the command sets it up.
abbrev locking : Orchestrator
locking = record wired { has_lock = true; has_resolver = λ p. true }

abbrev wiki_idle : IsIdle locking unchanged "wiki" wiki quiet "c1"
wiki_idle = record {
  acquires = λ k. refl;
  switched_on = λ k. refl;
  there = λ k. refl;
  enabled = refl;
  containers = none;
  resolves = λ k. refl;
  connected = λ k id. refl;
  tested = λ k. refl;
  nothing_new = λ k cursor. refl;
  runs_on = λ k. refl;
  is_up = λ k. refl;
}

sync_source-Forgets_example : Forgets "wiki" (sync_source locking unchanged 1 "wiki" later).1
sync_source-Forgets_example =
    sync_source-Forgets locking unchanged "wiki" wiki quiet "c1" 0 later wiki_idle

-- After an idle run the next one clears what is indexed, though there are still no changes.
second_run_clears :
    (sync_source wired unchanged 1 "wiki" (sync_source wired unchanged 1 "wiki" later).1).1.requests
    ≡ delete_embeddings ("d1" ∷ []) ∷ (clear_source "wiki" ∷ [])
unfolding sync_source guarded when_enabled acquire_source_lock start load_state get_state
    store_state save_state container_ids clear_indexed get_by_source of_source insert_created
    sync_containers sync_container update_container reconcile_deletions retry_failed_documents
    list_ready_for_retry ready_rows retry_rows fetch_pages finish save_event status_of error_of
    add_stats put remove lookup
second_run_clears = refl

-- Without a ledger the cursor moves past a page that failed, once a later page succeeds.
abbrev two_pages : Connector
two_pages = record two_changes {
  fetch_changes = λ k cursor.
      if str_eq cursor ""
      then ok (change "bad" "bad" ∷ [], "p1")
      else if str_eq cursor "p1"
      then ok (change "good" "good" ∷ [], "p2")
      else ok ([], "p2");
}

failed_page_passed :
    (update_container (record wired { has_ledger = false }) working wiki 3 two_pages "" fresh).0
    ≡ some (ok "p2")
unfolding update_container retry_failed_documents fetch_pages unprocessed contains process_page
    update_ids cleanup_old_chunks_batch mark_all fan_out process_one process_change
    process_add_or_update get_external get_by_external_id find_external should_exclude
    process_with_pipeline save_document put remove lookup record_document_failure
    clear_document_failure
failed_page_passed = refl

abbrev listing : Connector
listing = record quiet { reconciliation_scopes = "e" ∷ []; inventory = λ k scope. ok ("e2" ∷ []) }

abbrev old_document : Document
old_document = record (titled "old") { id = "d1"; source_id = "wiki"; external_id = "e1" }

reconcile_deletions-Kept_example :
    let w' = (reconcile_deletions wired working wiki listing later).1 in
    Distinct w'.documents
    × ((lookup "d1" w'.documents ≡ some old_document)
        ⊎ ((old_document.source_id ≡ wiki.id) × Missing listing "e1"))
unfolding lookup
reconcile_deletions-Kept_example =
    reconcile_deletions-Kept wired working wiki listing later "d1" old_document (refl, (refl, tt))
      refl

e1_is_deleted : (reconcile_deletions wired working wiki listing later).1.documents ≡ []
unfolding reconcile_deletions list_external_ids external_ids reconcile_scopes in_scope
    delete_missing contains process_change process_delete get_external get_by_external_id
    find_external delete_document lookup remove
e1_is_deleted = refl
