-- ===== src/Sync/Sources.antt =====
-- SyncSource, SyncContainer (here sync_only_container) and SyncAll of core/services/sync.go.
pub mod Agreement
pub mod Idle
use sercha_core.Base.{
  ℕ, suc, ◌+◌, String, Bool, true, false, not, ◌&&◌, ◌||◌, Option, none, some, List, [], ◌∷◌, ◌++◌,
  map, length, ◌==◌, ltb, str_eq, lookup, put, Table, Result, ok, err, internal, not_found, Error,
  if◌then◌else◌,
}
use sercha_core.Sync.Domain.{
  SyncStatus, SyncStats, SyncState, SyncError, SyncResult, Document, Source, Settings, no_stats,
  idle_state, idle, running, completed, failed, no_error, sync_disabled, cancelled, sync_failed,
  all_containers_failed, partial_failure,
}
use sercha_core.Sync.Documents.{get_by_source}
use sercha_core.Sync.World.{
  World, Env, Orchestrator, SyncEvent, Prog, ◌>>=◌, ◌>>◌, after, pure, when, call, send,
  clear_source, delete_embeddings,
}
use sercha_core.Sync.Pages.{sync_container, Outcome}
use sercha_core.Sync.States.{
  acquire_source_lock, acquired_by, cancel, cancel_sync, fail_sync, failed_result, get_state,
  get_sync_state, guarded, if_acquired, is_switched_off, load_state, save_event, save_failed,
  save_state, skipped_result, start, state_of, state_of_source, state_or_idle, store_failed,
  store_state, unless_off, when_enabled, with_source,
}

unfoldable pub add_stats : SyncStats → SyncStats → SyncStats
add_stats a b = record {
  documents_added = a.documents_added + b.documents_added;
  documents_updated = a.documents_updated + b.documents_updated;
  documents_deleted = a.documents_deleted + b.documents_deleted;
  chunks_indexed = a.chunks_indexed + b.chunks_indexed;
  errors = a.errors + b.errors;
}

-- What the loop over the containers has added up.
pub record Totals : Type 0 where
  pub stats : SyncStats
  pub last_cursor : String
  pub sync_errors : List (String × Error)

abbrev pub no_totals : Totals
no_totals = record { stats = no_stats; last_cursor = ""; sync_errors = [] }

unfoldable pub status_of : List String → List (String × Error) → SyncStatus
status_of ids errors =
    if ltb 0 (length errors) && length errors == length ids then failed else completed

unfoldable pub error_of : List String → List (String × Error) → SyncError
error_of ids errors =
    if ltb 0 (length errors) && length errors == length ids
    then all_containers_failed errors
    else if ltb 0 (length errors)
    then partial_failure errors
    else no_error

abbrev pub is_clean : SyncError → Bool
is_clean no_error = true
is_clean sync_disabled = false
is_clean cancelled = false
is_clean (sync_failed _) = false
is_clean (all_containers_failed _) = false
is_clean (partial_failure _) = false

abbrev pub is_completed : SyncStatus → Bool
is_completed completed = true
is_completed idle = false
is_completed running = false
is_completed failed = false

module _ (o : Orchestrator) (env : Env) where
  abbrev pub default_ids : List String → List String
  default_ids [] = "" ∷ []
  default_ids (c ∷ cs) = c ∷ cs

  abbrev pub ids_or_default : Source → Option (List String) → List String
  ids_or_default source none = default_ids source.containers
  ids_or_default source (some ids) = ids

  abbrev pub resolved_ids : Source → Result (Option (List String)) → Result (List String)
  resolved_ids source (err e) = err e
  resolved_ids source (ok ids) = ok (ids_or_default source ids)

  unfoldable pub container_ids : Source → Prog (Result (List String))
  container_ids source w =
      if o.has_resolver source.provider_type
      then (
        resolved_ids source (env.resolve_containers w.calls source),
        record w { calls = suc w.calls },
      )
      else (ok (ids_or_default source none), w)

  abbrev pub delete_listed : List Document → Prog (Unit {0})
  delete_listed [] = pure tt
  delete_listed (d ∷ ds) = send (delete_embeddings (d.id ∷ map (λ (e : Document). e.id) ds))

  abbrev pub delete_all : Result (List Document) → Prog (Unit {0})
  delete_all (err e) = pure tt
  delete_all (ok ds) = delete_listed ds

  -- What a full synchronisation clears first.
  unfoldable pub clear_indexed : Source → Prog (Unit {0})
  clear_indexed source = do
    when o.has_engine (send (clear_source source.id))
    when o.has_vectors λ w.
        delete_all (get_by_source (env.down w.calls) source.id 10_000 0 w.documents)
          (record w { calls = suc w.calls })

  abbrev pub add_container : String → Totals → Result String → World → Totals
  add_container id t (err e) w = record t {
    stats = record t.stats { errors = suc t.stats.errors };
    sync_errors = t.sync_errors ++ ((id, e) ∷ []);
  }
  add_container id t (ok cursor) w = record t {
    stats = add_stats t.stats w.stats;
    last_cursor = if str_eq cursor "" then t.last_cursor else cursor;
  }

  -- What the rest of the loop makes of the outcome of a container.
  abbrev pub go_on :
      String → Totals → (Totals → Prog (Option Totals)) → Outcome → Prog (Option Totals)
  go_on id t rest none w = (none, w)
  go_on id t rest (some r) w = rest (add_container id t r w) w

  unfoldable pub sync_containers : ℕ → Source → String → List String → Totals → Prog (Option Totals)
  sync_containers fuel source cursor [] t = pure (some t)
  sync_containers fuel source cursor (id ∷ ids) t =
      let rest = sync_containers fuel source cursor ids in
      do r ← sync_container o env source fuel cursor id; go_on id t rest r

  abbrev pub event_of : String → Source → SyncState → Totals → SyncEvent
  event_of id source s t = record {
    source_id = id;
    source_name = source.name;
    status = s.status;
    stats = t.stats;
    error = s.error;
  }

  abbrev pub final_state : ℕ → List String → SyncState → Totals → SyncState
  final_state now ids s t = record s {
    status = status_of ids t.sync_errors;
    error = error_of ids t.sync_errors;
    last_sync_at = some now;
    completed_at = some now;
    cursor = t.last_cursor;
    stats = t.stats;
  }

  unfoldable pub finish :
      String → Source → List String → SyncState → Option Totals → Prog (Option SyncResult)
  finish id source ids s none = pure none
  finish id source ids s (some t) = do
    k ← call
    let s' = final_state (env.clock k) ids s t
    store_state o env s'
    when o.has_events (save_event o env (event_of id source s' t))
    pure (
        some (record {
          source_id = id;
          success = is_completed s'.status && is_clean s'.error;
          skipped = false;
          stats = t.stats;
          error = s'.error;
          cursor = t.last_cursor;
        }))

  abbrev pub sync_resolved :
      ℕ → Source → String → SyncState → Result (List String) → Prog (Option SyncResult)
  sync_resolved fuel source id s (err e) = fail_sync o env id e
  sync_resolved fuel source id s (ok ids) = do
    λ w. (tt, record w { processed = [] })
    when (str_eq s.cursor "") (clear_indexed source)
    t ← sync_containers fuel source s.cursor ids no_totals
    finish id source ids s t

  abbrev pub sync_started : ℕ → Source → String → Prog (Option SyncResult)
  sync_started fuel source id = do
    s ← start o env id
    ids ← container_ids source
    sync_resolved fuel source id s ids

  unfoldable pub sync_source : ℕ → String → Prog (Option SyncResult)
  sync_source fuel id = guarded o env (λ source. sync_started fuel source id) id

  unfoldable pub finish_only : String → SyncState → Outcome → Prog (Option SyncResult)
  finish_only id s none = pure none
  finish_only id s (some (err e)) = fail_sync o env id e
  finish_only id s (some (ok cursor)) = do
    k ← call
    store_state o env (record s {
      status = completed;
      error = no_error;
      last_sync_at = some (env.clock k);
      completed_at = some (env.clock k);
      cursor = cursor;
    })
    λ w. (
      some (record {
        source_id = id;
        success = true;
        skipped = false;
        stats = w.stats;
        error = no_error;
        cursor = cursor;
      }),
      w,
    )

  unfoldable pub sync_only_container : ℕ → String → String → Prog (Option SyncResult)
  sync_only_container fuel id container_id =
      guarded o env
        (λ source. do
          s ← start o env id
          λ w. (tt, record w { processed = [] })
          r ← sync_container o env source fuel s.cursor container_id
          finish_only id s r)
        id

  abbrev pub add_result : Option SyncResult → Option (List SyncResult) → Option (List SyncResult)
  add_result none rs = none
  add_result (some r) none = none
  add_result (some r) (some rs) = some (r ∷ rs)

  unfoldable pub sync_each : ℕ → List Source → Prog (Option (List SyncResult))
  sync_each fuel [] = pure (some [])
  sync_each fuel (source ∷ sources) =
      let rest = sync_each fuel sources in
      if source.enabled
      then (do r ← sync_source fuel source.id; rs ← rest; pure (add_result r rs))
      else rest

  abbrev pub each_of : ℕ → Result (List Source) → Prog (Result (Option (List SyncResult)))
  each_of fuel (err e) = pure (err e)
  each_of fuel (ok sources) = do rs ← sync_each fuel sources; pure (ok rs)

  unfoldable pub sync_all : ℕ → Prog (Result (Option (List SyncResult)))
  sync_all fuel = do k ← call; each_of fuel (env.list_sources k)
