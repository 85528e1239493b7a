-- ===== src/Sync/States.antt =====
-- The states of the sources: adapters/driven/postgres/sync_state_store.go, and what
-- core/services/sync.go does to them before and after a run. A call that fails comes back with the
-- error `sync_failed`, and with no other does Go return an error beside the result.
use sercha_core.Base.{
  suc, String, Bool, true, false, not, Option, none, some, List, [], ◌∷◌, lookup, put, Table,
  Result, ok, err, internal, Error, if◌then◌else◌,
}
use sercha_core.Sync.Domain.{
  SyncState, SyncError, SyncResult, Source, Settings, no_stats, idle_state, running, failed,
  no_error, sync_disabled, cancelled, sync_failed,
}
use sercha_core.Sync.World.{Env, Orchestrator, SyncEvent, Prog, ◌>>=◌, ◌>>◌, pure, when, call}

-- SyncStateStore: a source without a row has the idle state. The ID is the key of the row.
abbrev pub state_or_idle : String → Option SyncState → SyncState
state_or_idle id none = idle_state id
state_or_idle id (some s) = record s { source_id = id }

unfoldable pub get_state : Bool → String → Table SyncState → Result SyncState
get_state down id states = if down then err internal else ok (state_or_idle id (lookup id states))

unfoldable pub save_state : Bool → SyncState → Table SyncState → Table SyncState
save_state down s states = if down then states else put s.source_id s states

abbrev pub skipped_result : String → SyncResult
skipped_result id = record {
  source_id = id;
  success = true;
  skipped = true;
  stats = no_stats;
  error = no_error;
  cursor = "";
}

abbrev pub failed_result : String → SyncError → SyncResult
failed_result id e = record {
  source_id = id;
  success = false;
  skipped = false;
  stats = no_stats;
  error = e;
  cursor = "";
}

module _ (o : Orchestrator) (env : Env) where
  -- acquireSourceLock: where the lock fails, the synchronisation runs without it.
  abbrev pub acquired_by : Result Bool → Bool
  acquired_by (err e) = true
  acquired_by (ok b) = b

  unfoldable pub acquire_source_lock : Prog Bool
  acquire_source_lock w =
      if not o.has_lock
      then (true, w)
      else (acquired_by (env.lock w.calls), record w { calls = suc w.calls })

  unfoldable pub load_state : String → Prog (Result SyncState)
  load_state id w = (get_state (env.down w.calls) id w.states, record w { calls = suc w.calls })

  unfoldable pub store_state : SyncState → Prog (Unit {0})
  store_state s w =
      (tt, record w { calls = suc w.calls; states = save_state (env.down w.calls) s w.states })

  unfoldable pub save_event : SyncEvent → Prog (Unit {0})
  save_event e w = (
    tt,
    record w { calls = suc w.calls; events = if env.down w.calls then w.events else e ∷ w.events },
  )

  abbrev pub store_failed : Error → Result SyncState → Prog (Unit {0})
  store_failed e (err _) = pure tt
  store_failed e (ok s) = do
    k ← call
    store_state
        (record s { status = failed; completed_at = some (env.clock k); error = sync_failed e })

  abbrev pub save_failed : String → Error → Result Source → Prog (Unit {0})
  save_failed id e (err _) = pure tt
  save_failed id e (ok source) = save_event (record {
    source_id = id;
    source_name = source.name;
    status = failed;
    stats = no_stats;
    error = sync_failed e;
  })

  unfoldable pub fail_sync : String → Error → Prog (Option SyncResult)
  fail_sync id e = do
    s ← load_state id
    store_failed e s
    when o.has_events do k ← call; save_failed id e (env.get_source k id)
    pure (some (failed_result id (sync_failed e)))

  abbrev pub is_switched_off : Result Settings → Bool
  is_switched_off (err e) = false
  is_switched_off (ok s) = not s.sync_enabled

  abbrev pub state_of : String → Result SyncState → SyncState
  state_of id (err e) = idle_state id
  state_of id (ok s) = s

  -- The state at the start, which is saved as running.
  unfoldable pub start : String → Prog SyncState
  start id = do
    r ← load_state id
    k ← call
    let s : SyncState = record (state_of id r) {
      status = running;
      started_at = some (env.clock k);
      error = no_error;
    }
    store_state s
    pure s

  -- A program for an enabled source.
  abbrev pub with_source :
      (Source → Prog (Option SyncResult)) → String → Result Source → Prog (Option SyncResult)
  with_source run id (err e) = fail_sync id e
  with_source run id (ok source) = if source.enabled then run source else fail_sync id internal

  abbrev pub unless_off : Prog (Option SyncResult) → String → Bool → Prog (Option SyncResult)
  unless_off m id true = pure (some (failed_result id sync_disabled))
  unless_off m id false = m

  abbrev pub if_acquired : Prog (Option SyncResult) → String → Bool → Prog (Option SyncResult)
  if_acquired m id true = m
  if_acquired m id false = pure (some (skipped_result id))

  -- The settings and the source, which both entry points ask for first.
  unfoldable pub when_enabled :
      (Source → Prog (Option SyncResult)) → String → Prog (Option SyncResult)
  when_enabled run id = do
    k ← call
    unless_off (do k' ← call; with_source run id (env.get_source k' id)) id
        (is_switched_off (env.settings k))

  unfoldable pub guarded : (Source → Prog (Option SyncResult)) → String → Prog (Option SyncResult)
  guarded run id = do acquired ← acquire_source_lock; if_acquired (when_enabled run id) id acquired

  -- GetSyncState
  abbrev pub state_of_source : Result Source → String → Prog (Result SyncState)
  state_of_source (err e) id = pure (err e)
  state_of_source (ok _) id = load_state id

  unfoldable pub get_sync_state : String → Prog (Result SyncState)
  get_sync_state id = do k ← call; state_of_source (env.get_source k id) id

  abbrev pub cancel : Result SyncState → Prog (Result (Unit {0}))
  cancel (err e) = pure (err e)
  cancel (ok s) = elim s.status [
    | running ↦ λ w. (
      if env.down (suc w.calls) then err internal else ok tt,
      (store_state
          (record s { status = failed; completed_at = some (env.clock w.calls); error = cancelled })
          (record w { calls = suc w.calls })).1,
    )
    | _ ↦ pure (ok tt)
  ]

  unfoldable pub cancel_sync : String → Prog (Result (Unit {0}))
  cancel_sync id = do r ← load_state id; cancel r

  -- ListSyncStates: a source whose state cannot be read has the idle state, with the error.
  abbrev pub listed : String → Result SyncState → SyncState
  listed id (ok s) = s
  listed id (err e) = record (idle_state id) { error = sync_failed e }

  unfoldable pub states_of : List Source → Prog (List SyncState)
  states_of [] = pure []
  states_of (source ∷ sources) = do
    r ← get_sync_state source.id
    rest ← states_of sources
    pure (listed source.id r ∷ rest)

  abbrev pub states_listed : Result (List Source) → Prog (Result (List SyncState))
  states_listed (err e) = pure (err e)
  states_listed (ok sources) = do states ← states_of sources; pure (ok states)

  unfoldable pub list_sync_states : Prog (Result (List SyncState))
  list_sync_states = do k ← call; states_listed (env.list_sources k)
