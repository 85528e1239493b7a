-- ===== src/Sync/Sources/Agreement.antt =====
-- The result of SyncSource in core/services/sync.go against the state that it saves.
use sercha_core.Base.{
  ℕ, suc, String, Bool, true, false, ◌&&◌, ◌≡◌, ◌⊎◌, ◌∙◌, refl, ap, internal, inl, inr, Option,
  none, some, List, Result, ok, err, Error, lookup, lookup-put, eq_iff, arith, if◌then◌else◌,
}
use sercha_core.Sync.Domain.{
  SyncStatus, SyncState, SyncResult, Source, completed, failed, sync_disabled, sync_failed,
}
use sercha_core.Sync.World.{World, Env, Orchestrator, Prog, SyncEvent, when, call, ◌>>=◌}
use sercha_core.Sync.States.{
  get_state, save_state, load_state, store_state, save_event, save_failed, fail_sync, store_failed,
  start, with_source, unless_off, if_acquired, guarded, when_enabled, acquire_source_lock,
  is_switched_off, state_or_idle, state_of,
}
use sercha_core.Sync.Sources.{
  Totals, finish, container_ids, sync_resolved, sync_started, sync_source, status_of, is_clean,
  is_completed, final_state, event_of,
}

-- The run was skipped or switched off and saved nothing, or the saved state has the result's error, and
-- is failed or completed; a successful result is that of a completed state with the same cursor and
-- statistics.
abbrev pub Saved : String → SyncResult → World → Type 0
Saved id r w =
    (s : SyncState) × (lookup id w.states ≡ some s)
    × (s.error ≡ r.error)
    × ((s.status ≡ completed) ⊎ (s.status ≡ failed))
    × ((r.success ≡ false) ⊎ ((s.status ≡ completed) × (s.cursor ≡ r.cursor) × (s.stats ≡ r.stats)))

abbrev pub Untouched : SyncResult → World → World → Type 0
Untouched r w w' = (w'.states ≡ w.states) × ((r.skipped ≡ true) ⊎ (r.error ≡ sync_disabled))

abbrev pub Agrees : String → World → Option SyncResult × World → Type 0
Agrees id w (none, w') = Unit
Agrees id w (some r, w') = Untouched r w w' ⊎ Saved id r w'

module _ (o : Orchestrator) (env : Env) (up : (k : ℕ) → env.down k ≡ false) where
  pub stored_state :
      (s : SyncState) (id : String) (w : World)
      → s.source_id ≡ id
      → lookup id (store_state o env s w).1.states ≡ some s
  unfolding store_state save_state
  stored_state s id w e =
      ground (arith, up w.calls, lookup-put s.source_id id s w.states, eq_iff s.source_id id)

  failed_event_states :
      (b : Bool) (id : String) (e : Error) (w : World)
      → (when b (call >>= λ k. save_failed o env id e (env.get_source k id)) w).1.states ≡ w.states
  unfolding save_event
  failed_event_states b id e w = ground arith

  pub event_states :
      (b : Bool) (e : SyncEvent) (w : World) → (when b (save_event o env e) w).1.states ≡ w.states
  unfolding save_event
  event_states b e w = ground arith

  read_state :
      (id : String) (w : World)
      → get_state (env.down w.calls) id w.states ≡ ok (state_or_idle id (lookup id w.states))
  unfolding get_state
  read_state id w = rw (up w.calls)

  named_state : (id : String) (x : Option SyncState) → (state_or_idle id x).source_id ≡ id
  named_state id none = refl
  named_state id (some s) = refl

  abbrev failed_state : Error → ℕ → SyncState → SyncState
  failed_state e now s = record s {
    status = failed;
    completed_at = some now;
    error = sync_failed e;
  }

  store_failed_lem :
      (id : String) (e : Error) (s : SyncState) (w : World)
      → s.source_id ≡ id
      → lookup id (store_failed o env e (ok s) w).1.states
        ≡ some (failed_state e (env.clock w.calls) s)
  store_failed_lem id e s w named =
      stored_state (failed_state e (env.clock w.calls) s) id (record w { calls = suc w.calls })
        named

  fail_sync-Agrees :
      (id : String) (e : Error) (w w' : World) → Agrees id w (fail_sync o env id e w')
  unfolding fail_sync load_state
  fail_sync-Agrees id e w w' =
      let s = state_or_idle id (lookup id w'.states) in
      let w1 : World = record w' { calls = suc w'.calls } in
      let row : lookup id
            (store_failed o env e (get_state (env.down w'.calls) id w'.states) w1).1.states
          ≡ some (failed_state e (env.clock w1.calls) s) =
        ap (λ (r : Result SyncState). lookup id (store_failed o env e r w1).1.states)
          (read_state id w')
        ∙ store_failed_lem id e s w1 (named_state id (lookup id w'.states)) in
      inr (
        failed_state e (env.clock w1.calls) s,
        ap (lookup id) (
              failed_event_states o.has_events id e
                (store_failed o env e (get_state (env.down w'.calls) id w'.states) w1).1)
            ∙ row,
        refl,
        inr refl,
        inl refl,
      )

  pub start_named : (id : String) (w : World) → (start o env id w).0.source_id ≡ id
  unfolding start load_state
  start_named id w =
      ap (λ (r : Result SyncState). (state_of o env id r).source_id) (read_state id w)
      ∙ named_state id (lookup id w.states)

  status_cases :
      (ids : List String) (es : List (String × Error))
      → (status_of ids es ≡ completed) ⊎ (status_of ids es ≡ failed)
  unfolding status_of
  status_cases ids es = ground arith

  success_cases : (t : SyncStatus) (b : Bool) → ((is_completed t && b) ≡ false) ⊎ (t ≡ completed)
  success_cases t b = ground arith

  finish-Agrees :
      (id : String) (source : Source) (ids : List String) (s : SyncState) (t : Option Totals)
      (w w' : World)
      → s.source_id ≡ id
      → Agrees id w (finish o env id source ids s t w')
  unfolding finish
  finish-Agrees id source ids s none w w' named = tt
  finish-Agrees id source ids s (some t) w w' named =
      let s' = final_state o env (env.clock w'.calls) ids s t in
      let w1 : World = record w' { calls = suc w'.calls } in
      inr (
        s',
        ap (lookup id) (
              event_states o.has_events (event_of o env id source s' t) (store_state o env s' w1).1)
            ∙ stored_state s' id w1 named,
        refl,
        status_cases ids t.sync_errors,
        elim (success_cases (status_of ids t.sync_errors) (is_clean s'.error)) [
          | inl failure ↦ inl failure
          | inr success ↦ inr (success, refl, refl)
        ],
      )

  sync_resolved-Agrees :
      (fuel : ℕ) (source : Source) (id : String) (s : SyncState) (r : Result (List String))
      (w w' : World)
      → s.source_id ≡ id
      → Agrees id w (sync_resolved o env fuel source id s r w')
  sync_resolved-Agrees fuel source id s (err e) w w' named = fail_sync-Agrees id e w w'
  sync_resolved-Agrees fuel source id s (ok ids) w w' named =
      finish-Agrees id source ids s _ w _ named

  if-Agrees :
      (b : Bool) (f g : Prog (Option SyncResult)) (id : String) (w w' : World)
      → Agrees id w (f w')
      → Agrees id w (g w')
      → Agrees id w ((if b then f else g) w')
  if-Agrees true f g id w w' h k = h
  if-Agrees false f g id w w' h k = k

  started-Agrees :
      (fuel : ℕ) (source : Source) (id : String) (w w' : World)
      → Agrees id w (sync_started o env fuel source id w')
  started-Agrees fuel source id w w' =
      let p = start o env id w' in
      let q = container_ids o env source p.1 in
      sync_resolved-Agrees fuel source id p.0 q.0 w q.1 (start_named id w')

  with_source-Agrees :
      (fuel : ℕ) (id : String) (r : Result Source) (w w' : World)
      → Agrees id w (with_source o env (λ source. sync_started o env fuel source id) id r w')
  with_source-Agrees fuel id (err e) w w' = fail_sync-Agrees id e w w'
  with_source-Agrees fuel id (ok source) w w' =
      if-Agrees source.enabled (sync_started o env fuel source id) (fail_sync o env id internal) id
        w w' (started-Agrees fuel source id w w') (fail_sync-Agrees id internal w w')

  unless_off-Agrees :
      (off : Bool) (m : Prog (Option SyncResult)) (id : String) (w w' : World)
      → w'.states ≡ w.states
      → Agrees id w (m w')
      → Agrees id w (unless_off o env m id off w')
  unless_off-Agrees true m id w w' same h = inl (same, inr refl)
  unless_off-Agrees false m id w w' same h = h

  if_acquired-Agrees :
      (acquired : Bool) (m : Prog (Option SyncResult)) (id : String) (w w' : World)
      → w'.states ≡ w.states
      → Agrees id w (m w')
      → Agrees id w (if_acquired o env m id acquired w')
  if_acquired-Agrees true m id w w' same h = h
  if_acquired-Agrees false m id w w' same h = inl (same, inl refl)

  lock_states : (w : World) → (acquire_source_lock o env w).1.states ≡ w.states
  unfolding acquire_source_lock
  lock_states w = ground arith

-- Where the statements of the database succeed, every result of SyncSource agrees with the state that is
-- stored: a run that was skipped or switched off has changed no state; any other has left the source
-- failed or completed, with the error of the result, and for a successful result it is completed and
-- has the cursor and the statistics of the result.
pub sync_source-Agrees :
    (o : Orchestrator) (env : Env) (fuel : ℕ) (id : String) (w : World)
    → ((k : ℕ) → env.down k ≡ false)
    → Agrees id w (sync_source o env fuel id w)
unfolding sync_source guarded when_enabled
sync_source-Agrees o env fuel id w up =
    let p = acquire_source_lock o env w in
    if_acquired-Agrees o env up p.0 _ id w p.1 (lock_states o env up w) (
      unless_off-Agrees o env up (is_switched_off o env (env.settings p.1.calls)) _ id w _
        (lock_states o env up w)
        (with_source-Agrees o env up fuel id (env.get_source (suc p.1.calls) id) w _))
