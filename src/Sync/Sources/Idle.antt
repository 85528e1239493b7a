-- ===== src/Sync/Sources/Idle.antt =====
-- SyncSource of core/services/sync.go when nothing has changed at the source.
use sercha_core.Base.{
  ℕ, suc, String, Bool, true, false, ◌≡◌, ◌∙◌, refl, sym, ap, Option, internal, none, some,
  Bool-cases, inl, inr, List, [], ◌∷◌, Result, ok, err, lookup, arith, if◌then◌else◌,
}
use mathlib.Core.Path.{subst}
use sercha_core.Sync.Domain.{SyncState, SyncResult, Source}
use sercha_core.Sync.World.{World, Env, Orchestrator, Connector, Prog}
use sercha_core.Sync.Pages.{
  fetch_pages, update_container, sync_container, sync_connected, sync_tested,
}
use sercha_core.Sync.States.{
  acquire_source_lock, acquired_by, guarded, when_enabled, with_source, start, store_state,
  is_switched_off, unless_off, if_acquired, fail_sync,
}
use sercha_core.Sync.Sources.{
  Totals, no_totals, sync_source, sync_started, sync_resolved, sync_containers, container_ids,
  finish, final_state, event_of, add_container, go_on, ids_or_default,
}
use sercha_core.Sync.Sources.Agreement.{stored_state, event_states, start_named}

-- The state that is stored for the source has no cursor, so that the next run is a full one.
abbrev pub Forgets : String → World → Type 0
Forgets id w = (s : SyncState) × (lookup id w.states ≡ some s) × (s.cursor ≡ "")

-- Every call succeeds, the synchronisation is switched on, no other instance holds the lock of the
-- source, and the connector has no changes.
pub record IsIdle (o : Orchestrator) (env : Env) (id : String) (source : Source) (c : Connector)
    (next : String) : Type 0 where
  pub acquires : (k : ℕ) → acquired_by o env (env.lock k) ≡ true
  pub switched_on : (k : ℕ) → is_switched_off o env (env.settings k) ≡ false
  pub there : (k : ℕ) → env.get_source k id ≡ ok source
  pub enabled : source.enabled ≡ true
  pub containers : Option (List String)
  pub resolves : (k : ℕ) → env.resolve_containers k source ≡ ok containers
  pub connected : (k : ℕ) (container : String) → env.connect k container ≡ ok c
  pub tested : (k : ℕ) → c.test_connection k ≡ ok tt
  pub nothing_new : (k : ℕ) (cursor : String) → c.fetch_changes k cursor ≡ ok ([], next)
  pub runs_on : (k : ℕ) → env.is_cancelled k ≡ false
  pub is_up : (k : ℕ) → env.down k ≡ false

module _ (o : Orchestrator) (env : Env) (id : String) (source : Source) (c : Connector)
    (next : String) (idle : IsIdle o env id source c next) where
  idle_pages :
      (n : ℕ) (cursor last : String) (w : World)
      → (fetch_pages o env source (suc n) c cursor last w).0 ≡ some (ok last)
  unfolding fetch_pages
  idle_pages n cursor last w =
      rw (idle.runs_on w.calls) (rw (idle.nothing_new (suc w.calls) cursor) refl)

  idle_update :
      (n : ℕ) (cursor : String) (w : World)
      → (update_container o env source (suc n) c cursor w).0 ≡ some (ok "")
  unfolding update_container
  idle_update n cursor w = idle_pages n cursor "" _

  idle_tested :
      (n : ℕ) (cursor : String) (r : Result (Unit {0})) (w : World)
      → r ≡ ok tt
      → (sync_tested o env source (suc n) c cursor r w).0 ≡ some (ok "")
  idle_tested n cursor (ok _) w e = idle_update n cursor _
  idle_tested n cursor (err x) w e = absurd (ground arith)

  idle_connected :
      (n : ℕ) (cursor : String) (r : Result Connector) (w : World)
      → r ≡ ok c
      → (sync_connected o env source (suc n) cursor r w).0 ≡ some (ok "")
  idle_connected n cursor r w e =
      subst
        (λ (r : Result Connector).
          (sync_connected o env source (suc n) cursor r w).0 ≡ some (ok ""))
        (sym e)
        (idle_tested n cursor (c.test_connection w.calls) (record w { calls = suc w.calls })
          (idle.tested w.calls))

  idle_container :
      (n : ℕ) (cursor container : String) (w : World)
      → (sync_container o env source (suc n) cursor container w).0 ≡ some (ok "")
  unfolding sync_container
  idle_container n cursor container w =
      idle_connected n cursor (env.connect w.calls container) (record w { calls = suc w.calls })
        (idle.connected w.calls container)

  -- The totals still have the cursor that they had.
  Keeps : Totals → Option Totals → Type 0
  Keeps t r = (t' : Totals) × (r ≡ some t') × (t'.last_cursor ≡ t.last_cursor)

  idle_containers :
      (n : ℕ) (cursor : String) (ids : List String) (t : Totals) (w : World)
      → Keeps t (sync_containers o env (suc n) source cursor ids t w).0
  unfolding sync_containers Keeps
  idle_containers n cursor [] t w = (t, refl, refl)
  idle_containers n cursor (j ∷ ids) t w =
      let p = sync_container o env source (suc n) cursor j w in
      let t' = add_container o env j t (ok "") p.1 in
      subst
        (λ (r : _).
          Keeps t (go_on o env j t (sync_containers o env (suc n) source cursor ids) r p.1).0)
        (sym (idle_container n cursor j w)) (idle_containers n cursor ids t' p.1)

  idle_finish :
      (ids : List String) (s : SyncState) (r : Option Totals) (w : World)
      → s.source_id ≡ id
      → Keeps no_totals r
      → Forgets id (finish o env id source ids s r w).1
  unfolding finish Keeps
  idle_finish ids s r w named (t, e, cursor) =
      let s' = final_state o env (env.clock w.calls) ids s t in
      let w1 : World = record w { calls = suc w.calls } in
      subst (λ (r : Option Totals). Forgets id (finish o env id source ids s r w).1) (sym e)
        (
          s',
          ap (lookup id) (
                event_states o env idle.is_up o.has_events (event_of o env id source s' t)
                  (store_state o env s' w1).1)
              ∙ stored_state o env idle.is_up s' id w1 named,
          cursor,
        )

  idle_resolved :
      (n : ℕ) (s : SyncState) (r : Result (List String)) (ids : List String) (w : World)
      → r ≡ ok ids
      → s.source_id ≡ id
      → Forgets id (sync_resolved o env (suc n) source id s r w).1
  idle_resolved n s r ids w e named =
      subst
        (λ (r : Result (List String)). Forgets id (sync_resolved o env (suc n) source id s r w).1)
        (sym e) (idle_finish ids s _ _ named (idle_containers n s.cursor ids no_totals _))

  idle_ids : (w : World) → (ids : List String) × ((container_ids o env source w).0 ≡ ok ids)
  unfolding container_ids
  idle_ids w = elim (Bool-cases (o.has_resolver source.provider_type)) [
    | inl resolved ↦
        (ids_or_default o env source idle.containers, rw (resolved, idle.resolves w.calls) refl)
    | inr plain ↦ (ids_or_default o env source none, rw plain refl)
  ]

  idle_started : (n : ℕ) (w : World) → Forgets id (sync_started o env (suc n) source id w).1
  idle_started n w =
      let p = start o env id w in
      let q = container_ids o env source p.1 in
      let (ids, found) = idle_ids p.1 in
      idle_resolved n p.0 q.0 ids q.1 found (start_named o env idle.is_up id w)

  if_enabled :
      (b : Bool) (f g : Prog (Option SyncResult)) (w : World)
      → b ≡ true
      → Forgets id (f w).1
      → Forgets id ((if b then f else g) w).1
  if_enabled true f g w e h = h
  if_enabled false f g w e h = absurd (ground arith)

  idle_source :
      (n : ℕ) (r : Result Source) (w : World)
      → r ≡ ok source
      → Forgets id (with_source o env (λ x. sync_started o env (suc n) x id) id r w).1
  idle_source n r w e =
      subst
        (λ (r : Result Source).
          Forgets id (with_source o env (λ x. sync_started o env (suc n) x id) id r w).1)
        (sym e)
        (if_enabled source.enabled (sync_started o env (suc n) source id)
          (fail_sync o env id internal) w idle.enabled (idle_started n w))

  idle_switched :
      (off : Bool) (m : Prog (Option SyncResult)) (w : World)
      → off ≡ false
      → Forgets id (m w).1
      → Forgets id (unless_off o env m id off w).1
  idle_switched true m w e h = absurd (ground arith)
  idle_switched false m w e h = h

  lock_free : (w : World) → (acquire_source_lock o env w).0 ≡ true
  unfolding acquire_source_lock
  lock_free w = elim (Bool-cases o.has_lock) [
    | inl locks ↦ rw locks (idle.acquires w.calls)
    | inr none_there ↦ rw none_there refl
  ]

  idle_enabled :
      (n : ℕ) (w : World)
      → Forgets id (when_enabled o env (λ x. sync_started o env (suc n) x id) id w).1
  unfolding when_enabled
  idle_enabled n w =
      idle_switched (is_switched_off o env (env.settings w.calls)) _
        (record w { calls = suc w.calls }) (idle.switched_on w.calls)
        (idle_source n (env.get_source (suc w.calls) id) (record w { calls = suc (suc w.calls) })
          (idle.there (suc w.calls)))

-- Where every call succeeds, the synchronisation is switched on, the source is enabled, no other
-- instance holds its lock (where there is a lock), its containers are resolved (where there is a resolver) and the connector has no
-- changes, SyncSource leaves a state without a cursor, whatever the cursor was: the next run is a full
-- one.
pub sync_source-Forgets :
    (o : Orchestrator) (env : Env) (id : String) (source : Source) (c : Connector) (next : String)
    (n : ℕ) (w : World)
    → IsIdle o env id source c next
    → Forgets id (sync_source o env (suc n) id w).1
unfolding sync_source guarded
sync_source-Forgets o env id source c next n w idle =
    let run = when_enabled o env (λ x. sync_started o env (suc n) x id) id in
    let p = acquire_source_lock o env w in
    subst (λ (b : Bool). Forgets id (if_acquired o env run id b p.1).1)
      (sym (lock_free o env id source c next idle w))
      (idle_enabled o env id source c next idle n p.1)
