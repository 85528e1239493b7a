-- ===== src/Sync/Containers/Reconcile.antt =====
-- reconcileDeletions of core/services/sync.go: which documents it can delete.
use text.Mathlib.Text.{starts_with}
use sercha_core.Base.{
  ℕ, suc, String, Bool, true, false, ◌||◌, ◌≡◌, ◌⊎◌, refl, inl, inr, some, List, [], ◌∷◌, All,
  Within, Within-refl, Result, ok, err, lookup, contains, Bool-cases, arith,
}
use sercha_core.Sync.Domain.{Document, Source}
use sercha_core.Sync.Documents.{list_external_ids}
use sercha_core.Sync.Documents.Distinct.{Distinct}
use sercha_core.Sync.World.{World, Env, Orchestrator, Connector}
use sercha_core.Sync.Containers.{
  delete_unless, delete_missing, in_scope, delete_by, reconcile_stored, reconcile_scopes,
  reconcile_listed, reconcile_declared, reconcile_deletions,
}
use sercha_core.Sync.Containers.Deletions.{
  Missing, Sound, Sound-refl, Sound-trans, delete_unless-Sound,
}

module _ (o : Orchestrator) (env : Env) (source : Source) (c : Connector) where
  module _ (scope : String) (declared : contains c.reconciliation_scopes scope ≡ true) where
    not_listed : (a b : Bool) → (a || b) ≡ false → a ≡ false
    not_listed a b h = ground arith

    delete_missing-Sound :
        (k : ℕ) (inventory ids : List String) (w : World)
        → c.inventory k scope ≡ ok inventory
        → All (λ j. starts_with j scope ≡ true) ids
        → Sound source c w (delete_missing o env source inventory ids w).1
    unfolding delete_missing
    delete_missing-Sound k inventory [] w answered within = Sound-refl o env source c w w refl
    delete_missing-Sound k inventory (j ∷ ids) w answered within =
        let skip = contains inventory j || contains w.processed j in
        let w' = (delete_unless o env source skip j w).1 in
        Sound-trans o env source c w w' (delete_missing o env source inventory ids w').1
          (delete_unless-Sound o env source c skip j w (λ new. record {
            scope = scope;
            declared = declared;
            within = within.0;
            asked_at = k;
            inventory = inventory;
            answered = answered;
            absent = not_listed (contains inventory j) (contains w.processed j) new;
          }))
          (delete_missing-Sound k inventory ids w' answered within.1)

    in_scope-starts_with :
        (ids : List String) → All (λ j. starts_with j scope ≡ true) (in_scope scope ids)
    unfolding in_scope
    in_scope-starts_with [] = tt
    in_scope-starts_with (j ∷ ids) = elim (Bool-cases (starts_with j scope)) [
      | inl inside ↦ rw inside (inside, in_scope-starts_with ids)
      | inr outside ↦ rw outside (in_scope-starts_with ids)
    ]

    delete_by-Sound :
        (k : ℕ) (r : Result (List String)) (ids : List String) (w : World)
        → c.inventory k scope ≡ r
        → All (λ j. starts_with j scope ≡ true) ids
        → Sound source c w (delete_by o env source r ids w).1
    delete_by-Sound k (err e) ids w asked within = Sound-refl o env source c w w refl
    delete_by-Sound k (ok inventory) ids w asked within =
        delete_missing-Sound k inventory ids w asked within

    reconcile_stored-Sound :
        (ids : List String) (w : World)
        → All (λ j. starts_with j scope ≡ true) ids
        → Sound source c w (reconcile_stored o env source c scope ids w).1
    reconcile_stored-Sound [] w within = Sound-refl o env source c w w refl
    reconcile_stored-Sound (j ∷ ids) w within =
        delete_by-Sound w.calls (c.inventory w.calls scope) (j ∷ ids)
          (record w { calls = suc w.calls }) refl within

  reconcile_scopes-Sound :
      (ids scopes : List String) (w : World)
      → Within scopes c.reconciliation_scopes
      → Sound source c w (reconcile_scopes o env source c ids scopes w).1
  unfolding reconcile_scopes
  reconcile_scopes-Sound ids [] w declared = Sound-refl o env source c w w refl
  reconcile_scopes-Sound ids (scope ∷ scopes) w declared =
      let w' = (reconcile_stored o env source c scope (in_scope scope ids) w).1 in
      Sound-trans o env source c w w' (reconcile_scopes o env source c ids scopes w').1
        (reconcile_stored-Sound scope declared.0 (in_scope scope ids) w
          (in_scope-starts_with scope declared.0 ids))
        (reconcile_scopes-Sound ids scopes w' declared.1)

  reconcile_listed-Sound :
      (scopes : List String) (r : Result (List String)) (w : World)
      → Within scopes c.reconciliation_scopes
      → Sound source c w (reconcile_listed o env source c scopes r w).1
  reconcile_listed-Sound scopes (err e) w declared = Sound-refl o env source c w w refl
  reconcile_listed-Sound scopes (ok ids) w declared = reconcile_scopes-Sound ids scopes w declared

  reconcile_declared-Sound :
      (scopes : List String) (w : World)
      → Within scopes c.reconciliation_scopes
      → Sound source c w (reconcile_declared o env source c scopes w).1
  reconcile_declared-Sound [] w declared = Sound-refl o env source c w w refl
  reconcile_declared-Sound (scope ∷ scopes) w declared =
      reconcile_listed-Sound (scope ∷ scopes)
        (list_external_ids (env.down w.calls) source.id w.documents)
        (record w { calls = suc w.calls }) declared

-- Where the documents stand under their IDs, no ID twice, the deletions that a container's inventory
-- shows keep them so, and keep every document but those of the source whose external ID starts with a
-- declared scope and is not in an inventory that the connector gave for it.
pub reconcile_deletions-Kept :
    (o : Orchestrator) (env : Env) (source : Source) (c : Connector) (w : World) (id : String)
    (d : Document)
    → Distinct w.documents
    → lookup id w.documents ≡ some d
    → let w' = (reconcile_deletions o env source c w).1 in
      Distinct w'.documents
      × ((lookup id w'.documents ≡ some d) ⊎ ((d.source_id ≡ source.id) × Missing c d.external_id))
unfolding reconcile_deletions
reconcile_deletions-Kept o env source c w id d distinct there =
    let (distinct', kept) =
      reconcile_declared-Sound o env source c c.reconciliation_scopes w
        (Within-refl c.reconciliation_scopes) distinct in
    (distinct', kept id d there)
