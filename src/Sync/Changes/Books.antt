-- ===== src/Sync/Changes/Books.antt =====
-- What processChange of core/services/sync.go leaves alone.
use sercha_core.Base.{ℕ, Bool, ◌≡◌, Result, arith}
use sercha_core.Sync.Domain.{Document, Change, Source}
use sercha_core.Sync.World.{World, Env, Orchestrator}
use sercha_core.Sync.Changes.{
  get_external, delete_found, process_delete, should_exclude, process_with_pipeline, save_indexed,
  process_add_or_update, process_change,
}

-- The ledger, the logged outcomes and the processed IDs.
pub record SameBooks (w w' : World) : Type 0 where
  pub failed : w'.failed ≡ w.failed
  pub outcomes : w'.outcomes ≡ w.outcomes
  pub processed : w'.processed ≡ w.processed

module _ (o : Orchestrator) (env : Env) (source : Source) where
  delete_found-SameBooks :
      (r : Result Document) (w : World) → SameBooks w (delete_found o env source r w).1
  delete_found-SameBooks r w = ground arith

  save_indexed-SameBooks :
      (d : Document) (b : Bool) (r : Result ℕ) (w : World)
      → SameBooks w (save_indexed o env source d b r w).1
  save_indexed-SameBooks d b r w = ground arith

  pub process_change-SameBooks :
      (c : Change) (w : World) → SameBooks w (process_change o env source c w).1
  unfolding process_change process_delete process_add_or_update get_external should_exclude
      process_with_pipeline
  process_change-SameBooks c w = ground arith
