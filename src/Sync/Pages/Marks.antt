-- ===== src/Sync/Pages/Marks.antt =====
-- Which external IDs the pages and the retries of core/services/sync.go mark as processed.
use sercha_core.Base.{
  String, ◌≡◌, ◌||◌, ◌∙◌, refl, map, List, [], ◌∷◌, Result, ok, err, contains, arith,
}
use sercha_core.Sync.Domain.{ChangeType, Change, Source}
use sercha_core.Sync.World.{World, Env, Orchestrator}
use sercha_core.Sync.Changes.{process_change, get_external}
use sercha_core.Sync.Changes.Books.{SameBooks, process_change-SameBooks}
use sercha_core.Sync.Containers.{record_document_failure, clear_document_failure}
use sercha_core.Sync.Pages.{
  update_id, update_ids, cleanup_old_chunks_batch, mark_all, settle, process_one, fan_out,
}

abbrev pub ids_of : List Change → List String
ids_of cs = map (λ (c : Change). c.external_id) cs

pub SameBooks-trans : {u v w : World} → SameBooks u v → SameBooks v w → SameBooks u w
SameBooks-trans a b = record {
  failed = b.failed ∙ a.failed;
  outcomes = b.outcomes ∙ a.outcomes;
  processed = b.processed ∙ a.processed;
}

module _ (o : Orchestrator) (env : Env) (source : Source) where
  pub recorded_processed :
      (j : String) (e : _) (w : World)
      → (record_document_failure o env source j e w).1.processed ≡ w.processed
  unfolding record_document_failure
  recorded_processed j e w = ground arith

  pub cleared_processed :
      (j : String) (w : World) → (clear_document_failure o env source j w).1.processed ≡ w.processed
  unfolding clear_document_failure
  cleared_processed j w = ground arith

  settle_processed :
      (j : String) (r : Result (Unit {0})) (w : World)
      → (settle o env source j r w).1.processed ≡ w.processed
  settle_processed j (ok _) w = cleared_processed j _
  settle_processed j (err e) w = recorded_processed j e _

  process_one_processed :
      (c : Change) (w : World) → (process_one o env source c w).1.processed ≡ w.processed
  unfolding process_one
  process_one_processed c w =
      let p = process_change o env source c w in
      settle_processed c.external_id p.0 p.1 ∙ (process_change-SameBooks o env source c w).processed

  pub fan_out_processed :
      (cs : List Change) (w : World) → (fan_out o env source cs w).1.processed ≡ w.processed
  unfolding fan_out
  fan_out_processed [] w = refl
  fan_out_processed (c ∷ cs) w =
      fan_out_processed cs (process_one o env source c w).1 ∙ process_one_processed c w

  update_id-SameBooks :
      (t : ChangeType) (c : Change) (w : World) → SameBooks w (update_id o env source t c w).1
  unfolding get_external
  update_id-SameBooks t c w = ground arith

  update_ids-SameBooks :
      (cs : List Change) (w : World) → SameBooks w (update_ids o env source cs w).1
  unfolding update_ids get_external
  update_ids-SameBooks [] w = ground arith
  update_ids-SameBooks (c ∷ cs) w =
      SameBooks-trans (update_id-SameBooks c.type c w)
        (update_ids-SameBooks cs (update_id o env source c.type c w).1)

  pub cleaned-SameBooks :
      (cs : List Change) (w : World)
      → let p = update_ids o env source cs w in
        SameBooks w (cleanup_old_chunks_batch o env source p.0 p.1).1
  unfolding cleanup_old_chunks_batch
  cleaned-SameBooks cs w = SameBooks-trans (update_ids-SameBooks cs w) (ground arith)

  pub mark_all_processed :
      (cs : List Change) (w : World) (id : String)
      → contains (mark_all cs w).1.processed id
        ≡ (contains (ids_of cs) id || contains w.processed id)
  unfolding mark_all contains
  mark_all_processed [] w id = refl
  mark_all_processed (c ∷ cs) w id =
      ground
        (arith, mark_all_processed cs (record w { processed = c.external_id ∷ w.processed }) id)

  pub mark_all_books :
      (cs : List Change) (w : World)
      → ((mark_all cs w).1.failed ≡ w.failed) × ((mark_all cs w).1.outcomes ≡ w.outcomes)
  unfolding mark_all
  mark_all_books [] w = (refl, refl)
  mark_all_books (c ∷ cs) w =
      mark_all_books cs (record w { processed = c.external_id ∷ w.processed })
