-- ===== src/Sync/Pages/Retries.antt =====
-- The retries of core/services/sync.go, and with them the whole update of a container.
use sercha_core.Base.{
  ℕ, suc, String, Bool, true, false, not, ◌≡◌, ◌⊎◌, ◌∙◌, sym, ap, inl, inr, Option, List, [], ◌∷◌,
  Result, ok, err, Error, contains, str_eq, Bool-cases, arith, if◌then◌else◌,
}
use sercha_core.Sync.Domain.{Source, Document}
use sercha_core.Sync.Ledger.{Ledger, SyncFailedDoc, list_ready_for_retry}
use sercha_core.Sync.World.{World, Env, Orchestrator, Connector, one_error}
use sercha_core.Sync.Changes.{process_change}
use sercha_core.Sync.Changes.Books.{process_change-SameBooks}
use sercha_core.Sync.Containers.{
  record_document_failure, clear_document_failure, retry_row, retry_rows, retry_failed_documents,
  retry_fetched, settle_retry, refetched, retry_listed,
}
use sercha_core.Sync.Pages.{update_container}
use sercha_core.Sync.Pages.Accounts.{
  Accounted, HasLedger, recorded-Accounted, cleared-Accounted, logged-Accounted, recorded_row,
  last_line, cleared_row, logged,
}
use sercha_core.Sync.Pages.Marks.{recorded_processed, cleared_processed}
use sercha_core.Sync.Pages.Unlost.{Unlost, Accounted-books, fetch_pages-Safe}

module _ (o : Orchestrator) (env : Env) (source : Source) (has : HasLedger o env source)
    (id : String) (named : str_eq id "" ≡ false) where
  cleared_logged :
      (j : String) (w : World)
      → (str_eq j id ≡ true) ⊎ Accounted source id w
      → Accounted source id
          (logged o env source has id named j true (clear_document_failure o env source j w).1)
  cleared_logged j w h =
      let w' = (clear_document_failure o env source j w).1 in
      elim (Bool-cases (str_eq j id)) [
        | inl same ↦ inl (last_line o env source has id named j true w' same)
        | inr other ↦ elim h [
          | inl same ↦ absurd (ground arith)
          | inr (inl done) ↦
              logged-Accounted o env source has id named j true w' other
                (cleared-Accounted o env source has id named j w (inl done))
          | inr (inr row) ↦ inr (cleared_row o env source has id named j w other row)
        ]
      ]

  recorded_logged :
      (j : String) (e : Error) (w : World)
      → (str_eq j id ≡ true) ⊎ Accounted source id w
      → Accounted source id
          (logged o env source has id named j false (record_document_failure o env source j e w).1)
  recorded_logged j e w h =
      let w' = (record_document_failure o env source j e w).1 in
      elim (Bool-cases (str_eq j id)) [
        | inl same ↦ inr (recorded_row o env source has id named j e w (inl same))
        | inr other ↦
            logged-Accounted o env source has id named j false w' other
              (recorded-Accounted o env source has id named j e w h)
      ]

  settle_retry-Accounted :
      (j : String) (r : Result (Unit {0})) (w : World)
      → (str_eq j id ≡ true) ⊎ Accounted source id w
      → Accounted source id (settle_retry o env source j r w).1
  settle_retry-Accounted j (ok _) w h = cleared_logged j w h
  settle_retry-Accounted j (err e) w (inl same) = recorded_logged j e _ (inl same)
  settle_retry-Accounted j (err e) w (inr before) =
      recorded_logged j e (record w { stats = one_error w.stats }) (inr before)

  settle_retry_processed :
      (j : String) (r : Result (Unit {0})) (w : World)
      → (settle_retry o env source j r w).1.processed ≡ w.processed
  settle_retry_processed j (ok _) w = cleared_processed o env source j w
  settle_retry_processed j (err e) w = recorded_processed o env source j e _

  retry_fetched-Accounted :
      (j : String) (r : Result (Option Document × String)) (w : World)
      → (str_eq j id ≡ true) ⊎ Accounted source id w
      → Accounted source id (retry_fetched o env source j r w).1
  retry_fetched-Accounted j (err e) w h = recorded_logged j e w h
  retry_fetched-Accounted j (ok (d, content)) w (inl same) = settle_retry-Accounted j _ _ (inl same)
  retry_fetched-Accounted j (ok (d, content)) w (inr before) =
      let w' : World = record w { processed = j ∷ w.processed } in
      let s = process_change-SameBooks o env source (refetched j d content) w' in
      let p = process_change o env source (refetched j d content) w' in
      settle_retry-Accounted j p.0 p.1
        (inr (Accounted-books o env source has id named [] w' p.1 s.failed s.outcomes before))

  retry_fetched_processed :
      (j : String) (r : Result (Option Document × String)) (w : World)
      → (retry_fetched o env source j r w).1.processed ≡ j ∷ w.processed
  retry_fetched_processed j (err e) w =
      ap (λ (xs : List String). j ∷ xs) (recorded_processed o env source j e w)
  retry_fetched_processed j (ok (d, content)) w =
      let w' : World = record w { processed = j ∷ w.processed } in
      settle_retry_processed j _ _
      ∙ (process_change-SameBooks o env source (refetched j d content) w').processed

  module _ (base : List String) where
    abbrev Lossless : World → Type 0
    Lossless w = Unlost base source id w

    if-Lossless :
        (b : Bool) (p q : Unit {0} × World)
        → Lossless p.1
        → Lossless q.1
        → Lossless (if b then p else q).1
    if-Lossless true p q h k = h
    if-Lossless false p q h k = k

    contains_cons :
        (j : String) (xs : List String)
        → contains (j ∷ xs) id ≡ true
        → (str_eq j id ≡ true) ⊎ (contains xs id ≡ true)
    unfolding contains
    contains_cons j xs h = ground arith

    retry_fetched-Unlost :
        (j : String) (r : Result (Option Document × String)) (w : World)
        → Lossless w
        → Lossless (retry_fetched o env source j r w).1
    retry_fetched-Unlost j r w h m =
        elim (contains_cons j w.processed
          (ap (λ (xs : List String). contains xs id) (sym (retry_fetched_processed j r w)) ∙ m)) [
            | inl same ↦ inr (retry_fetched-Accounted j r w (inl same))
            | inr before ↦ elim (h before) [
              | inl old ↦ inl old
              | inr done ↦ inr (retry_fetched-Accounted j r w (inr done))
            ]
          ]

    retry_row-Unlost :
        (c : Connector) (r : SyncFailedDoc) (w : World)
        → Lossless w
        → Lossless (retry_row o env source c r w).1
    unfolding retry_row
    retry_row-Unlost c r w h =
        if-Lossless (contains w.processed r.external_id) (tt, w)
          (retry_fetched o env source r.external_id (c.fetch_document w.calls r.external_id) _) h
          (retry_fetched-Unlost r.external_id (c.fetch_document w.calls r.external_id)
            (record w { calls = suc w.calls }) h)

    retry_rows-Unlost :
        (c : Connector) (rows : Ledger) (w : World)
        → Lossless w
        → Lossless (retry_rows o env source c rows w).1
    unfolding retry_rows
    retry_rows-Unlost c [] w h = h
    retry_rows-Unlost c (r ∷ rows) w h =
        let w' : World = record w { calls = suc w.calls } in
        if-Lossless (env.is_cancelled w.calls) (tt, w')
          (retry_rows o env source c rows (retry_row o env source c r w').1) h
          (retry_rows-Unlost c rows (retry_row o env source c r w').1 (retry_row-Unlost c r w' h))

    retry_listed-Unlost :
        (c : Connector) (r : Result Ledger) (w : World)
        → Lossless w
        → Lossless (retry_listed o env source c r w).1
    retry_listed-Unlost c (ok rows) w h = retry_rows-Unlost c rows w h
    retry_listed-Unlost c (err e) w h = h

    retry_failed_documents-Unlost :
        (c : Connector) (w : World)
        → Lossless w
        → Lossless (retry_failed_documents o env source c w).1
    unfolding retry_failed_documents
    retry_failed_documents-Unlost c w h =
        let ready =
          list_ready_for_retry (env.ledger_down (suc w.calls)) source.id (env.clock w.calls)
            o.retry_batch w.failed in
        let w' : World = record w { calls = suc (suc w.calls) } in
        if-Lossless (not o.has_ledger) (tt, w) (retry_listed o env source c ready w') h
          (retry_listed-Unlost c ready w' h)

-- Take a source with a ledger whose statements succeed. After the retries and the pages of a
-- container, however they end, a non-empty external ID that is marked as processed was marked before, or
-- the logger reports last that its change was processed, or the ledger has a row for it.
pub update_container-Accounted :
    (o : Orchestrator) (env : Env) (source : Source) (fuel : ℕ) (c : Connector) (cursor id : String)
    (w : World)
    → HasLedger o env source
    → str_eq id "" ≡ false
    → let w' = (update_container o env source fuel c cursor w).1 in
      contains w'.processed id ≡ true → (contains w.processed id ≡ true) ⊎ Accounted source id w'
unfolding update_container
update_container-Accounted o env source fuel c cursor id w has named marked =
    fetch_pages-Safe o env source has id named w.processed fuel c cursor "" _
      (retry_failed_documents-Unlost o env source has id named w.processed c w (λ m. inl m)) marked
