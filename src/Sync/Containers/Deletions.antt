-- ===== src/Sync/Containers/Deletions.antt =====
-- What a deletion of core/services/sync.go, or one that an inventory calls for, does to the documents.
use mathlib.Core.Path.{subst}
use text.Mathlib.Text.{starts_with}
use sercha_core.Base.{
  ℕ, String, Bool, true, false, ◌≡◌, ◌⊎◌, ◌∙◌, refl, sym, ap, inl, inr, Option, some, List, ◌∷◌,
  Result, ok, err, lookup, remove, lookup-remove, contains, str_eq, eq_iff, Bool-cases, arith,
}
use sercha_core.Sync.Domain.{Document, Source}
use sercha_core.Sync.Documents.{Documents, find_external, get_by_external_id, delete_document}
use sercha_core.Sync.Documents.Distinct.{Distinct, remove-Distinct, find_external-lookup}
use sercha_core.Sync.World.{World, Env, Orchestrator, Connector}
use sercha_core.Sync.Changes.{get_external, delete_found, process_delete, process_change}
use sercha_core.Sync.Containers.{deletion, count_failed, delete_unless}

-- A declared scope has the external ID, and an inventory of it does not.
pub record Missing (c : Connector) (external_id : String) : Type 0 where
  pub scope : String
  pub declared : contains c.reconciliation_scopes scope ≡ true
  pub within : starts_with external_id scope ≡ true
  pub asked_at : ℕ
  pub inventory : List String
  pub answered : c.inventory asked_at scope ≡ ok inventory
  pub absent : contains inventory external_id ≡ false

-- Each document is still there, or it is one of the source that is missing.
abbrev pub Kept : Source → Connector → World → World → Type 0
Kept source c w w' =
    (id : String) (d : Document)
    → lookup id w.documents ≡ some d
    → (lookup id w'.documents ≡ some d) ⊎ ((d.source_id ≡ source.id) × Missing c d.external_id)

abbrev pub Sound : Source → Connector → World → World → Type 0
Sound source c w w' = Distinct w.documents → Distinct w'.documents × Kept source c w w'

module _ (o : Orchestrator) (env : Env) (source : Source) (c : Connector) where
  -- What a deletion does to the documents.
  found_deleted :
      (d : Document) (w : World)
      → ((delete_found o env source (ok d) w).1.documents ≡ w.documents)
        ⊎ ((delete_found o env source (ok d) w).1.documents ≡ remove d.id w.documents)
  unfolding delete_document
  found_deleted d w = ground arith

  abbrev Removes : String → World → World → Type 0
  Removes id w w' =
      (w'.documents ≡ w.documents)
      ⊎ ((d : Document) × (find_external source.id id w.documents ≡ some d)
          × (w'.documents ≡ remove d.id w.documents))

  delete_found-Removes :
      (id : String) (r : Result Document) (w w' : World)
      → w'.documents ≡ w.documents
      → ((d : Document) → r ≡ ok d → find_external source.id id w.documents ≡ some d)
      → Removes id w (delete_found o env source r w').1
  delete_found-Removes id (err e) w w' same h = inl same
  delete_found-Removes id (ok d) w w' same h = elim (found_deleted d w') [
    | inl kept ↦ inl (kept ∙ same)
    | inr gone ↦ inr (d, h d refl, gone ∙ ap (remove d.id) same)
  ]

  read_found :
      (id : String) (w : World) (d : Document)
      → get_by_external_id (env.down w.calls) source.id id w.documents ≡ ok d
      → find_external source.id id w.documents ≡ some d
  unfolding get_by_external_id
  read_found id w d h = ground arith

  deletion-Removes :
      (id : String) (w : World) → Removes id w (process_change o env source (deletion id) w).1
  unfolding process_change process_delete get_external
  deletion-Removes id w =
      delete_found-Removes id (get_by_external_id (env.down w.calls) source.id id w.documents) w _
        refl (read_found id w)

  pub Sound-refl : (w w' : World) → w'.documents ≡ w.documents → Sound source c w w'
  Sound-refl w w' same distinct = (
    subst (λ (db : Documents). Distinct db) (sym same) distinct,
    (λ id d there. inl (ap (lookup id) same ∙ there)),
  )

  pub Sound-trans : (u v w : World) → Sound source c u v → Sound source c v w → Sound source c u w
  Sound-trans u v w first second distinct =
      let (distinct', kept) = first distinct in
      let (distinct'', kept') = second distinct' in
      (
        distinct'',
        (λ id d there. elim (kept id d there) [
          | inl still ↦ kept' id d still
          | inr gone ↦ inr gone
        ]),
      )

  some_inj : {a b : Document} → ◌≡◌ {A = Option Document} (some a) (some b) → a ≡ b
  some_inj h = ground arith

  removed-Kept :
      (j : String) (w : World) (x d : Document) (id : String)
      → Distinct w.documents
      → find_external source.id j w.documents ≡ some x
      → Missing c j
      → lookup id w.documents ≡ some d
      → (lookup id (remove x.id w.documents) ≡ some d)
        ⊎ ((d.source_id ≡ source.id) × Missing c d.external_id)
  removed-Kept j w x d id distinct from missing there = elim (Bool-cases (str_eq x.id id)) [
    | inl same ↦
        let (stored, (ours, named)) = find_external-lookup source.id j w.documents distinct from in
        inr (
          subst (λ (y : Document). (y.source_id ≡ source.id) × Missing c y.external_id)
            (some_inj (
              sym stored
              ∙ ap (λ (k : String). lookup k w.documents) ((eq_iff x.id id).0 same)
              ∙ there))
            (ours, subst (Missing c) (sym named) missing))
    | inr other ↦ inl (lookup-remove x.id id w.documents ∙ rw other there)
  ]

  Removes-Sound : (j : String) (w w' : World) → Missing c j → Removes j w w' → Sound source c w w'
  Removes-Sound j w w' missing (inl same) distinct = Sound-refl w w' same distinct
  Removes-Sound j w w' missing (inr (x, from, gone)) distinct = (
    subst (λ (db : Documents). Distinct db) (sym gone) (remove-Distinct x.id w.documents distinct),
    (λ id d there. elim (removed-Kept j w x d id distinct from missing there) [
      | inl still ↦ inl (ap (lookup id) gone ∙ still)
      | inr lost ↦ inr lost
    ]),
  )

  counted_documents :
      (r : Result (Unit {0})) (w : World) → (count_failed r w).1.documents ≡ w.documents
  counted_documents (ok _) w = refl
  counted_documents (err _) w = refl

  pub delete_unless-Sound :
      (b : Bool) (j : String) (w : World)
      → (b ≡ false → Missing c j)
      → Sound source c w (delete_unless o env source b j w).1
  delete_unless-Sound true j w missing = Sound-refl w w refl
  delete_unless-Sound false j w missing =
      let w' : World = record w { processed = j ∷ w.processed } in
      let p = process_change o env source (deletion j) w' in
      Sound-trans w p.1 (count_failed p.0 p.1).1
        (Removes-Sound j w' p.1 (missing refl) (deletion-Removes j w'))
        (Sound-refl p.1 (count_failed p.0 p.1).1 (counted_documents p.0 p.1))
  -- IDs that start with a declared scope, for whose inventory the connector was asked.
