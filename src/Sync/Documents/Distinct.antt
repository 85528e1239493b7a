-- ===== src/Sync/Documents/Distinct.antt =====
-- Documents tables in which each row stands under its ID, and no ID twice.
use mathlib.Core.Path.{subst}
use sercha_core.Base.{
  String, Bool, true, false, ◌≡◌, ◌∙◌, sym, ap, inl, inr, Option, none, some, [], ◌∷◌, lookup,
  remove, lookup-remove, str_eq, eq_iff, Bool-cases, arith, if◌then◌else◌,
}
use sercha_core.Sync.Domain.{Document}
use sercha_core.Sync.Documents.{Documents, is_external, find_external}

abbrev pub Distinct : Documents → Type 0
Distinct [] = Unit
Distinct ((k, d) ∷ db) = (k ≡ d.id) × ((lookup k db ≡ none) × Distinct db)

pub remove-Distinct : (id : String) (db : Documents) → Distinct db → Distinct (remove id db)
unfolding remove
remove-Distinct id [] h = tt
remove-Distinct id ((k, d) ∷ db) h = elim (Bool-cases (str_eq k id)) [
  | inl same ↦ rw same (remove-Distinct id db h.1.1)
  | inr other ↦ rw other (h.0, (lookup-remove id k db ∙ ground arith, remove-Distinct id db h.1.1))
]

first_found :
    (b : Bool) (x d : Document) (rest : Option Document)
    → b ≡ true
    → (if b then some x else rest) ≡ some d
    → x ≡ d
first_found b x d rest m f = ground arith

later_found :
    (b : Bool) (x : Document) (o rest : Option Document)
    → b ≡ false
    → (if b then some x else rest) ≡ o
    → rest ≡ o
later_found b x o rest m f = ground arith

found_first :
    (k : String) (x : Document) (db : Documents) → k ≡ x.id → lookup x.id ((k, x) ∷ db) ≡ some x
unfolding lookup
found_first k x db e = ground (arith, eq_iff k x.id)

some-none : {d : Document} → ◌≡◌ {A = Option Document} (some d) none → ⊥
some-none h = ground arith

later_row :
    (k : String) (x d : Document) (db : Documents)
    → lookup k db ≡ none
    → lookup d.id db ≡ some d
    → lookup d.id ((k, x) ∷ db) ≡ some d
unfolding lookup
later_row k x d db new old = elim (Bool-cases (str_eq k d.id)) [
  | inl same ↦
      absurd (
        some-none (sym old ∙ ap (λ (j : String). lookup j db) (sym ((eq_iff k d.id).0 same)) ∙ new))
  | inr other ↦ rw other old
]

both_same :
    (s e : String) (x : Document)
    → is_external s e x ≡ true
    → (x.source_id ≡ s) × (x.external_id ≡ e)
both_same s e x m = ground (arith, eq_iff x.source_id s, eq_iff x.external_id e)

-- A document that is found by its external ID is the one that its ID finds, and has that external ID.
pub find_external-lookup :
    (source_id external_id : String) (db : Documents) {d : Document}
    → Distinct db
    → find_external source_id external_id db ≡ some d
    → (lookup d.id db ≡ some d) × ((d.source_id ≡ source_id) × (d.external_id ≡ external_id))
unfolding find_external lookup
find_external-lookup s e [] h f = absurd (ground arith)
find_external-lookup s e ((k, x) ∷ db) {d} h f = elim (Bool-cases (is_external s e x)) [
  | inl m ↦
      subst
        (λ (y : Document).
          (lookup y.id ((k, x) ∷ db) ≡ some y) × ((y.source_id ≡ s) × (y.external_id ≡ e)))
        (first_found (is_external s e x) x d (find_external s e db) m f)
        (found_first k x db h.0, both_same s e x m)
  | inr m ↦
      let (stored, same) =
        find_external-lookup s e db h.1.1
          (later_found (is_external s e x) x (some d) (find_external s e db) m f) in
      (later_row k x d db h.1.0 stored, same)
]
