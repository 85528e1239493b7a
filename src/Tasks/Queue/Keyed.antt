-- ===== src/Tasks/Queue/Keyed.antt =====
-- The tasks table has one row for each ID (the primary key of the tasks table in
-- migrations/0001_initial_schema.sql), and what follows for the statements of
-- adapters/driven/queue/postgres/queue.go.
use mathlib.Core.Path.{subst, subst₂}
use sercha_core.Base.{
  String, Bool, true, false, ◌≡◌, refl, sym, ap, ◌∙◌, none, some, [], ◌∷◌, inl, inr, lookup,
  lookup-modify, modify, keep, Rows, Bool-cases, Option-cases, arith, str_eq, eq_iff,
}
use sercha_core.Tasks.Domain.{Task}
use sercha_core.Tasks.Queue.{Tasks, precedes, next_of}

abbrev pub IsKeyed : Tasks → Type 0
IsKeyed [] = Unit
IsKeyed ((k, t) ∷ db) = (k ≡ t.id) × ((lookup k db ≡ none) × IsKeyed db)

pub IsKeyed-modify :
    (k : String) (f : Task → Task) (db : Tasks)
    → ((t : Task) → (f t).id ≡ t.id)
    → IsKeyed db
    → IsKeyed (modify k f db)
unfolding modify
IsKeyed-modify k f [] same h = tt
IsKeyed-modify k f ((j, t) ∷ db) same h =
    let fresh : lookup j (modify k f db) ≡ none = ground (arith, lookup-modify k j f db, h.1.0) in
    elim (Bool-cases (str_eq j k)) [
      | inl e ↦ rw e (h.0 ∙ sym (same t), (fresh, IsKeyed-modify k f db same h.1.1))
      | inr e ↦ rw e (h.0, (fresh, IsKeyed-modify k f db same h.1.1))
    ]

pub lookup-keep-none :
    (p : Task → Bool) (k : String) (db : Tasks) → lookup k db ≡ none → lookup k (keep p db) ≡ none
unfolding lookup keep
lookup-keep-none p k [] h = refl
lookup-keep-none p k ((j, t) ∷ db) h = ground (arith, lookup-keep-none p k db)

pub IsKeyed-keep : (p : Task → Bool) (db : Tasks) → IsKeyed db → IsKeyed (keep p db)
unfolding keep
IsKeyed-keep p [] h = tt
IsKeyed-keep p ((j, t) ∷ db) h = elim (Bool-cases (p t)) [
  | inl e ↦ rw e (h.0, (lookup-keep-none p j db h.1.0, IsKeyed-keep p db h.1.1))
  | inr e ↦ rw e (IsKeyed-keep p db h.1.1)
]

modify_absent :
    (k : String) (f : Task → Task) (db : Tasks) → lookup k db ≡ none → modify k f db ≡ db
unfolding lookup modify
modify_absent k f [] h = refl
modify_absent k f ((j, u) ∷ db) h = elim (Bool-cases (str_eq j k)) [
  | inl e ↦ absurd (ground arith)
  | inr e ↦ rw e (ap (◌∷◌ (j, u)) (modify_absent k f db (ground arith)))
]

-- An UPDATE changes the row that is found under the key, and no other.
pub Rows-modify_found {κ} :
    (P : String → Task → Type κ) (k : String) (f : Task → Task) (db : Tasks) {t : Task}
    → IsKeyed db
    → lookup k db ≡ some t
    → (P k t → P k (f t))
    → Rows P db
    → Rows P (modify k f db)
unfolding lookup modify
Rows-modify_found P k f [] h found g r = tt
Rows-modify_found P k f ((j, u) ∷ db) {t} h found g r = elim (Bool-cases (str_eq j k)) [
  | inl e ↦
      let named = (eq_iff j k).0 e in
      let same : u ≡ t = ground arith in
      let old = subst₂ P named same r.0 in
      let rest = modify_absent k f db (subst (λ (i : String). lookup i db ≡ none) named h.1.0) in
      rw (e, rest) (subst₂ P (sym named) (ap f (sym same)) (g old), r.1)
  | inr e ↦ rw e (r.0, Rows-modify_found P k f db h.1.1 (ground arith) g r.1)
]

-- The row that Dequeue takes is the one of its ID, passes the test and comes first.
pub record IsNext (p : Task → Bool) (db : Tasks) (t : Task) : Type 0 where
  pub stored : lookup t.id db ≡ some t
  pub passes : p t ≡ true
  pub first : Rows (λ k u. p u ≡ true → precedes t u ≡ true) db

precedes_trans : (t u v : Task) → precedes t u ≡ true → precedes u v ≡ true → precedes t v ≡ true
unfolding precedes
precedes_trans t u v h k = ground arith

precedes_of_not : (t u : Task) → precedes t u ≡ false → precedes u t ≡ true
unfolding precedes
precedes_of_not t u h = ground arith

lookup_first : (k : String) (t : Task) (db : Tasks) → k ≡ t.id → lookup t.id ((k, t) ∷ db) ≡ some t
unfolding lookup
lookup_first k t db e = ground (arith, eq_iff k t.id)

lookup_later :
    (k : String) (u t : Task) (db : Tasks)
    → lookup k db ≡ none
    → lookup t.id db ≡ some t
    → lookup t.id ((k, u) ∷ db) ≡ some t
unfolding lookup
lookup_later k u t db fresh found = elim (Bool-cases (str_eq k t.id)) [
  | inl e ↦
      let none_there = subst (λ (i : String). lookup i db ≡ none) ((eq_iff k t.id).0 e) fresh in
      absurd (ground arith)
  | inr e ↦ rw e found
]

precedes_self : (t : Task) → precedes t t ≡ true
unfolding precedes
precedes_self t = ground arith

abbrev NoneBefore : (Task → Bool) → Task → Tasks → Type 0
NoneBefore p t db = Rows (λ k u. p u ≡ true → precedes t u ≡ true) db

next_of-none : (p : Task → Bool) (t : Task) (db : Tasks) → next_of p db ≡ none → NoneBefore p t db
unfolding next_of
next_of-none p t [] h = tt
next_of-none p t ((k, u) ∷ db) h = elim (Bool-cases (p u)) [
  | inl e ↦ absurd (ground arith)
  | inr e ↦ ((λ passes. absurd (ground arith)), next_of-none p t db (ground arith))
]

NoneBefore-trans :
    (p : Task → Bool) (t u : Task) (db : Tasks)
    → precedes t u ≡ true
    → NoneBefore p u db
    → NoneBefore p t db
NoneBefore-trans p t u [] h r = tt
NoneBefore-trans p t u ((k, v) ∷ db) h r =
    ((λ passes. precedes_trans t u v h (r.0 passes)), NoneBefore-trans p t u db h r.1)

pub next_of-IsNext :
    (p : Task → Bool) (db : Tasks) {t : Task} → IsKeyed db → next_of p db ≡ some t → IsNext p db t
unfolding next_of
next_of-IsNext p [] h e = absurd (ground arith)
next_of-IsNext p ((k, u) ∷ db) {t} h e = elim (Bool-cases (p u)) [
  | inl passes ↦
      let taken : (t' : Task) → u ≡ t' → NoneBefore p u db → IsNext p ((k, u) ∷ db) t' =
        λ t' same rest. subst (IsNext p ((k, u) ∷ db)) same (record {
          stored = lookup_first k u db h.0;
          passes = passes;
          first = ((λ _. precedes_self u), rest);
        }) in
      elim (Option-cases (next_of p db)) [
        | inl nothing ↦ taken t (ground arith) (next_of-none p u db nothing)
        | inr (w, next) ↦
            let ih = next_of-IsNext p db h.1.1 next in
            elim (Bool-cases (precedes u w)) [
              | inl before ↦ taken t (ground arith) (NoneBefore-trans p u w db before ih.first)
              | inr after ↦ subst (IsNext p ((k, u) ∷ db)) (ground arith) (record {
                stored = lookup_later k u w db h.1.0 ih.stored;
                passes = ih.passes;
                first = ((λ _. precedes_of_not u w after), ih.first);
              })
            ]
      ]
  | inr fails ↦
      let ih = next_of-IsNext p db {t = t} h.1.1 (ground arith) in
      record {
        stored = lookup_later k u t db h.1.0 ih.stored;
        passes = ih.passes;
        first = ((λ passes. absurd (ground arith)), ih.first);
      }
]

pub lookup_id :
    (id : String) (db : Tasks) {t : Task} → IsKeyed db → lookup id db ≡ some t → t.id ≡ id
unfolding lookup
lookup_id id [] keyed found = absurd (ground arith)
lookup_id id ((j, u) ∷ db) {t} keyed found = elim (Bool-cases (str_eq j id)) [
  | inl e ↦
      let same : u ≡ t = ground arith in
      ap (λ (x : Task). x.id) (sym same) ∙ (sym keyed.0 ∙ (eq_iff j id).0 e)
  | inr e ↦ lookup_id id db {t = t} keyed.1.1 (ground arith)
]
