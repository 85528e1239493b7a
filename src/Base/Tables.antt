-- ===== src/Base/Tables.antt =====
-- A database table as a list of rows, each under its primary key: `lookup` is SELECT by key,
-- `insert` an INSERT that fails on a taken key, `modify` an UPDATE of the row of one key.
use mathlib.Core.Path.{◌≡◌, refl, sym, subst, subst₂}
use mathlib.Core.Logic.{inl, inr, ◌≢◌}
use mathlib.Core.Option
use mathlib.Core.Bool.{Bool, true, false}
use mathlib.Core.Option.{Option, none, some}
use mathlib.Core.List.{List, [], ◌∷◌}
use native.Mathlib.Omega.{arith}
use Prim.Native.String.{String}
use text.Mathlib.Text.{◌==◌ as str_eq}
use text.Mathlib.TextEquality.{eq_iff}
use sercha_core.Base.Tests.{if◌then◌else◌, Bool-cases}

abbrev pub Table {ℓ} : Type ℓ → Type ℓ
Table V = List (String × V)

module _ {ℓ} {V : Type ℓ} where
  unfoldable pub lookup : String → Table V → Option V
  lookup k [] = none
  lookup k ((j, v) ∷ t) = if str_eq j k then some v else lookup k t

  abbrev pub exists_in : String → Table V → Bool
  exists_in k t = elim (lookup k t) [ none ↦ false | some _ ↦ true ]

  unfoldable pub modify : String → (V → V) → Table V → Table V
  modify k f [] = []
  modify k f ((j, v) ∷ t) = (j, if str_eq j k then f v else v) ∷ modify k f t

  unfoldable pub remove : String → Table V → Table V
  remove k [] = []
  remove k ((j, v) ∷ t) = let rest = remove k t in if str_eq j k then rest else (j, v) ∷ rest

  -- INSERT ... ON CONFLICT DO UPDATE, a Go map's assignment
  unfoldable pub put : String → V → Table V → Table V
  put k v t = (k, v) ∷ remove k t

  pub lookup-cons :
      (k j : String) (v : V) (t : Table V)
      → lookup j ((k, v) ∷ t) ≡ (if str_eq k j then some v else lookup j t)
  unfolding lookup
  lookup-cons k j v t = refl

  pub lookup-modify :
      (k j : String) (f : V → V) (t : Table V)
      → lookup j (modify k f t) ≡ (if str_eq k j then Option.map f (lookup j t) else lookup j t)
  unfolding lookup modify
  lookup-modify k j f [] = ground arith
  lookup-modify k j f ((i, v) ∷ t) =
      ground (arith, lookup-modify k j f t, eq_iff i k, eq_iff i j, eq_iff k j)

  pub lookup-remove :
      (k j : String) (t : Table V)
      → lookup j (remove k t) ≡ (if str_eq k j then none else lookup j t)
  unfolding lookup remove
  lookup-remove k j [] = ground arith
  lookup-remove k j ((i, v) ∷ t) =
      ground (arith, lookup-remove k j t, eq_iff i k, eq_iff i j, eq_iff k j)

  pub lookup-put :
      (k j : String) (v : V) (t : Table V)
      → lookup j (put k v t) ≡ (if str_eq k j then some v else lookup j t)
  unfolding lookup put
  lookup-put k j v t = ground (arith, lookup-remove k j t)

  -- DELETE of the rows that fail the test
  unfoldable pub keep : (V → Bool) → Table V → Table V
  keep p [] = []
  keep p ((j, v) ∷ t) = let rest = keep p t in if p v then (j, v) ∷ rest else rest

  -- A predicate of every row; it computes to a tuple.
  abbrev pub Rows {κ} : (String → V → Type κ) → Table V → Type κ
  Rows P [] = Unit
  Rows P ((k, v) ∷ t) = P k v × Rows P t

module _ {ℓ κ} {V : Type ℓ} (P : String → V → Type κ) where
  pub Rows-modify :
      (k : String) (f : V → V) (t : Table V)
      → ((j : String) (v : V) → P j v → P j (f v))
      → Rows P t
      → Rows P (modify k f t)
  unfolding modify
  Rows-modify k f [] h r = tt
  Rows-modify k f ((j, v) ∷ t) h r = elim (Bool-cases (str_eq j k)) [
    | inl e ↦ rw e (h j v r.0, Rows-modify k f t h r.1)
    | inr e ↦ rw e (r.0, Rows-modify k f t h r.1)
  ]

  pub Rows-keep : (p : V → Bool) (t : Table V) → Rows P t → Rows P (keep p t)
  unfolding keep
  Rows-keep p [] r = tt
  Rows-keep p ((j, v) ∷ t) r = elim (Bool-cases (p v)) [
    | inl e ↦ rw e (r.0, Rows-keep p t r.1)
    | inr e ↦ rw e (Rows-keep p t r.1)
  ]

  -- What a DELETE's negated test says of a row, every row that is left satisfies.
  pub Rows-of_keep :
      (p : V → Bool) (t : Table V) → ((k : String) (v : V) → p v ≡ true → P k v) → Rows P (keep p t)
  unfolding keep
  Rows-of_keep p [] h = tt
  Rows-of_keep p ((j, v) ∷ t) h = elim (Bool-cases (p v)) [
    | inl e ↦ rw e (h j v e, Rows-of_keep p t h)
    | inr e ↦ rw e (Rows-of_keep p t h)
  ]

  pub Rows-remove : (k : String) (t : Table V) → Rows P t → Rows P (remove k t)
  unfolding remove
  Rows-remove k [] r = tt
  Rows-remove k ((j, v) ∷ t) r = elim (Bool-cases (str_eq j k)) [
    | inl e ↦ rw e (Rows-remove k t r.1)
    | inr e ↦ rw e (r.0, Rows-remove k t r.1)
  ]

  pub Rows-put : (k : String) (v : V) (t : Table V) → P k v → Rows P t → Rows P (put k v t)
  unfolding put
  Rows-put k v t h r = (h, Rows-remove k t r)

  -- What every row satisfies, the row that is found satisfies.
  pub lookup-Rows : (k : String) (t : Table V) {v : V} → Rows P t → lookup k t ≡ some v → P k v
  unfolding lookup
  lookup-Rows k [] r e = cc
  lookup-Rows k ((j, w) ∷ t) {v} r e = elim (Bool-cases (str_eq j k)) [
    | inl m ↦ subst₂ P ((eq_iff j k).0 m) (ground arith) r.0
    | inr m ↦ lookup-Rows k t r.1 (ground arith)
  ]

  -- An UPDATE makes a predicate of the key's rows true.
  pub Rows-of_modify :
      (k : String) (f : V → V) (t : Table V)
      → ((v : V) → P k (f v))
      → ((j : String) (v : V) → j ≢ k → P j v)
      → Rows P (modify k f t)
  unfolding modify
  Rows-of_modify k f [] h g = tt
  Rows-of_modify k f ((j, v) ∷ t) h g = elim (Bool-cases (str_eq j k)) [
    | inl e ↦
        rw e (
          subst (λ (i : String). P i (f v)) (sym ((eq_iff j k).0 e)) (h v),
          Rows-of_modify k f t h g,
        )
    | inr e ↦ rw e (g j v (λ same. cc ((eq_iff j k).1 same)), Rows-of_modify k f t h g)
  ]

pub Rows-Unit {ℓ} : {V : Type ℓ} (t : Table V) → Rows (λ k v. Unit {0}) t
Rows-Unit [] = tt
Rows-Unit ((k, v) ∷ t) = (tt, Rows-Unit t)
