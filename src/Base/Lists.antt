-- ===== src/Base/Lists.antt =====
-- Lists measured by native numbers, with Boolean membership and predicates by recursion.
use Prim.Native.Nat.{ℕ, zero, suc, ◌+◌, ◌-◌, min}
use mathlib.Core.Path.{◌≡◌, refl, ap}
use mathlib.Core.Bool.{Bool, true, false}
use mathlib.Core.List.{List, [], ◌∷◌, ◌++◌}
use native.Mathlib.Omega.{arith}
use Prim.Native.String.{String}
use text.Mathlib.Text.{◌==◌ as str_eq}
use text.Mathlib.TextEquality.{eq_iff}
use sercha_core.Base.Tests.{if◌then◌else◌}

module _ {ℓ} {A : Type ℓ} where
  abbrev pub length : List A → ℕ
  length [] = 0
  length (x ∷ xs) = suc (length xs)

  pub length-append : (xs ys : List A) → length (xs ++ ys) ≡ length xs + length ys
  length-append [] ys = omega arith
  length-append (x ∷ xs) ys = omega (arith, length-append xs ys)

  abbrev pub take : ℕ → List A → List A
  take zero xs = []
  take (suc n) [] = []
  take (suc n) (x ∷ xs) = x ∷ take n xs

  abbrev pub drop : ℕ → List A → List A
  drop zero xs = xs
  drop (suc n) [] = []
  drop (suc n) (x ∷ xs) = drop n xs

  pub length-take : (n : ℕ) (xs : List A) → length (take n xs) ≡ min n (length xs)
  length-take zero xs = omega arith
  length-take (suc n) [] = omega arith
  length-take (suc n) (x ∷ xs) = omega (arith, length-take n xs)

  pub length-drop : (n : ℕ) (xs : List A) → length (drop n xs) ≡ length xs - n
  length-drop zero xs = omega arith
  length-drop (suc n) [] = omega arith
  length-drop (suc n) (x ∷ xs) = omega (arith, length-drop n xs)

  pub take-append-drop : (n : ℕ) (xs : List A) → take n xs ++ drop n xs ≡ xs
  take-append-drop zero xs = refl
  take-append-drop (suc n) [] = refl
  take-append-drop (suc n) (x ∷ xs) = ap (◌∷◌ x) (take-append-drop n xs)

  -- A predicate of every item; it computes to a tuple.
  abbrev pub All {κ} : (A → Type κ) → List A → Type κ
  All P [] = Unit
  All P (x ∷ xs) = P x × All P xs

-- The loop `for _, x := range xs { if x == a { return true } }; return false`.
unfoldable pub contains : List String → String → Bool
contains [] a = false
contains (x ∷ xs) a = if str_eq x a then true else contains xs a

-- Every item of the first list occurs in the second.
abbrev pub Within : List String → List String → Type 0
Within xs ys = All (λ x. contains ys x ≡ true) xs

pub Within-of :
    (xs ys : List String)
    → ((a : String) → contains xs a ≡ true → contains ys a ≡ true)
    → Within xs ys
unfolding contains
Within-of [] ys h = tt
Within-of (x ∷ xs) ys h =
    (h x (ground (arith, eq_iff x x)), Within-of xs ys (λ a m. h a (ground (arith, eq_iff x a))))

pub contains_of_Within :
    (xs ys : List String) (a : String) → Within xs ys → contains xs a ≡ true → contains ys a ≡ true
unfolding contains
contains_of_Within [] ys a h m = ground arith
contains_of_Within (x ∷ xs) ys a h m = ground (arith, eq_iff x a, contains_of_Within xs ys a h.1)

pub Within-trans : (xs ys zs : List String) → Within xs ys → Within ys zs → Within xs zs
Within-trans [] ys zs h k = tt
Within-trans (x ∷ xs) ys zs h k = (contains_of_Within ys zs x k h.0, Within-trans xs ys zs h.1 k)

pub Within-refl : (xs : List String) → Within xs xs
Within-refl xs = Within-of xs xs (λ a m. m)
