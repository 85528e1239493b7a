-- ===== src/Content/Slices.antt =====
-- Slices of byte strings (core/services/content_filter.go) and what they say of the whole.
use sercha_core.Base.{
  Bytes, ℕ, zero, suc, true, ◌≡◌, refl, sym, ap, ◌∙◌, [], ◌∷◌, ◌++◌, length, take, drop,
  take-append-drop, arith,
}
use sercha_core.Content.{same, byte_is}

pub same→≡ : (xs ys : Bytes) → same xs ys ≡ true → xs ≡ ys
unfolding same
same→≡ [] [] h = refl
same→≡ (x ∷ xs) (y ∷ ys) h =
    ap (λ (b : ℕ). b ∷ xs) (ground arith) ∙ ap (◌∷◌ y) (same→≡ xs ys (ground arith))
same→≡ [] (y ∷ ys) h = absurd (ground arith)
same→≡ (x ∷ xs) [] h = absurd (ground arith)

pub same_self : (xs : Bytes) → same xs xs ≡ true
unfolding same
same_self [] = refl
same_self (x ∷ xs) = ground (arith, same_self xs)

pub ≡→same : (xs ys : Bytes) → xs ≡ ys → same xs ys ≡ true
≡→same xs ys e = ap (same xs) (sym e) ∙ same_self xs

pub take-append : (xs ys : Bytes) → take (length xs) (xs ++ ys) ≡ xs
take-append [] ys = refl
take-append (x ∷ xs) ys = ap (◌∷◌ x) (take-append xs ys)

pub drop-append : (xs ys : Bytes) → drop (length xs) (xs ++ ys) ≡ ys
drop-append [] ys = refl
drop-append (x ∷ xs) ys = drop-append xs ys

-- A slice that equals a string splits what it was cut from.
pub split_prefix : (p xs : Bytes) → take (length p) xs ≡ p → xs ≡ p ++ drop (length p) xs
split_prefix p xs e =
    sym (take-append-drop (length p) xs) ∙ ap (λ (t : Bytes). t ++ drop (length p) xs) e

-- Splitting a string at a byte of it.
pub split_byte :
    (xs : Bytes) (i b : ℕ) → byte_is xs i b ≡ true → xs ≡ (take i xs ++ (b ∷ [])) ++ drop (suc i) xs
split_byte [] zero b h = absurd (ground arith)
split_byte [] (suc i) b h = absurd (ground arith)
split_byte (x ∷ xs) zero b h = ap (λ (y : ℕ). y ∷ xs) (ground arith)
split_byte (x ∷ xs) (suc i) b h = ap (◌∷◌ x) (split_byte xs i b h)

pub byte_between : (xs ys : Bytes) (b : ℕ) → byte_is ((xs ++ (b ∷ [])) ++ ys) (length xs) b ≡ true
byte_between [] ys b = ground arith
byte_between (x ∷ xs) ys b = byte_between xs ys b

pub drop_past : (xs ys : Bytes) (b : ℕ) → drop (suc (length xs)) ((xs ++ (b ∷ [])) ++ ys) ≡ ys
drop_past [] ys b = refl
drop_past (x ∷ xs) ys b = drop_past xs ys b
