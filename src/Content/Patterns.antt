-- ===== src/Content/Patterns.antt =====
-- What the folder patterns of matchPattern (core/services/content_filter.go) cover.
use sercha_core.Base.{
  Bytes, ℕ, zero, suc, ◌+◌, ◌-◌, ◌≤◌, ◌<◌, Bool, true, false, ◌&&◌, ◌≡◌, ◌⊎◌, ◌↔◌, refl, ap, ◌∙◌,
  inl, inr, [], ◌∷◌, ◌++◌, length, length-append, take, drop, ltb, leb, ◌==◌, ==_iff, le→leb,
  lt→ltb, Bool-cases, arith, if◌then◌else◌,
}
use sercha_core.Content.{
  slash, same, component_at, component_from, match_folder, is_folder, match_pattern,
}
use sercha_core.Content.Slices.{
  same→≡, ≡→same, take-append, split_prefix, split_byte, byte_between, drop_past,
}

-- The path starts with the pattern, or has it right behind a slash.
abbrev pub IsInFolder : Bytes → Bytes → Type 0
IsInFolder path pattern =
    ((after : Bytes) × (path ≡ pattern ++ after))
    ⊎ ((before : Bytes) × (after : Bytes) × (path ≡ (before ++ (slash ∷ [])) ++ (pattern ++ after)))

component_found :
    (left i : ℕ) (path pattern : Bytes)
    → component_from left i path pattern ≡ true
    → (j : ℕ) × (component_at path pattern j ≡ true)
unfolding component_from
component_found zero i path pattern h = absurd (ground arith)
component_found (suc left) i path pattern h = elim (Bool-cases (component_at path pattern i)) [
  | inl here ↦ (i, here)
  | inr not_here ↦ component_found left (suc i) path pattern (ground arith)
]

moved_on :
    (i j : ℕ) (path pattern : Bytes)
    → i ≤ j
    → component_at path pattern i ≡ false
    → component_at path pattern j ≡ true
    → suc i ≤ j
moved_on i j path pattern h not_here there = elim (Bool-cases (i == j)) [
  | inl e ↦
      let same_place = ap (component_at path pattern) ((==_iff i j).0 e) in absurd (ground arith)
  | inr ne ↦ ground arith
]

find_component :
    (left i j : ℕ) (path pattern : Bytes)
    → i ≤ j
    → j < i + left
    → component_at path pattern j ≡ true
    → component_from left i path pattern ≡ true
unfolding component_from
find_component zero i j path pattern h k there = absurd (ground arith)
find_component (suc left) i j path pattern h k there =
    elim (Bool-cases (component_at path pattern i)) [
      | inl here ↦ rw here refl
      | inr not_here ↦
          let further = moved_on i j path pattern h not_here there in
          rw not_here (find_component left (suc i) j path pattern further (omega (arith, k)) there)
    ]

both : (a b : Bool) → a ≡ true → b ≡ true → (a && b) ≡ true
both a b h k = ground arith

-- The three outcomes of the folder test.
by_prefix : (a b c : Bool) → a ≡ true → (if a then true else if b then c else false) ≡ true
by_prefix a b c h = ground arith

by_component :
    (a b c : Bool) → b ≡ true → c ≡ true → (if a then true else if b then c else false) ≡ true
by_component a b c h k = ground arith

by_loop :
    (a b c : Bool) → (if a then true else if b then c else false) ≡ true → a ≡ false → c ≡ true
by_loop a b c h k = ground arith

length_path :
    (before after pattern : Bytes)
    → length ((before ++ (slash ∷ [])) ++ (pattern ++ after))
      ≡ length before + 1 + (length pattern + length after)
length_path before after pattern = omega (
  arith,
  length-append (before ++ (slash ∷ [])) (pattern ++ after),
  length-append before (slash ∷ []),
  length-append pattern after,
)

prefix_gives :
    (path pattern : Bytes)
    → (leb (length pattern) (length path) && same (take (length pattern) path) pattern) ≡ true
    → IsInFolder path pattern
prefix_gives path pattern h = inl (
  drop (length pattern) path,
  split_prefix pattern path (same→≡ (take (length pattern) path) pattern (ground arith)),
)

component_gives :
    (path pattern : Bytes) (j : ℕ) → component_at path pattern j ≡ true → IsInFolder path pattern
component_gives path pattern j h =
    let rest = drop (suc j) path in
    let n = length pattern in
    inr (
      take j path,
      drop n rest,
      split_byte path j slash (ground arith)
          ∙ ap (λ (t : Bytes). (take j path ++ (slash ∷ [])) ++ t)
              (split_prefix pattern rest (same→≡ (take n rest) pattern (ground arith))),
    )

match_folder-IsInFolder :
    (path pattern : Bytes) → match_folder path pattern ≡ true → IsInFolder path pattern
unfolding match_folder
match_folder-IsInFolder path pattern h =
    elim (Bool-cases
      (leb (length pattern) (length path) && same (take (length pattern) path) pattern)) [
        | inl starts ↦ prefix_gives path pattern starts
        | inr other ↦
            let found : component_from (length path - length pattern) 0 path pattern ≡ true =
              by_loop _ _ _ h other in
            let (j, here) = component_found (length path - length pattern) 0 path pattern found in
            component_gives path pattern j here
      ]

prefix_matches : (after pattern : Bytes) → match_folder (pattern ++ after) pattern ≡ true
unfolding match_folder
prefix_matches after pattern =
    let path = pattern ++ after in
    by_prefix _ (ltb (length pattern) (length path))
      (component_from (length path - length pattern) 0 path pattern)
      (both _ _
        (le→leb (length pattern) (length (pattern ++ after))
          (omega (arith, length-append pattern after)))
        (≡→same _ pattern (take-append pattern after)))

component_matches :
    (before after pattern : Bytes)
    → match_folder ((before ++ (slash ∷ [])) ++ (pattern ++ after)) pattern ≡ true
unfolding match_folder
component_matches before after pattern =
    let path = (before ++ (slash ∷ [])) ++ (pattern ++ after) in
    let there : component_at path pattern (length before) ≡ true =
      both _ _ (byte_between before (pattern ++ after) slash) (
        ≡→same _ pattern (
          ap (take (length pattern)) (drop_past before (pattern ++ after) slash)
          ∙ take-append pattern after)) in
    let long = length_path before after pattern in
    by_component _ _ _ (lt→ltb (length pattern) (length path) (omega (arith, long))) (
      find_component (length path - length pattern) 0 (length before) path pattern (omega arith)
        (omega (arith, long)) there)

match_folder_iff :
    (path pattern : Bytes) → (match_folder path pattern ≡ true) ↔ IsInFolder path pattern
match_folder_iff path pattern = (
  match_folder-IsInFolder path pattern,
  λ h. elim h [
    | inl (after, e) ↦ ap (λ (p : Bytes). match_folder p pattern) e ∙ prefix_matches after pattern
    | inr (before, after, e) ↦
        ap (λ (p : Bytes). match_folder p pattern) e ∙ component_matches before after pattern
  ],
)

-- A pattern that ends with a slash covers exactly the paths that start with it or have it right
-- behind a slash.
pub folder_pattern_iff :
    (path pattern : Bytes)
    → is_folder pattern ≡ true
    → (match_pattern path pattern ≡ true) ↔ IsInFolder path pattern
unfolding match_pattern
folder_pattern_iff path pattern h = rw h (match_folder_iff path pattern)
