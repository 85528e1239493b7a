-- ===== src/Content/Filename.antt =====
-- What the other patterns of matchPattern (core/services/content_filter.go) cover: a name, or "*." and
-- an ending.
use mathlib.Core.Path.{subst}
use sercha_core.Base.{
  Bytes, ℕ, zero, suc, ◌-◌, ◌≤◌, ◌<◌, Bool, true, false, ◌&&◌, ◌≡◌, ◌⊎◌, ◌↔◌, refl, sym, ap, ◌∙◌,
  inl, inr, none, some, [], ◌∷◌, ◌++◌, length, length-append, take, drop, take-append-drop, leb,
  ◌==◌, ==_iff, Bool-cases, Option-cases, le→leb, arith,
}
use sercha_core.Content.{
  slash, star, dot, same, byte_is, last_slash, filename, has_extension, is_glob, is_folder,
  match_pattern,
}
use sercha_core.Content.Slices.{same→≡, ≡→same, drop-append, split_byte}

both : (a b : Bool) → a ≡ true → b ≡ true → (a && b) ≡ true
both a b h k = ground arith

-- No byte of the string is a slash.
abbrev pub NoSlash : Bytes → Type 0
NoSlash [] = Unit
NoSlash (x ∷ xs) = ((x == slash) ≡ false) × NoSlash xs

-- The string is the path's last component: what follows its last slash, all of it without one.
abbrev pub IsBase : Bytes → Bytes → Type 0
IsBase path name =
    NoSlash name × ((name ≡ path) ⊎ ((before : Bytes) × (path ≡ (before ++ (slash ∷ [])) ++ name)))

NoSlash-from :
    (path : Bytes) (i : ℕ)
    → ((j : ℕ) → i ≤ j → byte_is path j slash ≡ false)
    → NoSlash (drop i path)
NoSlash-from [] zero h = tt
NoSlash-from [] (suc i) h = tt
NoSlash-from (x ∷ path) zero h =
    (h 0 (ground arith), NoSlash-from path zero (λ j k. h (suc j) (ground arith)))
NoSlash-from (x ∷ path) (suc i) h = NoSlash-from path i (λ j k. h (suc j) (omega (arith, k)))

byte_past : (path : Bytes) (j : ℕ) → length path ≤ j → byte_is path j slash ≡ false
byte_past [] zero h = refl
byte_past [] (suc j) h = refl
byte_past (x ∷ path) zero h = absurd (ground arith)
byte_past (x ∷ path) (suc j) h = byte_past path j (omega (arith, h))

step_down :
    (path : Bytes) (i : ℕ)
    → byte_is path i slash ≡ false
    → ((j : ℕ) → suc i ≤ j → byte_is path j slash ≡ false)
    → (j : ℕ) → i ≤ j
    → byte_is path j slash ≡ false
step_down path i not_here k j h = elim (Bool-cases (i == j)) [
  | inl e ↦ subst (λ (n : ℕ). byte_is path n slash ≡ false) ((==_iff i j).0 e) not_here
  | inr ne ↦ k j (ground arith)
]

-- The last slash before an index: none is further on.
last_slash-none :
    (i : ℕ) (path : Bytes)
    → last_slash i path ≡ none
    → ((j : ℕ) → i ≤ j → byte_is path j slash ≡ false)
    → (j : ℕ) → byte_is path j slash ≡ false
unfolding last_slash
last_slash-none zero path h k j = k j (ground arith)
last_slash-none (suc i) path h k j = elim (Bool-cases (byte_is path i slash)) [
  | inl here ↦ absurd (ground arith)
  | inr not_here ↦ last_slash-none i path (ground arith) (step_down path i not_here k) j
]

last_slash-some :
    (i : ℕ) (path : Bytes) {n : ℕ}
    → last_slash i path ≡ some n
    → ((j : ℕ) → i ≤ j → byte_is path j slash ≡ false)
    → (byte_is path n slash ≡ true) × ((j : ℕ) → suc n ≤ j → byte_is path j slash ≡ false)
unfolding last_slash
last_slash-some zero path h k = absurd (ground arith)
last_slash-some (suc i) path {n} h k = elim (Bool-cases (byte_is path i slash)) [
  | inl here ↦
      subst
        (λ (m : ℕ).
          (byte_is path m slash ≡ true) × ((j : ℕ) → suc m ≤ j → byte_is path j slash ≡ false))
        (ground arith) (here, k)
  | inr not_here ↦ last_slash-some i path {n = n} (ground arith) (step_down path i not_here k)
]

-- The name that matchPattern takes from a path has no slash and is the path, or what follows a slash
-- of it to its end.
pub filename-IsBase : (path : Bytes) → IsBase path (filename path)
unfolding filename
filename-IsBase path = elim (Option-cases (last_slash (length path) path)) [
  | inl nowhere ↦ rw nowhere (
    NoSlash-from path 0
        (λ j h. last_slash-none (length path) path nowhere (λ i k. byte_past path i k) j),
    inl refl,
  )
  | inr (n, there) ↦
      let (here, past) =
        last_slash-some (length path) path {n = n} there (λ i k. byte_past path i k) in
      rw there (NoSlash-from path (suc n) past, inr (take n path, split_byte path n slash here))
]

-- The name ends with the ending.
abbrev pub EndsWith : Bytes → Bytes → Type 0
EndsWith name ext = (stem : Bytes) × (name ≡ stem ++ ext)

has_extension-EndsWith : (name ext : Bytes) → has_extension name ext ≡ true → EndsWith name ext
unfolding has_extension
has_extension-EndsWith name ext h =
    let k = length name - length ext in
    (
      take k name,
      sym (take-append-drop k name)
          ∙ ap (λ (t : Bytes). take k name ++ t) (same→≡ (drop k name) ext (ground arith)),
    )

ending_found : (stem ext : Bytes) → has_extension (stem ++ ext) ext ≡ true
unfolding has_extension
ending_found stem ext =
    let name = stem ++ ext in
    let long = length-append stem ext in
    let at_stem : length name - length ext ≡ length stem = omega (arith, long) in
    both (leb (length ext) (length name)) _
      (le→leb (length ext) (length name) (omega (arith, long)))
      (≡→same _ ext (ap (λ (k : ℕ). drop k name) at_stem ∙ drop-append stem ext))

-- The pattern is "*." and an ending of at least one byte, and the name ends with the dot and it.
abbrev pub IsGlobOf : Bytes → Bytes → Type 0
IsGlobOf pattern name =
    (rest : Bytes) × (pattern ≡ star ∷ (dot ∷ rest))
    × (0 < length rest)
    × EndsWith name (dot ∷ rest)

glob_shape :
    (pattern : Bytes)
    → is_glob pattern ≡ true
    → (rest : Bytes) × (pattern ≡ star ∷ (dot ∷ rest)) × (0 < length rest)
unfolding is_glob
glob_shape [] h = absurd (ground arith)
glob_shape (x ∷ []) h = absurd (ground arith)
glob_shape (x ∷ (y ∷ rest)) h = (
  rest,
  ap (λ (b : ℕ). b ∷ (y ∷ rest)) (ground arith) ∙ ap (λ (b : ℕ). star ∷ (b ∷ rest)) (ground arith),
  ground arith,
)

is_glob_of : (rest : Bytes) → 0 < length rest → is_glob (star ∷ (dot ∷ rest)) ≡ true
unfolding is_glob
is_glob_of rest h = ground arith

other_to :
    (path pattern : Bytes)
    → is_folder pattern ≡ false
    → match_pattern path pattern ≡ true
    → (filename path ≡ pattern) ⊎ IsGlobOf pattern (filename path)
unfolding match_pattern
other_to path pattern other h = elim (Bool-cases (same (filename path) pattern)) [
  | inl equal ↦ inl (same→≡ (filename path) pattern equal)
  | inr differs ↦
      let globs : (is_glob pattern && has_extension (filename path) (drop 1 pattern)) ≡ true =
        ground arith in
      let (rest, shape, long) = glob_shape pattern (ground arith) in
      let ends = has_extension-EndsWith (filename path) (drop 1 pattern) (ground arith) in
      inr (rest, shape, long, subst (λ (p : Bytes). EndsWith (filename path) (drop 1 p)) shape ends)
]

other_from :
    (path pattern : Bytes)
    → is_folder pattern ≡ false
    → (filename path ≡ pattern) ⊎ IsGlobOf pattern (filename path)
    → match_pattern path pattern ≡ true
unfolding match_pattern
other_from path pattern other (inl e) = let equal = ≡→same (filename path) pattern e in ground arith
other_from path pattern other (inr (rest, shape, long, (stem, ends))) =
    let globs : is_glob pattern ≡ true = ap is_glob shape ∙ is_glob_of rest long in
    let matches : has_extension (filename path) (drop 1 pattern) ≡ true =
      ap (has_extension (filename path)) (ap (λ (p : Bytes). drop 1 p) shape)
      ∙ (ap (λ (n : Bytes). has_extension n (dot ∷ rest)) ends ∙ ending_found stem (dot ∷ rest)) in
    ground arith

-- A pattern that does not end with a slash covers exactly the paths whose name it is, and where it is
-- "*." and an ending those whose name ends with the dot and the ending.
pub name_pattern_iff :
    (path pattern : Bytes)
    → is_folder pattern ≡ false
    → (match_pattern path pattern ≡ true)
      ↔ ((filename path ≡ pattern) ⊎ IsGlobOf pattern (filename path))
name_pattern_iff path pattern other = (other_to path pattern other, other_from path pattern other)
