-- ===== src/Content.antt =====
-- matchPattern of core/services/content_filter.go: which paths an exclusion pattern covers. A Go
-- string is the list of its bytes.
pub mod Slices
pub mod Patterns
pub mod Filename
mod Tests
use sercha_core.Base.{
  Bytes, head_is, ℕ, zero, suc, ◌+◌, ◌-◌, Bool, true, false, not, ◌&&◌, ◌||◌, Option, none, some,
  List, [], ◌∷◌, length, take, drop, ltb, leb, ◌==◌, if◌then◌else◌,
}

abbrev pub slash : ℕ
slash = 0x2f

abbrev pub star : ℕ
star = 0x2a

abbrev pub dot : ℕ
dot = 0x2e

-- `==` of two strings
unfoldable pub same : Bytes → Bytes → Bool
same [] [] = true
same (x ∷ xs) (y ∷ ys) = x == y && same xs ys
same _ _ = false

-- s[i] == b, for an index in range
abbrev pub byte_is : Bytes → ℕ → ℕ → Bool
byte_is s i b = head_is (drop i s) b

-- path[i] == '/' && path[i+1:i+1+len(pattern)] == pattern
abbrev pub component_at : Bytes → Bytes → ℕ → Bool
component_at path pattern i =
    byte_is path i slash && same (take (length pattern) (drop (suc i) path)) pattern

-- The loop from an index on, with this many indices left.
unfoldable pub component_from : ℕ → ℕ → Bytes → Bytes → Bool
component_from zero i path pattern = false
component_from (suc left) i path pattern =
    let later = component_from left (suc i) path pattern in
    if component_at path pattern i then true else later

unfoldable pub match_folder : Bytes → Bytes → Bool
match_folder path pattern =
    if leb (length pattern) (length path) && same (take (length pattern) path) pattern
    then true
    else if ltb (length pattern) (length path)
    then component_from (length path - length pattern) 0 path pattern
    else false

-- The loop for the last slash before an index.
unfoldable pub last_slash : ℕ → Bytes → Option ℕ
last_slash zero path = none
last_slash (suc i) path =
    let earlier = last_slash i path in if byte_is path i slash then some i else earlier

abbrev pub after_slash : Bytes → Option ℕ → Bytes
after_slash path none = path
after_slash path (some i) = drop (suc i) path

unfoldable pub filename : Bytes → Bytes
filename path = after_slash path (last_slash (length path) path)

-- filename[len(filename)-len(ext):] == ext
unfoldable pub has_extension : Bytes → Bytes → Bool
has_extension name ext =
    leb (length ext) (length name) && same (drop (length name - length ext) name) ext

unfoldable pub is_glob : Bytes → Bool
is_glob pattern = ltb 2 (length pattern) && (byte_is pattern 0 star && byte_is pattern 1 dot)

unfoldable pub is_folder : Bytes → Bool
is_folder pattern = ltb 0 (length pattern) && byte_is pattern (length pattern - 1) slash

unfoldable pub match_pattern : Bytes → Bytes → Bool
match_pattern path pattern =
    if is_folder pattern
    then match_folder path pattern
    else if same (filename path) pattern
    then true
    else is_glob pattern && has_extension (filename path) (drop 1 pattern)

unfoldable pub matches_exclusion_pattern : Bytes → List Bytes → Bool
matches_exclusion_pattern path [] = false
matches_exclusion_pattern path (p ∷ patterns) =
    let later = matches_exclusion_pattern path patterns in
    if match_pattern path p then true else later
