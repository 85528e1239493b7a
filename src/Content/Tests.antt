-- ===== src/Content/Tests.antt =====
-- Paths and patterns at which the theorems about core/services/content_filter.go apply.
use sercha_core.Base.{Bytes, true, ◌≡◌, ◌↔◌, ◌⊎◌, refl, [], ◌∷◌}
use sercha_core.Content.{
  slash, star, dot, same, component_from, match_folder, filename, is_folder, match_pattern,
}
use sercha_core.Content.Patterns.{IsInFolder, folder_pattern_iff}
use sercha_core.Content.Filename.{IsBase, IsGlobOf, filename-IsBase, name_pattern_iff}

-- "a/.g/b", ".g/" and "*.log"
abbrev path_in_git : Bytes
path_in_git = 97 ∷ slash ∷ dot ∷ 103 ∷ slash ∷ 98 ∷ []

abbrev git_folder : Bytes
git_folder = dot ∷ 103 ∷ slash ∷ []

abbrev logs : Bytes
logs = star ∷ dot ∷ 108 ∷ 111 ∷ 103 ∷ []

git_covers : match_pattern path_in_git git_folder ≡ true
unfolding match_pattern is_folder match_folder component_from same
git_covers = refl

folder_pattern_iff_example :
    (match_pattern path_in_git git_folder ≡ true) ↔ IsInFolder path_in_git git_folder
unfolding is_folder
folder_pattern_iff_example = folder_pattern_iff path_in_git git_folder refl

name_pattern_iff_example :
    (match_pattern path_in_git logs ≡ true)
    ↔ ((filename path_in_git ≡ logs) ⊎ IsGlobOf logs (filename path_in_git))
unfolding is_folder
name_pattern_iff_example = name_pattern_iff path_in_git logs refl

filename-IsBase_example : IsBase path_in_git (filename path_in_git)
filename-IsBase_example = filename-IsBase path_in_git
