-- ===== src/OAuth/Scopes.antt =====
-- The scope strings of core/domain/oauth_server.go: strings.Join with a space, which writes the
-- scope of a token, and strings.Fields, which reads it back.
pub mod Roundtrip
use Prim.Native.Char.{code}
use Prim.Native.String.{◌++◌}
use sercha_core.Base.{ℕ, String, Bool, ◌||◌, ◌&&◌, List, [], ◌∷◌, leb, ◌==◌, str_eq, if◌then◌else◌}

-- unicode.IsSpace
unfoldable pub is_space : ℕ → Bool
is_space c =
    leb 9 c && leb c 13
    || (leb 0x2000 c && leb c 0x200a
        || (c == 32
            || (c == 0x85
                || (c == 0xa0
                    || (c == 0x1680
                        || (c == 0x2028
                            || (c == 0x2029 || (c == 0x202f || (c == 0x205f || c == 0x3000)))))))))

abbrev pub add_word : String → List String → List String
add_word String.[] words = words
add_word (String.◌∷◌ c w) words = (String.◌∷◌ c w) ∷ words

-- The word that the text begins with, "" where it begins with a space, and the words after it.
unfoldable pub scan : String → String × List String
scan String.[] = (String.[], [])
scan (String.◌∷◌ c s) =
    let (w, words) = scan s in
    if is_space (code c) then (String.[], add_word w words) else (String.◌∷◌ c w, words)

-- strings.Fields
unfoldable pub fields : String → List String
unfolding scan
fields s = let (w, words) = scan s in add_word w words

-- strings.Join(words, " ")
unfoldable pub join : List String → String
join [] = ""
join (w ∷ []) = w
join (w ∷ v ∷ words) = w ++ (" " ++ join (v ∷ words))

-- ParseScopes of an authorization request
unfoldable pub parse_scopes : String → List String
parse_scopes scope = if str_eq scope "" then [] else fields scope
