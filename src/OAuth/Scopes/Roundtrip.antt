-- ===== src/OAuth/Scopes/Roundtrip.antt =====
-- What strings.Join writes, strings.Fields reads back (core/domain/oauth_server.go).
use Prim.Native.Char.{Char, code}
use Prim.Native.String.{◌++◌}
use text.Mathlib.TextLemmas.{nil-append, cons-append, append-nil}
use sercha_core.Base.{
  str_eq, eq_iff, Bool-cases, inl, inr, sym, String, false, ◌≡◌, refl, ap, ◌∙◌, List, [], ◌∷◌, All,
}
use sercha_core.OAuth.Scopes.{is_space, add_word, scan, fields, join, parse_scopes}

abbrev pub NoSpace : String → Type 0
NoSpace String.[] = Unit
NoSpace (String.◌∷◌ c s) = (is_space (code c) ≡ false) × NoSpace s

abbrev pub IsWord : String → Type 0
IsWord String.[] = ⊥
IsWord (String.◌∷◌ c s) = NoSpace (String.◌∷◌ c s)

scan-append : (w t : String) → NoSpace w → scan (w ++ t) ≡ (w ++ (scan t).0, (scan t).1)
unfolding scan
scan-append String.[] t h = simp nil-append
scan-append (String.◌∷◌ c w) t h = simp (cons-append, h.0, scan-append w t h.1)

add_word-append : (w : String) (words : List String) → IsWord w → add_word w words ≡ w ∷ words
add_word-append String.[] words h = absurd h
add_word-append (String.◌∷◌ c w) words h = refl

NoSpace-of : (w : String) → IsWord w → NoSpace w
NoSpace-of String.[] h = tt
NoSpace-of (String.◌∷◌ c w) h = h

scan_word : (w : String) → NoSpace w → scan w ≡ (w, [])
unfolding scan
scan_word String.[] h = refl
scan_word (String.◌∷◌ c w) h = simp (h.0, scan_word w h.1)

space_append : (c : Char) (t : String) → (String.◌∷◌ c String.[]) ++ t ≡ String.◌∷◌ c t
space_append c t = cons-append c String.[] t ∙ ap (String.◌∷◌ c) (nil-append t)

scan-space : (t : String) → scan (" " ++ t) ≡ (String.[], fields t)
unfolding fields scan is_space
scan-space t = rw (space_append " " t)

fields_cons : (w t : String) → IsWord w → fields (w ++ (" " ++ t)) ≡ w ∷ fields t
unfolding fields
fields_cons w t h =
    ap (λ (p : String × List String). add_word p.0 p.1)
      (scan-append w (" " ++ t) (NoSpace-of w h)
        ∙ ap (λ (p : String × List String). (w ++ p.0, p.1)) (scan-space t))
    ∙ (simp append-nil (add_word-append w (fields t) h))

-- Words without spaces, joined by spaces, are read back in order.
pub fields-join : (words : List String) → All IsWord words → fields (join words) ≡ words
unfolding join
fields-join [] h = unfold fields scan in refl
fields-join (w ∷ []) h =
    unfold fields in rw (scan_word w (NoSpace-of w h.0)) (add_word-append w [] h.0)
fields-join (w ∷ v ∷ words) h =
    fields_cons w (join (v ∷ words)) h.0 ∙ ap (◌∷◌ w) (fields-join (v ∷ words) h.1)

join_empty : (words : List String) → All IsWord words → join words ≡ "" → words ≡ []
join_empty [] h e = refl
join_empty (w ∷ words) h e =
    sym (fields-join (w ∷ words) h) ∙ (ap fields e ∙ unfold fields scan in refl)

-- ParseScopes reads the words of a text that was joined.
pub parse_scopes-join : (words : List String) → All IsWord words → parse_scopes (join words) ≡ words
unfolding parse_scopes
parse_scopes-join words h = elim (Bool-cases (str_eq (join words) "")) [
  | inl empty ↦ rw empty (sym (join_empty words h ((eq_iff (join words) "").0 empty)))
  | inr text ↦ rw text (fields-join words h)
]
