-- ===== src/Capabilities/Under.antt =====
-- Capabilities (core/domain/capability.go) that differ in what is enabled only.
use sercha_core.Base.{true, ◌≡◌, List, [], ◌∷◌, ◌++◌}
use sercha_core.Capabilities.{Capability}

-- The two differ at most in that the second has the capability enabled and the first has not.
pub record Under (o c : Capability) : Type 0 where
  pub same_type : o.type ≡ c.type
  pub same_depends : o.depends_on ≡ c.depends_on
  pub same_available : o.available ≡ c.available
  pub no_less : o.enabled ≡ true → c.enabled ≡ true

abbrev pub AllUnder : List Capability → List Capability → Type 0
AllUnder [] [] = Unit
AllUnder (o ∷ os) (c ∷ cs) = Under o c × AllUnder os cs
AllUnder _ _ = ⊥

pub AllUnder-append :
    (xs ys os cs : List Capability)
    → AllUnder xs ys
    → AllUnder os cs
    → AllUnder (xs ++ os) (ys ++ cs)
AllUnder-append [] [] os cs h k = k
AllUnder-append (x ∷ xs) (y ∷ ys) os cs h k = (h.0, AllUnder-append xs ys os cs h.1 k)
AllUnder-append [] (y ∷ ys) os cs h k = absurd h
AllUnder-append (x ∷ xs) [] os cs h k = absurd h
