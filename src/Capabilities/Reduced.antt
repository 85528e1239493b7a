-- ===== src/Capabilities/Reduced.antt =====
-- Capabilities (core/domain/capability.go) that a run of the cascade may have disabled.
use sercha_core.Base.{true, ◌≡◌, List, [], ◌∷◌, ◌++◌}
use sercha_core.Capabilities.{Capability}

-- The first is the second in every field but `enabled`, and enabled only if the second is.
pub record Reduced (o c : Capability) : Type 0 where
  pub same : o ≡ record c { enabled = o.enabled }
  pub no_less : o.enabled ≡ true → c.enabled ≡ true

abbrev pub AllReduced : List Capability → List Capability → Type 0
AllReduced [] [] = Unit
AllReduced (o ∷ os) (c ∷ cs) = Reduced o c × AllReduced os cs
AllReduced _ _ = ⊥

pub AllReduced-append :
    (xs ys os cs : List Capability)
    → AllReduced xs ys
    → AllReduced os cs
    → AllReduced (xs ++ os) (ys ++ cs)
AllReduced-append [] [] os cs h k = k
AllReduced-append (x ∷ xs) (y ∷ ys) os cs h k = (h.0, AllReduced-append xs ys os cs h.1 k)
AllReduced-append [] (y ∷ ys) os cs h k = absurd h
AllReduced-append (x ∷ xs) [] os cs h k = absurd h
