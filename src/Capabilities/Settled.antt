-- ===== src/Capabilities/Settled.antt =====
-- What ResolveCapabilities returns (core/domain/capability.go): nothing enabled rests on what is not
-- active, and only `enabled` has changed.
use mathlib.Core.List.{append-nil}
use mathlib.Core.Path.{subst}
use sercha_core.Base.{
  ℕ, zero, suc, Bool, true, false, ◌&&◌, ◌≡◌, refl, ap, sym, ◌∙◌, inl, inr, Option, List, [], ◌∷◌,
  ◌++◌, All, Table, length, Bool-cases, arith,
}
use sercha_core.Capabilities.{
  Capability, CapabilityDescriptor, CapabilityPreferences, blocked, disabled_if, sweep, cascade,
  unresolved_all, resolve_capabilities,
}
use sercha_core.Capabilities.Loop.{IsSettled, append_step, cascade-IsSettled, enabled_count_le}
use sercha_core.Capabilities.Reduced.{Reduced, AllReduced, AllReduced-append}

shrunk : (stop : Bool) (c o : Capability) → Reduced c o → Reduced (disabled_if stop c) o
shrunk false c o u = u
shrunk true c o u = record {
  same = ap (λ (x : Capability). record x { enabled = false }) u.same;
  no_less = λ e. absurd (ground arith);
}

sweep-shrinks :
    (all before ahead done rest : List Capability)
    → before ++ ahead ≡ all
    → AllReduced done before
    → AllReduced rest ahead
    → AllReduced (sweep done rest).0 all
unfolding sweep
sweep-shrinks all before [] done [] e h k = subst (AllReduced done) (sym (append-nil before) ∙ e) h
sweep-shrinks all before (o ∷ ahead) done (c ∷ rest) e h k =
    let stop = c.enabled && blocked (done ++ (c ∷ rest)) c.depends_on in
    sweep-shrinks all (before ++ (o ∷ [])) ahead (done ++ (disabled_if stop c ∷ [])) rest
      (append_step before o ahead ∙ e)
      (AllReduced-append done before (disabled_if stop c ∷ []) (o ∷ []) h (shrunk stop c o k.0, tt))
      k.1
sweep-shrinks all before [] done (c ∷ rest) e h k = absurd k
sweep-shrinks all before (o ∷ ahead) done [] e h k = absurd k

cascade-shrinks :
    (fuel : ℕ) (all caps : List Capability)
    → AllReduced caps all
    → AllReduced (cascade fuel caps) all
unfolding cascade
cascade-shrinks zero all caps h = h
cascade-shrinks (suc fuel) all caps h =
    let next = sweep-shrinks all [] all [] caps refl tt h in
    elim (Bool-cases (sweep [] caps).1) [
      | inl changed ↦ rw changed (cascade-shrinks fuel all (sweep [] caps).0 next)
      | inr settled ↦ rw settled next
    ]

AllReduced-self : (caps : List Capability) → AllReduced caps caps
AllReduced-self [] = tt
AllReduced-self (c ∷ caps) = (record { same = refl; no_less = λ e. e }, AllReduced-self caps)

-- ResolveCapabilities ends with as many capabilities as there are descriptors, in their order, each of
-- them as the first pass made it in every field but `enabled`, and none enabled that was not; and each one that is enabled has none but active ones among its registered dependencies.
pub resolve_capabilities-IsSettled :
    (descriptors : List CapabilityDescriptor) (available : Table Bool)
    (prefs : Option CapabilityPreferences)
    → AllReduced
        (resolve_capabilities descriptors available prefs)
        (unresolved_all available prefs descriptors)
      × All
          (IsSettled (resolve_capabilities descriptors available prefs))
          (resolve_capabilities descriptors available prefs)
unfolding resolve_capabilities
resolve_capabilities-IsSettled descriptors available prefs =
    let caps = unresolved_all available prefs descriptors in
    (
      cascade-shrinks (suc (length caps)) caps caps (AllReduced-self caps),
      cascade-IsSettled (suc (length caps)) caps (omega (arith, enabled_count_le caps)),
    )
