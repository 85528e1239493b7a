-- ===== src/Capabilities/Tests.antt =====
-- Capabilities at which the theorems about core/domain/capability.go apply: search needs an index that
-- the team has turned off, and rewriting needs search.
use sercha_core.Base.{
  String, Bool, true, false, ◌≡◌, refl, Option, some, List, [], ◌∷◌, All, lookup,
}
use sercha_core.Capabilities.{
  CapabilityDescriptor, CapabilityPreferences, Capability, PipelinePhase, is_active, is_enabled,
  by_type, blocked, sweep, cascade, unresolved, unresolved_all, resolve_capabilities,
}
use sercha_core.Capabilities.Loop.{IsSettled}
use sercha_core.Capabilities.Reduced.{AllReduced}
use sercha_core.Capabilities.Settled.{resolve_capabilities-IsSettled}

abbrev described : String → List String → CapabilityDescriptor
described type depends_on = record {
  type = type;
  display_name = type;
  description = "";
  phase = PipelinePhase.search;
  backend_id = "";
  depends_on = depends_on;
  grants = [];
  default_enabled = true;
}

abbrev three : List CapabilityDescriptor
three =
    described "rewriting" ("search" ∷ [])
    ∷ described "search" ("index" ∷ [])
    ∷ described "index" []
    ∷ []

abbrev turned_off : Option CapabilityPreferences
turned_off = some (record { team_id = "team"; toggles = ("index", false) ∷ []; updated_at = 0 })

abbrev all_there : List (String × Bool)
all_there = ("rewriting", true) ∷ ("search", true) ∷ ("index", true) ∷ []

abbrev resolved : List Capability
resolved = resolve_capabilities three all_there turned_off

-- The chain is walked from its end, whatever the order of the descriptors.
chain-disabled : All (λ (c : Capability). c.enabled ≡ false) resolved
unfolding resolve_capabilities unresolved_all unresolved is_enabled lookup cascade sweep blocked
    by_type is_active
chain-disabled = (refl, (refl, (refl, tt)))

resolve_capabilities-IsSettled_example :
    AllReduced
      (resolve_capabilities three all_there turned_off)
      (unresolved_all all_there turned_off three)
    × All
        (IsSettled (resolve_capabilities three all_there turned_off))
        (resolve_capabilities three all_there turned_off)
resolve_capabilities-IsSettled_example = resolve_capabilities-IsSettled three all_there turned_off

abbrev on : String → List String → Capability
on type depends_on = record {
  type = type;
  display_name = type;
  description = "";
  phase = PipelinePhase.search;
  backend_id = "";
  depends_on = depends_on;
  grants = [];
  available = true;
  enabled = true;
}

abbrev all_on : List Capability
all_on = on "rewriting" ("search" ∷ []) ∷ on "search" ("index" ∷ []) ∷ on "index" [] ∷ []
