-- ===== src/Capabilities.antt =====
-- core/domain/capability.go: what a team may use, from what is registered, what is available and what
-- the team has turned on.
mod Loop
mod Under
mod Reduced
pub mod Settled
pub mod Greatest
mod Tests
use sercha_core.Base.{
  ℕ, zero, suc, String, Bool, true, false, not, ◌&&◌, ◌||◌, Option, none, some, List, [], ◌∷◌, ◌++◌,
  Table, lookup, length, str_eq, if◌then◌else◌,
}

pub data PipelinePhase : Type 0 where
  indexing search : PipelinePhase

pub record CapabilityDescriptor : Type 0 where
  pub type : String
  pub display_name : String
  pub description : String
  pub phase : PipelinePhase
  pub backend_id : String
  pub depends_on : List String
  pub grants : List String
  pub default_enabled : Bool

pub record Capability : Type 0 where
  pub type : String
  pub display_name : String
  pub description : String
  pub phase : PipelinePhase
  pub backend_id : String
  pub depends_on : List String
  pub grants : List String
  pub available : Bool
  pub enabled : Bool

unfoldable pub is_active : Capability → Bool
is_active c = c.available && c.enabled

pub record CapabilityPreferences : Type 0 where
  pub team_id : String
  pub toggles : Table Bool
  pub updated_at : ℕ

abbrev pub bool_or : Bool → Option Bool → Bool
bool_or d none = d
bool_or d (some b) = b

-- The team's toggle, or the default where it has none. No preferences (nil) have no toggles.
unfoldable pub is_enabled : Option CapabilityPreferences → String → Bool → Bool
is_enabled none t fallback = fallback
is_enabled (some p) t fallback = bool_or fallback (lookup t p.toggles)

-- First pass: a type that is not in the map of available ones is not available.
unfoldable pub unresolved :
    Table Bool → Option CapabilityPreferences → CapabilityDescriptor → Capability
unresolved available prefs d = record {
  type = d.type;
  display_name = d.display_name;
  description = d.description;
  phase = d.phase;
  backend_id = d.backend_id;
  depends_on = d.depends_on;
  grants = d.grants;
  available = bool_or false (lookup d.type available);
  enabled = is_enabled prefs d.type d.default_enabled;
}

unfoldable pub unresolved_all :
    Table Bool → Option CapabilityPreferences → List CapabilityDescriptor → List Capability
unresolved_all available prefs [] = []
unresolved_all available prefs (d ∷ ds) =
    unresolved available prefs d ∷ unresolved_all available prefs ds

abbrev pub last_or : Option Capability → Capability → String → Option Capability
last_or (some d) c t = some d
last_or none c t = if str_eq c.type t then some c else none

-- byType: of two descriptors with one type, the map has the later one.
unfoldable pub by_type : List Capability → String → Option Capability
by_type [] t = none
by_type (c ∷ caps) t = last_or (by_type caps t) c t

abbrev pub is_off : Option Capability → Bool
is_off none = false
is_off (some c) = not (is_active c)

-- Some dependency is registered and not active.
unfoldable pub blocked : List Capability → List String → Bool
blocked caps [] = false
blocked caps (dep ∷ deps) = if is_off (by_type caps dep) then true else blocked caps deps

abbrev pub disabled_if : Bool → Capability → Capability
disabled_if true c = record c { enabled = false }
disabled_if false c = c

-- One run of the inner loop: the capabilities that it has passed, those ahead, and then all of them
-- and whether one was disabled. A capability that it disables is so for those ahead.
unfoldable pub sweep : List Capability → List Capability → List Capability × Bool
sweep done [] = (done, false)
sweep done (c ∷ rest) =
    let stop = c.enabled && blocked (done ++ (c ∷ rest)) c.depends_on in
    let (caps, changed) = sweep (done ++ (disabled_if stop c ∷ [])) rest in (caps, stop || changed)

-- The outer loop: until a run changes nothing.
unfoldable pub cascade : ℕ → List Capability → List Capability
cascade zero caps = caps
cascade (suc fuel) caps =
    let (next, changed) = sweep [] caps in
    let again = cascade fuel next in if changed then again else next

-- Each run but the last disables a capability.
unfoldable pub resolve_capabilities :
    List CapabilityDescriptor → Table Bool → Option CapabilityPreferences → List Capability
resolve_capabilities descriptors available prefs =
    let caps = unresolved_all available prefs descriptors in cascade (suc (length caps)) caps
