-- ===== src/Capabilities/Greatest.antt =====
-- What ResolveCapabilities returns (core/domain/capability.go): the most that may be enabled.
use sercha_core.Base.{Option, none, some, List}
use sercha_core.Capabilities.{Capability}
use sercha_core.Capabilities.Under.{Under}

abbrev OptionUnder : Option Capability → Option Capability → Type 0
OptionUnder none none = Unit
OptionUnder (some o) (some c) = Under o c
OptionUnder _ _ = ⊥
