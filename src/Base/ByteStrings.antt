-- ===== src/Base/ByteStrings.antt =====
-- A Go string as the list of its bytes.
use Prim.Native.Nat.{ℕ}
use mathlib.Core.Bool.{Bool, false}
use mathlib.Core.List.{List, [], ◌∷◌}
use sercha_core.Base.Tests.{◌==◌}

abbrev pub Bytes : Type 0
Bytes = List ℕ

abbrev pub head_is : Bytes → ℕ → Bool
head_is [] b = false
head_is (x ∷ xs) b = x == b
