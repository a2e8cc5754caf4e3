-- ===== src/Base/Values.antt =====
-- The values that stand in the program's JSON documents (`dict[str, Any]`): proposal parameters,
-- evidence payloads.
use Prim.Native.Nat.{ℕ}
use Prim.Native.String.{String}
use mathlib.Core.Bool.{Bool}
use mathlib.Core.List.{List}

-- `int n` is a whole number that is not negative. `other n` is any other value (a negative or
-- fractional number, an array, an object), by a number that equal values share.
pub data Value : Type 0 where
  null : Value
  flag : Bool → Value
  int : ℕ → Value
  text : String → Value
  other : ℕ → Value

abbrev pub Document : Type 0
Document = List (String × Value)
