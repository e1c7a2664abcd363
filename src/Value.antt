-- ===== src/Value.antt =====
-- The Python values that cross the wire: what `json` and `msgpack` build, and NumPy arrays.
pub mod Compare
use Prim.Native.Nat.{ℕ}
use Prim.Native.String.{String}
use mathlib.Core.Bool.{Bool}
use mathlib.Core.List.{List}
use mathlib.Core.Option.{Option, none, some}
use oven_multiskill_runtime.Common.Int.{ℤ}
use oven_multiskill_runtime.Common.Text.{str_eq}
use oven_multiskill_runtime.Common.Tests.{if◌then◌else◌}

-- The keys of a mapping are texts: `msgpack` is called with `strict_map_key=True`, and JSON has no
-- others. A bytes key is not distinguished from a text.
mutual
  pub data Value : Type 0 where
    null : Value
    boolean : Bool → Value
    integer : ℤ → Value
    -- A `float`, by its printed form.
    floating : String → Value
    text : String → Value
    binary : List ℕ → Value
    array : (dtype : String) → (shape : List ℕ) → (bytes : List ℕ) → Value
    sequence : Items → Value
    mapping : Fields → Value

  pub data Items : Type 0 where
    nil : Items
    cons : Value → Items → Items

  pub data Fields : Type 0 where
    end : Fields
    field : String → Value → Fields → Fields

-- `payload.get(key)`, `none` for a missing key.
abbrev pub get : String → Fields → Option Value
get k end = none
get k (field j v fs) = if str_eq k j then some v else get k fs
