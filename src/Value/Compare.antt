-- ===== src/Value/Compare.antt =====
-- Python's `==` of a value that crossed the wire with a scalar. Whether a `float` equals an
-- integer, and what the comparison of a NumPy array is as a truth value, which may be an exception,
-- are parameters: the first depends on how the float is printed, the second is NumPy's.
use oven_multiskill_runtime.Common.{
  ℕ, String, Bool, true, false, List, ℤ, pos, negsuc, ◌==◌, str_eq, Result, ok,
}
use oven_multiskill_runtime.Value.{Value, boolean, integer, floating, text, array}

-- What an expected value may be.
pub data Scalar : Type 0 where
  a_text : String → Scalar
  an_integer : ℤ → Scalar
  a_boolean : Bool → Scalar

pub record Comparison : Type 0 where
  pub float_equals : String → ℤ → Bool
  pub array_equals : (dtype : String) → (shape bytes : List ℕ) → Scalar → Result Bool

abbrev pub integer_equals : ℤ → ℤ → Bool
integer_equals (pos m) (pos n) = m == n
integer_equals (negsuc m) (negsuc n) = m == n
integer_equals _ _ = false

-- `True` is 1 and `False` is 0.
abbrev pub as_integer : Bool → ℤ
as_integer true = pos 1
as_integer false = pos 0

module _ (c : Comparison) where
  abbrev number_equals : Value → ℤ → Result Bool
  number_equals (integer m) n = ok (integer_equals m n)
  number_equals (boolean b) n = ok (integer_equals (as_integer b) n)
  number_equals (floating t) n = ok (c.float_equals t n)
  number_equals _ n = ok false

  abbrev text_equals : Value → String → Result Bool
  text_equals (text s) t = ok (str_eq s t)
  text_equals _ t = ok false

  abbrev pub equals : Value → Scalar → Result Bool
  equals (array dtype shape bytes) x = c.array_equals dtype shape bytes x
  equals v (a_text t) = text_equals v t
  equals v (an_integer n) = number_equals v n
  equals v (a_boolean b) = number_equals v (as_integer b)
