-- ===== src/Wire/Tests.antt =====
-- An array of two by three bytes on the wire.
use oven_multiskill_runtime.Common.{
  ℕ, String, false, true, ◌≡◌, List, [], ◌∷◌, Result, ok, refl, arith,
}
use oven_multiskill_runtime.Value.{array}
use oven_multiskill_runtime.Wire.{DType, ndarray_ext_code, encode_extension, decode_extension}
use oven_multiskill_runtime.Wire.RoundTrip.{IsPlain, decode_extension-encode_extension}

abbrev unsigned : DType
unsigned = record {
  has_object = false;
  has_fields = false;
  has_subdtype = false;
  is_plain = true;
  itemsize = 1;
}

abbrev dtype_of : String → Result DType
dtype_of t = ok unsigned

abbrev bytes : List ℕ
bytes = 1 ∷ 2 ∷ 3 ∷ 4 ∷ 5 ∷ 6 ∷ []

bytes-IsPlain : IsPlain unsigned (2 ∷ 3 ∷ []) bytes
bytes-IsPlain = record { safe = refl; dimensions = omega arith; fits = omega arith; size = refl }

decode_extension-encode_extension_example :
    decode_extension dtype_of ndarray_ext_code (encode_extension unsigned "|u1" (2 ∷ 3 ∷ []) bytes)
    ≡ ok (array "|u1" (2 ∷ 3 ∷ []) bytes)
decode_extension-encode_extension_example =
    decode_extension-encode_extension dtype_of unsigned "|u1" (2 ∷ 3 ∷ []) bytes refl bytes-IsPlain
