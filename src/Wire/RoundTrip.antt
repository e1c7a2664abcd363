-- ===== src/Wire/RoundTrip.antt =====
-- Arrays that cross the wire.
use oven_multiskill_runtime.Common.{
  ℕ, ◌*◌, ◌≤◌, String, false, ◌≡◌, refl, some, List, [], ◌∷◌, length, Result, ok, arith,
}
use oven_multiskill_runtime.Value.{array}
use oven_multiskill_runtime.Wire.{
  DType, max_frame_bytes, max_array_dimensions, ndarray_ext_code, shape_items, shape_of, envelope,
  encode_extension, element_count, is_unsafe, check_array, decode_extension,
}

-- The number of elements, from a count.
abbrev pub product : ℕ → List ℕ → ℕ
product so_far [] = so_far
product so_far (n ∷ rest) = product (so_far * n) rest

-- No size on the way passes the limit.
abbrev pub Fits : ℕ → ℕ → List ℕ → Type 0
Fits itemsize so_far [] = Unit
Fits itemsize so_far (n ∷ rest) =
    (so_far * n * itemsize ≤ max_frame_bytes) × Fits itemsize (so_far * n) rest

element_count_lem :
    (itemsize so_far : ℕ) (shape : List ℕ)
    → Fits itemsize so_far shape
    → element_count itemsize so_far shape ≡ some (product so_far shape)
unfolding element_count
element_count_lem itemsize so_far [] h = refl
element_count_lem itemsize so_far (n ∷ rest) h =
    ground (arith, element_count_lem itemsize (so_far * n) rest)

shape_of-shape_items : (shape : List ℕ) → shape_of (shape_items shape) ≡ some shape
shape_of-shape_items [] = refl
shape_of-shape_items (n ∷ rest) = ground (arith, shape_of-shape_items rest)

-- An array that may cross the wire: its dtype is plain, it has few dimensions, it is not too large,
-- and its bytes are as many as its shape tells.
pub record IsPlain (d : DType) (shape bytes : List ℕ) : Type 0 where
  pub safe : is_unsafe d ≡ false
  pub dimensions : length shape ≤ max_array_dimensions
  pub fits : Fits d.itemsize 1 shape
  pub size : product 1 shape * d.itemsize ≡ length bytes

check_array_lem :
    (dtype_of : String → Result DType) (d : DType) (dtype : String) (shape bytes : List ℕ)
    → dtype_of dtype ≡ ok d
    → IsPlain d shape bytes
    → check_array dtype_of dtype shape bytes ≡ ok (array dtype shape bytes)
unfolding check_array
check_array_lem dtype_of d dtype shape bytes h p =
    ground (arith, h, p.safe, p.dimensions, p.size, element_count_lem d.itemsize 1 shape p.fits)

encoded :
    (d : DType) (dtype : String) (shape bytes : List ℕ)
    → is_unsafe d ≡ false
    → encode_extension d dtype shape bytes ≡ ok (envelope dtype shape bytes)
unfolding encode_extension
encoded d dtype shape bytes h = ground arith

opened :
    (dtype_of : String → Result DType) (dtype : String) (shape bytes : List ℕ)
    → check_array dtype_of dtype shape bytes ≡ ok (array dtype shape bytes)
    → decode_extension dtype_of ndarray_ext_code (ok (envelope dtype shape bytes))
      ≡ ok (array dtype shape bytes)
unfolding decode_extension envelope
opened dtype_of dtype shape bytes h = ground (arith, h, shape_of-shape_items shape)

-- The receiver of an array that may cross the wire gets the array that was sent.
pub decode_extension-encode_extension :
    (dtype_of : String → Result DType) (d : DType) (dtype : String) (shape bytes : List ℕ)
    → dtype_of dtype ≡ ok d
    → IsPlain d shape bytes
    → decode_extension dtype_of ndarray_ext_code (encode_extension d dtype shape bytes)
      ≡ ok (array dtype shape bytes)
decode_extension-encode_extension dtype_of d dtype shape bytes h p =
    rw (encoded d dtype shape bytes p.safe)
      (opened dtype_of dtype shape bytes (check_array_lem dtype_of d dtype shape bytes h p))
