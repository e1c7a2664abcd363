-- ===== src/Wire.antt =====
-- src/oven_runtime/common/wire.py: binary frames, and NumPy arrays inside them. MessagePack and the
-- dtypes of NumPy are parameters.
pub mod RoundTrip
mod Tests
use oven_multiskill_runtime.Common.{
  ℕ, zero, suc, ◌*◌, String, Bool, true, false, Option, none, some, List, [], ◌∷◌, any, length,
  str_eq, leb, ltb, ◌==◌, not, ◌&&◌, ◌||◌, pos, ℤ, negsuc, Raised, faulted, other, interrupt,
  Result, ok, err, if◌then◌else◌,
}
use oven_multiskill_runtime.Errors.{
  fault, frame_too_large, frame_type_rejected, frame_decode_failed,
}
use oven_multiskill_runtime.Value.{
  Value, Items, Fields, null, integer, text, binary, array, sequence, mapping, nil, cons, end,
  field, get,
}
use oven_multiskill_runtime.Protocol.Parse.{has_fields, only_fields}

abbrev pub ndarray_ext_code : ℕ
ndarray_ext_code = 42

abbrev pub max_frame_bytes : ℕ
max_frame_bytes = 67108864

abbrev pub max_array_dimensions : ℕ
max_array_dimensions = 16

-- What `np.dtype` of a text has.
pub record DType : Type 0 where
  pub has_object : Bool
  pub has_fields : Bool
  pub has_subdtype : Bool
  -- Whether its kind is one of `?biufcmM`.
  pub is_plain : Bool
  pub itemsize : ℕ

-- `list(contiguous.shape)`
abbrev pub shape_items : List ℕ → Items
shape_items [] = nil
shape_items (n ∷ rest) = cons (integer (pos n)) (shape_items rest)

-- The mapping that `_encode_extension` packs.
unfoldable pub envelope : String → List ℕ → List ℕ → Value
envelope dtype shape bytes = mapping (
    field "dtype" (text dtype)
      (field "shape" (sequence (shape_items shape)) (field "data" (binary bytes) end)))

-- An array of an object, a structured or a sub-array dtype is refused with a `TypeError`.
unfoldable pub encode_extension : DType → String → List ℕ → List ℕ → Result Value
unfolding envelope
encode_extension d dtype shape bytes =
    if d.has_object || d.has_fields || d.has_subdtype
    then err other
    else ok (envelope dtype shape bytes)

-- The shape, of whole numbers that are not negative.
abbrev pub shape_of : Items → Option (List ℕ)
shape_of nil = some []
shape_of (cons (integer (pos n)) rest) = elim (shape_of rest) [
  | none ↦ none
  | some ns ↦ some (n ∷ ns)
]
shape_of (cons _ rest) = none

-- The loop over the shape, with the count so far: `none` when the size passes the limit.
unfoldable pub element_count : ℕ → ℕ → List ℕ → Option ℕ
element_count itemsize so_far [] = some so_far
element_count itemsize so_far (n ∷ rest) =
    let more = element_count itemsize (so_far * n) rest in
    if ltb max_frame_bytes (so_far * n * itemsize) then none else more

abbrev pub is_unsafe : DType → Bool
is_unsafe d = d.has_object || d.has_fields || d.has_subdtype || not d.is_plain

module _ (dtype_of : String → Result DType) where
  -- The checks of the three fields.
  unfoldable pub check_array : String → List ℕ → List ℕ → Result Value
  unfolding element_count
  check_array dtype shape bytes =
      if ltb max_array_dimensions (length shape) then err other else elim (dtype_of dtype) [
        | err e ↦ err e
        | ok d ↦ if is_unsafe d then err other else elim (element_count d.itemsize 1 shape) [
          | none ↦ err other
          | some count ↦
              if count * d.itemsize == length bytes then ok (array dtype shape bytes) else err other
        ]
      ]

  abbrev pub of_items : String → Items → List ℕ → Result Value
  of_items dtype items bytes = elim (shape_of items) [
    | none ↦ err other
    | some shape ↦ check_array dtype shape bytes
  ]

  abbrev pub of_fields : Option Value → Option Value → Option Value → Result Value
  of_fields (some (text dtype)) (some (sequence items)) (some (binary bytes)) =
      of_items dtype items bytes
  of_fields _ _ _ = err other

  abbrev pub exact_fields : Fields → Bool
  exact_fields fs =
      has_fields ("dtype" ∷ "shape" ∷ "data" ∷ []) fs
      && only_fields ("dtype" ∷ "shape" ∷ "data" ∷ []) fs

  abbrev pub open_envelope : Value → Result Value
  open_envelope (mapping fs) =
      if exact_fields fs
      then of_fields (get "dtype" fs) (get "shape" fs) (get "data" fs)
      else err other
  open_envelope _ = err other

  abbrev pub as_decode_fault : Result Value → Result Value
  as_decode_fault (err other) =
      err (faulted (fault frame_decode_failed "invalid NumPy array in binary frame"))
  as_decode_fault r = r

  -- `_decode_extension`, for the value that MessagePack unpacks from the body; what it refuses, and
  -- what NumPy refuses, is a `ValueError` or a `TypeError`.
  unfoldable pub decode_extension : ℕ → Result Value → Result Value
  unfolding check_array has_fields only_fields
  decode_extension code body =
      if not (code == ndarray_ext_code)
      then err
          (faulted (fault frame_decode_failed "binary frame contains an unsupported extension"))
      else as_decode_fault (elim body [ err e ↦ err e | ok v ↦ open_envelope v ])

-- How MessagePack ends: with its result, with a `RuntimeError` that an extension caused or another,
-- with a `ValueError`, a `TypeError` or an exception of its own, or with a further one.
pub data Outcome {ℓ} (A : Type ℓ) : Type ℓ where
  done : A → Outcome A
  runtime_error : (has_cause : Bool) → Outcome A
  refused : Outcome A
  raised : Raised → Outcome A

-- What arrives: bytes, or a text.
pub data Received : Type 0 where
  bytes_frame : List ℕ → Received
  text_frame : Received

abbrev is_limit : ℕ → Bool
is_limit max_bytes = not (max_bytes == 0) && leb max_bytes max_frame_bytes

abbrev packed : ℕ → Outcome (List ℕ) → Result (List ℕ)
packed max_bytes (done bytes) =
    if ltb max_bytes (length bytes)
    then err (faulted (fault frame_too_large "binary frame exceeds the configured size limit"))
    else ok bytes
packed max_bytes (runtime_error has_cause) = err other
packed max_bytes refused =
    err (faulted (fault frame_decode_failed "message cannot be encoded as safe MessagePack"))
packed max_bytes (raised e) = err e

unfoldable pub pack_message : (Value → Outcome (List ℕ)) → ℕ → Value → Result (List ℕ)
pack_message packb max_bytes v =
    if not (is_limit max_bytes) then err other else packed max_bytes (packb v)

abbrev unpacked : Outcome Value → Result Value
unpacked (done v) = ok v
unpacked (runtime_error true) =
    err (faulted (fault frame_decode_failed "binary frame contains an invalid extension"))
unpacked (runtime_error false) = err other
unpacked refused = err (faulted (fault frame_decode_failed "binary frame is not valid MessagePack"))
unpacked (raised e) = err e

unfoldable pub unpack_message : (List ℕ → Outcome Value) → ℕ → Received → Result Value
unpack_message unpackb max_bytes text_frame =
    if not (is_limit max_bytes)
    then err other
    else err (faulted (fault frame_type_rejected "inference transport accepts binary frames only"))
unpack_message unpackb max_bytes (bytes_frame frame) =
    if not (is_limit max_bytes)
    then err other
    else if ltb max_bytes (length frame)
    then err (faulted (fault frame_too_large "binary frame exceeds the configured size limit"))
    else unpacked (unpackb frame)
