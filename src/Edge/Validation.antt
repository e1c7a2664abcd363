-- ===== src/Edge/Validation.antt =====
-- src/oven_runtime/edge/validation.py: the checks of an observation and of an action chunk.
pub mod Bounds
use oven_multiskill_runtime.Common.{
  ℕ, ◌*◌, ◌-◌, zero, suc, Bool, true, false, Option, none, some, List, [], ◌∷◌, map, all, ltb, leb,
  ◌==◌, not, ◌&&◌, ◌||◌, ℤ, pos, negsuc, Result, ok, err, other, faulted, if◌then◌else◌,
}
use oven_multiskill_runtime.Errors.{fault, invalid_field_value, observation_stale, action_invalid}
use oven_multiskill_runtime.Value.{Value, Fields, field, mapping}
use oven_multiskill_runtime.Edge.Contracts.{Observation}

-- `max_age_ms` as a whole number of nanoseconds; a window that is not positive is 0. A positive
-- window of less than a nanosecond, and one that is not finite, are not represented.
pub record ObservationValidator : Type 0 where
  pub max_age_ns : ℕ

abbrev pub payload_of : Value → Result Fields
payload_of (mapping (field k v fs)) = ok (field k v fs)
payload_of _ =
    err (faulted (fault invalid_field_value "observation payload must be a non-empty dictionary"))

abbrev is_stale : ℕ → ℕ → ℕ → Bool
is_stale max_age now captured = ltb now captured || ltb max_age (now - captured)

-- At the time `now`.
unfoldable pub validate_observation : ObservationValidator → ℕ → Observation → Result Fields
validate_observation v now o =
    if v.max_age_ns == 0 then err other else elim (payload_of o.payload) [
      | err e ↦ err e
      | ok payload ↦
          if is_stale v.max_age_ns now o.captured_at_monotonic_ns
          then err (
              faulted
                (fault observation_stale "observation is outside the permitted freshness window"))
          else ok payload
    ]

-- What `np.asarray` makes of a value, and what the code asks of it: the shape, whether the kind of
-- the elements is one of `f`, `i`, `u`, whether they are finite, and the rows of a matrix. A dtype of
-- signed integers has a least value, whose absolute value `np.abs` cannot represent and gives back as
-- it is; `lowest` is the magnitude of that value (128 of `int8`), and there is none for other dtypes.
pub record NdArray : Type 0 where
  pub shape : List ℕ
  pub is_numeric : Bool
  pub all_finite : Bool
  pub lowest : Option ℕ
  pub rows : List (List ℤ)

pub record ActionValidator : Type 0 where
  pub action_dimension : ℕ
  pub chunk_rows : ℕ
  pub max_absolute_value : ℕ

abbrev pub abs : ℤ → ℕ
abs (pos n) = n
abs (negsuc n) = suc n

-- `row[: n]`
abbrev pub first {ℓ} : {A : Type ℓ} → ℕ → List A → List A
first zero xs = []
first (suc n) [] = []
first (suc n) (x ∷ xs) = x ∷ first n xs

abbrev pub accepts_shape : ActionValidator → List ℕ → Bool
accepts_shape v (rows ∷ columns ∷ []) =
    rows == v.chunk_rows && (columns == v.action_dimension || columns == v.action_dimension * 2)
accepts_shape v _ = false

-- `np.abs` of an element
abbrev pub np_abs : Option ℕ → ℤ → ℤ
np_abs lowest (pos n) = pos n
np_abs none (negsuc n) = pos (suc n)
np_abs (some l) (negsuc n) = if l == suc n then negsuc n else pos (suc n)

abbrev pub at_most : ℕ → ℤ → Bool
at_most limit (pos n) = leb n limit
at_most limit (negsuc n) = true

abbrev pub within : Option ℕ → ℕ → List (List ℤ) → Bool
within lowest limit rows = all (all (λ x. at_most limit (np_abs lowest x))) rows

abbrev pub project : ActionValidator → NdArray → List (List ℤ)
project v a = map (first v.action_dimension) a.rows

unfoldable pub validate_actions : ActionValidator → NdArray → Result (List (List ℤ))
validate_actions v a =
    if v.action_dimension == 0 || v.chunk_rows == 0 || v.max_absolute_value == 0
    then err other
    else if not (accepts_shape v a.shape)
    then err (faulted (fault action_invalid "action chunk shape is invalid"))
    else if not (a.is_numeric && a.all_finite)
    then err (faulted (fault action_invalid "action chunk must contain finite numeric values"))
    else if not (within a.lowest v.max_absolute_value (project v a))
    then err (faulted (fault action_invalid "action chunk exceeds the configured absolute limit"))
    else ok (project v a)
