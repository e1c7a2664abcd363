-- ===== src/Edge/Profile.antt =====
-- src/oven_runtime/edge/profile.py: the readers of the profile's fields, and `_validate_profile`.
-- Every refusal is a `ValueError`. A finite number is a whole number of a fixed small unit, as
-- `number_of` gives it, and `none` for one that is not finite.
use oven_multiskill_runtime.Common.{
  ℕ, suc, String, Bool, true, false, Option, none, some, List, [], ◌∷◌, codes, all, any, str_eq,
  is_empty, leb, ◌==◌, not, ◌&&◌, ◌||◌, ℤ, Result, ok, err, other, if◌then◌else◌,
}
use oven_multiskill_runtime.Value.{
  Value, Items, Fields, boolean, integer, floating, text, sequence, mapping, nil, cons, get,
}

-- `_mapping`
unfoldable pub mapping_of : Fields → String → Result Fields
mapping_of value key = elim (get key value) [ some (mapping fs) ↦ ok fs | _ ↦ err other ]

abbrev some_text : String → Result String
some_text t = if is_empty t then err other else ok t

-- `_string`
unfoldable pub string_of : Fields → String → Result String
string_of value key = elim (get key value) [ some (text t) ↦ some_text t | _ ↦ err other ]

-- `_boolean`
unfoldable pub boolean_of : Fields → String → Result Bool
boolean_of value key = elim (get key value) [ some (boolean b) ↦ ok b | _ ↦ err other ]

-- `_integer`
unfoldable pub integer_of : Fields → String → Result ℤ
integer_of value key = elim (get key value) [ some (integer n) ↦ ok n | _ ↦ err other ]

abbrev all_integers : Items → Result (List ℤ)
all_integers nil = ok []
all_integers (cons (integer n) rest) = elim (all_integers rest) [
  | err e ↦ err e
  | ok ns ↦ ok (n ∷ ns)
]
all_integers (cons _ rest) = err other

abbrev integer_items : Value → Result (List ℤ)
integer_items (sequence items) = all_integers items
integer_items _ = err other

-- `_integer_list`
unfoldable pub integer_list : Fields → String → Result (List ℤ)
integer_list value key = elim (get key value) [
  | some (sequence (cons v rest)) ↦ all_integers (cons v rest)
  | _ ↦ err other
]

-- `_optional_integer_list`
unfoldable pub optional_integer_list : Fields → String → Result (List ℤ)
optional_integer_list value key = elim (get key value) [ none ↦ ok [] | some v ↦ integer_items v ]

module _ (number_of : Value → Option ℤ) where
  -- A number of Python, finite as a float.
  abbrev finite_number : Value → Result ℤ
  finite_number (integer n) = elim (number_of (integer n)) [ none ↦ err other | some x ↦ ok x ]
  finite_number (floating t) = elim (number_of (floating t)) [ none ↦ err other | some x ↦ ok x ]
  finite_number _ = err other

  -- `_number`
  unfoldable pub number : Fields → String → Result ℤ
  number value key = elim (get key value) [ none ↦ err other | some v ↦ finite_number v ]

  abbrev all_numbers : Items → Result (List ℤ)
  all_numbers nil = ok []
  all_numbers (cons v rest) = elim (finite_number v) [
    | err e ↦ err e
    | ok x ↦ elim (all_numbers rest) [ err e ↦ err e | ok xs ↦ ok (x ∷ xs) ]
  ]

  abbrev count : Items → ℕ
  count nil = 0
  count (cons v rest) = suc (count rest)

  abbrev has_length : Option ℕ → Items → Bool
  has_length none items = true
  has_length (some n) items = count items == n

  -- `_float_tuple_value`
  unfoldable pub float_tuple_value : Option ℕ → Value → Result (List ℤ)
  float_tuple_value size (sequence items) =
      if has_length size items then all_numbers items else err other
  float_tuple_value size _ = err other

  -- `_float_tuple`
  unfoldable pub float_tuple : Option ℕ → Fields → String → Result (List ℤ)
  unfolding float_tuple_value
  float_tuple size value key = elim (get key value) [
    | none ↦ err other
    | some v ↦ float_tuple_value size v
  ]

  -- `_optional_float_tuple`
  unfoldable pub optional_float_tuple : Fields → String → Result (List ℤ)
  unfolding float_tuple_value
  optional_float_tuple value key = elim (get key value) [
    | none ↦ ok []
    | some v ↦ float_tuple_value none v
  ]

-- What `urlsplit` makes of the inference URI; a port that is no number is a `ValueError`.
pub record Uri : Type 0 where
  pub scheme : String
  pub hostname : Option String
  pub port : Option ℕ
  pub has_username : Bool
  pub has_password : Bool
  pub path : String
  pub query : String
  pub fragment : String

-- The fields of `AgilexProfile` that `_validate_profile` reads; a number that must be positive and
-- is negative stands as 0.
pub record ServerProfile : Type 0 where
  pub action_dimension : ℕ
  pub action_chunk_rows : ℕ
  pub action_max_absolute_value : ℕ
  pub observation_max_age : ℕ
  pub server_host_alias : String
  pub inference_uri : Option Uri
  pub remote_inference_port : ℕ
  pub inference_timeout : ℕ
  -- Whether the path is absolute, and its parts.
  pub remote_control_program : Bool × List String
  pub remote_runtime_root : Bool × List String

abbrev is_alphanumeric : ℕ → Bool
is_alphanumeric c =
    (leb b'0' c && leb c b'9') || (leb b'A' c && leb c b'Z') || (leb b'a' c && leb c b'z')

-- `[A-Za-z0-9][A-Za-z0-9_.-]*`
abbrev pub is_safe_alias : List ℕ → Bool
is_safe_alias [] = false
is_safe_alias (c ∷ rest) =
    is_alphanumeric c && all (λ d. is_alphanumeric d || d == b'_' || d == b'.' || d == b'-') rest

abbrev is_normalized : Bool × List String → Bool
is_normalized (is_absolute, parts) = is_absolute && not (any (str_eq "..") parts)

abbrev is_local : Option String → Bool
is_local none = false
is_local (some h) = str_eq h "127.0.0.1" || str_eq h "::1"

abbrev has_port : Option ℕ → Bool
has_port none = false
has_port (some p) = true

-- A plain loopback URI.
abbrev pub is_loopback : Option Uri → Bool
is_loopback none = false
is_loopback (some u) =
    str_eq u.scheme "ws"
    && is_local u.hostname
    && has_port u.port
    && not u.has_username
    && not u.has_password
    && (is_empty u.path || str_eq u.path "/")
    && is_empty u.query
    && is_empty u.fragment

-- `_validate_profile`
unfoldable pub validate_profile : ServerProfile → Result (Unit {0})
validate_profile p =
    if p.action_dimension == 0
      || p.action_chunk_rows == 0
      || p.action_max_absolute_value == 0
      || p.observation_max_age == 0
    then err other
    else if not (leb 1 p.remote_inference_port && leb p.remote_inference_port 65535)
        || p.inference_timeout == 0
    then err other
    else if not (is_safe_alias (codes p.server_host_alias))
    then err other
    else if not (is_normalized p.remote_control_program)
        || not (is_normalized p.remote_runtime_root)
    then err other
    else if not (is_loopback p.inference_uri)
    then err other
    else ok tt
