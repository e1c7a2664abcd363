-- ===== src/Edge/ControlClient/Request.antt =====
-- src/oven_runtime/edge/control_client.py, `_command_arguments` and the request of `call`.
use oven_multiskill_runtime.Common.{
  String, Bool, true, false, Option, none, some, List, [], ◌∷◌, str_eq, pos, Result, ok, err, other,
  if◌then◌else◌,
}
use oven_multiskill_runtime.Value.{Value, Fields, integer, text, mapping, field, end, get}

-- The names of a command's arguments.
abbrev argument_names : String → Option (List String)
argument_names command =
    if str_eq command "status"
    then some []
    else if str_eq command "prepare-skill"
    then some ("skill" ∷ [])
    else if str_eq command "begin-trial"
    then some ("trial_id" ∷ "root_seed" ∷ [])
    else if str_eq command "open-session"
    then some []
    else if str_eq command "close-session"
    then some ("session_id" ∷ [])
    else if str_eq command "end-trial"
    then some []
    else if str_eq command "abort"
    then some ("reason" ∷ [])
    else none

-- `zip` of as many names as values; `none` for another number.
abbrev zip_arguments : List String → List Value → Option Fields
zip_arguments [] [] = some end
zip_arguments (k ∷ ks) (v ∷ vs) = elim (zip_arguments ks vs) [
  | none ↦ none
  | some fs ↦ some (field k v fs)
]
zip_arguments _ _ = none

abbrev is_integer : Value → Bool
is_integer (integer n) = true
is_integer _ = false

abbrev seed_is_integer : Fields → Bool
seed_is_integer fs = elim (get "root_seed" fs) [ none ↦ true | some v ↦ is_integer v ]

-- `_command_arguments`; `names` has no command with an argument `seed`.
unfoldable pub command_arguments : String → List Value → Result Fields
command_arguments command values = elim (argument_names command) [
  | none ↦ err other
  | some names ↦ elim (zip_arguments names values) [
    | none ↦ err other
    | some fs ↦ if seed_is_integer fs then ok fs else err other
  ]
]

-- What is sent for a command with its arguments.
abbrev pub request_fields : String → Fields → Fields
request_fields command arguments =
    field "protocol_version" (integer (pos 1))
      (field "command" (text command) (field "arguments" (mapping arguments) end))
