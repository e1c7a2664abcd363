-- ===== src/Server/Control.antt =====
-- src/oven_runtime/server/control_protocol.py: the control requests and their replies. What the
-- runtime does for a command is a section's parameter, since its operations run in regions, which
-- System has.
pub mod Asks
pub mod Sound
pub mod Replies
mod Tests
use oven_multiskill_runtime.Common.{
  ℕ, String, Bool, true, false, Option, none, some, List, [], ◌∷◌, ◌==◌, not, is_empty, str_eq, ℤ,
  pos, negsuc, Raised, Result, ok, err, faulted, other, interrupt, Action, if◌then◌else◌,
}
use oven_multiskill_runtime.Errors.{
  RuntimeFault, fault, missing_required_field, unexpected_field, invalid_field_type,
  invalid_field_value, protocol_version_unsupported, server_failed,
}
use oven_multiskill_runtime.Value.{Value, Fields, text, integer, mapping}
use oven_multiskill_runtime.Protocol.Parse.{
  Reader, read, give, refuse_if, has_text, has_fields, only_fields, ◌>>=◌, ◌>>◌,
}

-- `CONTROL_COMMANDS`
abbrev pub control_commands : List String
control_commands =
    "status" ∷ "prepare-skill" ∷ "begin-trial" ∷ "open-session" ∷ "close-session" ∷ "end-trial"
    ∷ "abort" ∷ []

pub record ControlRequest : Type 0 where
  pub command : String
  pub arguments : Fields

-- The operation of the runtime that a request asks for.
pub data ControlCall : Type 0 where
  status open_session end_trial : ControlCall
  prepare_skill : (skill : String) → ControlCall
  begin_trial : (trial_id : String) → (root_seed : ℤ) → ControlCall
  close_session : (session_id : String) → ControlCall
  abort : (reason : String) → ControlCall

-- `_response`
pub record Reply : Type 0 where
  pub server_instance_id : String
  pub command : String
  pub is_ok : Bool
  pub result : Option Value
  pub error : Option RuntimeFault

-- The keys are those expected, with the two messages.
abbrev expect : String → String → List String → Reader (Unit {0})
expect missing unexpected expected = do
  refuse_if' (λ fs. not (has_fields expected fs)) (fault missing_required_field missing)
  refuse_if' (λ fs. not (only_fields expected fs)) (fault unexpected_field unexpected)
  where
    refuse_if' : (Fields → Bool) → RuntimeFault → Reader (Unit {0})
    refuse_if' c f fs = refuse_if (c fs) f fs

abbrev check_version : Value → Result (Unit {0})
check_version (integer (pos n)) =
    if n == 1
    then ok tt
    else err (faulted (fault protocol_version_unsupported "unsupported protocol version"))
check_version (integer (negsuc n)) =
    err (faulted (fault protocol_version_unsupported "unsupported protocol version"))
check_version _ = err (faulted (fault invalid_field_type "protocol_version must be an integer"))

abbrev pub command_of : Value → Result String
command_of (text t) =
    if has_text t control_commands
    then ok t
    else err (faulted (fault invalid_field_value "control command is not supported"))
command_of _ = err (faulted (fault invalid_field_type "command must be a string"))

abbrev arguments_of : Value → Result Fields
arguments_of (mapping fs) = ok fs
arguments_of _ = err (faulted (fault invalid_field_type "arguments must be a dictionary"))

abbrev parse_request : Reader ControlRequest
parse_request = do
  expect "control request is missing required fields" "control request contains unexpected fields"
      ("protocol_version" ∷ "command" ∷ "arguments" ∷ [])
  version ← read "protocol_version"
  give (check_version version)
  raw_command ← read "command"
  raw_arguments ← read "arguments"
  command ← give (command_of raw_command)
  arguments ← give (arguments_of raw_arguments)
  give (ok (record { command = command; arguments = arguments }))

-- `ControlRequest.parse`
unfoldable pub parse_control : Value → Result ControlRequest
unfolding has_fields only_fields
parse_control (mapping fs) = parse_request fs
parse_control _ = err (faulted (fault invalid_field_type "control request must be a mapping"))

abbrev expect_arguments : List String → Reader (Unit {0})
expect_arguments =
    expect "control arguments are missing required fields"
      "control arguments contain unexpected fields"

-- `_string` and `_integer`
abbrev pub argument_text : Value → Result String
argument_text (text t) =
    if is_empty t
    then err (faulted (fault invalid_field_value "control argument must not be empty"))
    else ok t
argument_text _ = err (faulted (fault invalid_field_type "control argument must be a string"))

abbrev pub argument_integer : Value → Result ℤ
argument_integer (integer n) = ok n
argument_integer _ = err (faulted (fault invalid_field_type "control argument must be an integer"))

-- A command with no arguments.
abbrev pub plain : ControlCall → Reader ControlCall
plain c = do expect_arguments []; give (ok c)

-- A command with one text.
abbrev pub with_text : String → (String → ControlCall) → Reader ControlCall
with_text name c = do
  expect_arguments (name ∷ [])
  raw ← read name
  t ← give (argument_text raw)
  give (ok (c t))

abbrev pub trial_arguments : Reader ControlCall
trial_arguments = do
  expect_arguments ("trial_id" ∷ "root_seed" ∷ [])
  raw_trial_id ← read "trial_id"
  trial_id ← give (argument_text raw_trial_id)
  raw_root_seed ← read "root_seed"
  root_seed ← give (argument_integer raw_root_seed)
  give (ok (ControlCall.begin_trial trial_id root_seed))

-- `_dispatch`, up to the call of the runtime.
unfoldable pub dispatch : ControlRequest → Result ControlCall
unfolding has_fields only_fields
dispatch q =
    if str_eq q.command "status"
    then plain ControlCall.status q.arguments
    else if str_eq q.command "open-session"
    then plain ControlCall.open_session q.arguments
    else if str_eq q.command "end-trial"
    then plain ControlCall.end_trial q.arguments
    else if str_eq q.command "prepare-skill"
    then with_text "skill" ControlCall.prepare_skill q.arguments
    else if str_eq q.command "begin-trial"
    then trial_arguments q.arguments
    else if str_eq q.command "close-session"
    then with_text "session_id" ControlCall.close_session q.arguments
    else if str_eq q.command "abort"
    then with_text "reason" ControlCall.abort q.arguments
    else err (faulted (fault invalid_field_value "control command is not implemented"))

abbrev pub failure : String → String → RuntimeFault → Reply
failure id command f = record {
  server_instance_id = id;
  command = command;
  is_ok = false;
  result = none;
  error = some f;
}

abbrev pub success : String → String → Value → Reply
success id command v = record {
  server_instance_id = id;
  command = command;
  is_ok = true;
  result = some v;
  error = none;
}

-- The `except` clauses of `execute`.
abbrev pub reply_to : String → String → Raised → Result Reply
reply_to id command (faulted f) = ok (failure id command f)
reply_to id command interrupt = err interrupt
reply_to id command _ =
    ok (failure id command (fault server_failed "control command failed inside the server"))

abbrev pub answer : String → String → Result Value → Result Reply
answer id command (ok v) = ok (success id command v)
answer id command (err e) = reply_to id command e

module _ {S : Type 0} (serve : ControlCall → Action S Value) where
  abbrev pub run_request : String → ControlRequest → Action S Reply
  run_request id q s = elim (dispatch q) [
    | err e ↦ (reply_to id q.command e, s)
    | ok c ↦ let (r, s') = serve c s in (answer id q.command r, s')
  ]

  -- `ControlDispatcher.execute`
  unfoldable pub execute : String → Value → Action S Reply
  execute id payload s = elim (parse_control payload) [
    | err e ↦ (reply_to id "unknown" e, s)
    | ok q ↦ run_request id q s
  ]
