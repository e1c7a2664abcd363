-- ===== src/Edge/ControlClient/Response.antt =====
-- src/oven_runtime/edge/control_client.py, `validate_control_response`, and the mapping that the
-- dispatcher of src/oven_runtime/server/control_protocol.py answers with.
use oven_multiskill_runtime.Common.{
  String, Bool, true, Option, none, some, List, [], ◌∷◌, not, Result, ok, err, faulted, other, pos,
  if◌then◌else◌,
}
use oven_multiskill_runtime.Errors.{
  RuntimeFault, ErrorCode, fault, server_failed, frame_decode_failed, missing_required_field,
  unexpected_field, invalid_field_type, invalid_field_value, response_mismatch,
}
use oven_multiskill_runtime.Errors.Codes.{code_of, code_text}
use oven_multiskill_runtime.Value.{
  Value, Fields, null, boolean, integer, text, binary, mapping, field, end, get,
}
use oven_multiskill_runtime.Value.Compare.{Comparison, equals, a_text, an_integer}
use oven_multiskill_runtime.Protocol.Parse.{
  Reader, read, give, refuse_if, has_fields, only_fields, ◌>>=◌, ◌>>◌,
}
use oven_multiskill_runtime.Server.Control.{Reply}

module _ (is_uuid : String → Bool) where
  -- `UUID(value)` in its `try`: a value that is no text has no `replace`, and `None` is a
  -- `TypeError`.
  abbrev check_instance : Value → Result String
  check_instance (text t) =
      if is_uuid t
      then ok t
      else err
          (faulted (fault invalid_field_value "control response server_instance_id must be a UUID"))
  check_instance null =
      err (faulted (fault invalid_field_value "control response server_instance_id must be a UUID"))
  check_instance (binary b) =
      err (faulted (fault invalid_field_value "control response server_instance_id must be a UUID"))
  check_instance _ = err other

abbrev code_of_value : Option Value → ErrorCode
code_of_value (some (text t)) = elim (code_of t) [ none ↦ server_failed | some c ↦ c ]
code_of_value _ = server_failed

abbrev message_of_value : String → Option Value → String
message_of_value default (some (text t)) = t
message_of_value default _ = default

-- The fault that an error response carries: its details are dropped.
abbrev pub remote_fault : String → Fields → RuntimeFault
remote_fault default fs = record {
  code = code_of_value (get "error_code" fs);
  message = message_of_value default (get "message" fs);
  details = end;
}

-- `sorted(set(payload) - expected)` is empty, or a fault.
abbrev pub refuse_unexpected : List String → String → Reader (Unit {0})
refuse_unexpected expected message fs =
    if only_fields expected fs then ok tt else err (faulted (fault unexpected_field message))

abbrev pub refuse_missing : List String → String → Reader (Unit {0})
refuse_missing expected message fs =
    if has_fields expected fs then ok tt else err (faulted (fault missing_required_field message))

-- `isinstance(value, bool)`
abbrev boolean_of : Value → Result Bool
boolean_of (boolean b) = ok b
boolean_of _ = err (faulted (fault invalid_field_type "control response ok field must be boolean"))

-- `"result" in payload` and a dictionary.
abbrev has_result : Reader (Unit {0})
has_result fs = elim (get "result" fs) [
  | some (mapping r) ↦ ok tt
  | _ ↦ err (faulted (fault missing_required_field "successful control response has no result"))
]

-- The payload itself.
abbrev whole : Reader Fields
whole fs = ok fs

abbrev raise_remote : Reader Fields
raise_remote fs = err (faulted (remote_fault "remote control command failed" fs))

module _ (c : Comparison) (is_uuid : String → Bool) where
  -- `payload["protocol_version"] != 1 or payload["command"] != command`
  abbrev differs : String → Reader Bool
  differs command = do
    version ← read "protocol_version"
    same_version ← give (equals c version (an_integer (pos 1)))
    named ← read "command"
    if same_version
        then (do same ← give (equals c named (a_text command)); give (ok (not same)))
        else give (ok true)

  unfoldable pub check_response : String → Reader Fields
  unfolding has_fields only_fields
  check_response command = do
    refuse_missing ("protocol_version" ∷ "ok" ∷ "command" ∷ "server_instance_id" ∷ [])
        "control response is missing required fields"
    mismatch ← differs command
    refuse_if mismatch
        (fault response_mismatch "control response identity does not match its request")
    raw_ok ← read "ok"
    is_ok ← give (boolean_of raw_ok)
    raw_instance ← read "server_instance_id"
    give (check_instance is_uuid raw_instance)
    if is_ok
        then (do
          refuse_unexpected
              ("protocol_version" ∷ "ok" ∷ "command" ∷ "server_instance_id" ∷ "result" ∷ [])
              "control response contains unexpected fields"
          has_result
          whole)
        else (do
          refuse_unexpected
              ("protocol_version" ∷ "ok" ∷ "command" ∷ "server_instance_id" ∷ "error_code"
                ∷ "message" ∷ "details" ∷ [])
              "control error response contains unexpected fields"
          raise_remote)

  -- `validate_control_response`
  unfoldable pub validate_control_response : String → Value → Result Fields
  validate_control_response command (mapping fs) = check_response command fs
  validate_control_response command _ =
      err (faulted (fault frame_decode_failed "control response must be a dictionary"))

abbrev error_fields : Option RuntimeFault → Fields
error_fields none = end
error_fields (some f) =
    field "error_code" (text (code_text f.code)) (field "message" (text f.message) end)

abbrev result_fields : Option Value → Fields
result_fields none = end
result_fields (some v) = field "result" v end

-- `ControlDispatcher._response`, with the reply's keys in the order of the code; `to_dict` writes
-- the key `ok` again, with the same value.
unfoldable pub reply_fields : Reply → Fields
reply_fields r = field "protocol_version" (integer (pos 1)) (
    field "ok" (boolean r.is_ok) (
      field "command" (text r.command) (
        field "server_instance_id" (text r.server_instance_id)
          (if r.is_ok then result_fields r.result else error_fields r.error))))
