-- ===== src/Errors/Codes.antt =====
-- src/oven_runtime/common/errors.py: the texts of the error codes, and `to_dict`.
use Prim.Native.String.{String}
use mathlib.Core.Path.{◌≡◌, refl}
use oven_multiskill_runtime.Common.{List, [], ◌∷◌, false, Option, none, some, str_eq, if◌then◌else◌}
use oven_multiskill_runtime.Errors.{ErrorCode, RuntimeFault}
use oven_multiskill_runtime.Value.{Fields, field, end, text, boolean, mapping}

-- The code's value.
abbrev pub code_text : ErrorCode → String
code_text ErrorCode.protocol_version_unsupported = "PROTOCOL_VERSION_UNSUPPORTED"
code_text ErrorCode.invalid_message_type = "INVALID_MESSAGE_TYPE"
code_text ErrorCode.missing_required_field = "MISSING_REQUIRED_FIELD"
code_text ErrorCode.unexpected_field = "UNEXPECTED_FIELD"
code_text ErrorCode.invalid_field_type = "INVALID_FIELD_TYPE"
code_text ErrorCode.invalid_field_value = "INVALID_FIELD_VALUE"
code_text ErrorCode.frame_too_large = "FRAME_TOO_LARGE"
code_text ErrorCode.frame_type_rejected = "FRAME_TYPE_REJECTED"
code_text ErrorCode.frame_decode_failed = "FRAME_DECODE_FAILED"
code_text ErrorCode.response_mismatch = "RESPONSE_MISMATCH"
code_text ErrorCode.control_server_unavailable = "CONTROL_SERVER_UNAVAILABLE"
code_text ErrorCode.session_required = "SESSION_REQUIRED"
code_text ErrorCode.session_invalid = "SESSION_INVALID"
code_text ErrorCode.session_expired = "SESSION_EXPIRED"
code_text ErrorCode.session_already_active = "SESSION_ALREADY_ACTIVE"
code_text ErrorCode.trial_already_active = "TRIAL_ALREADY_ACTIVE"
code_text ErrorCode.trial_required = "TRIAL_REQUIRED"
code_text ErrorCode.trial_mismatch = "TRIAL_MISMATCH"
code_text ErrorCode.skill_mismatch = "SKILL_MISMATCH"
code_text ErrorCode.generation_mismatch = "GENERATION_MISMATCH"
code_text ErrorCode.sequence_mismatch = "SEQUENCE_MISMATCH"
code_text ErrorCode.state_rejected = "STATE_REJECTED"
code_text ErrorCode.inference_busy = "INFERENCE_BUSY"
code_text ErrorCode.inference_timeout = "INFERENCE_TIMEOUT"
code_text ErrorCode.policy_failed = "POLICY_FAILED"
code_text ErrorCode.action_invalid = "ACTION_INVALID"
code_text ErrorCode.observation_stale = "OBSERVATION_STALE"
code_text ErrorCode.joint_gate_failed = "JOINT_GATE_FAILED"
code_text ErrorCode.checker_failed = "CHECKER_FAILED"
code_text ErrorCode.approval_required = "APPROVAL_REQUIRED"
code_text ErrorCode.pipeline_failed = "PIPELINE_FAILED"
code_text ErrorCode.audit_commit_failed = "AUDIT_COMMIT_FAILED"
code_text ErrorCode.config_invalid = "CONFIG_INVALID"
code_text ErrorCode.path_outside_root = "PATH_OUTSIDE_ROOT"
code_text ErrorCode.server_failed = "SERVER_FAILED"

-- The codes in the order of the enumeration.
abbrev pub all_codes : List ErrorCode
all_codes =
    ErrorCode.protocol_version_unsupported ∷ ErrorCode.invalid_message_type
    ∷ ErrorCode.missing_required_field ∷ ErrorCode.unexpected_field ∷ ErrorCode.invalid_field_type
    ∷ ErrorCode.invalid_field_value ∷ ErrorCode.frame_too_large ∷ ErrorCode.frame_type_rejected
    ∷ ErrorCode.frame_decode_failed ∷ ErrorCode.response_mismatch
    ∷ ErrorCode.control_server_unavailable ∷ ErrorCode.session_required ∷ ErrorCode.session_invalid
    ∷ ErrorCode.session_expired ∷ ErrorCode.session_already_active ∷ ErrorCode.trial_already_active
    ∷ ErrorCode.trial_required ∷ ErrorCode.trial_mismatch ∷ ErrorCode.skill_mismatch
    ∷ ErrorCode.generation_mismatch ∷ ErrorCode.sequence_mismatch ∷ ErrorCode.state_rejected
    ∷ ErrorCode.inference_busy ∷ ErrorCode.inference_timeout ∷ ErrorCode.policy_failed
    ∷ ErrorCode.action_invalid ∷ ErrorCode.observation_stale ∷ ErrorCode.joint_gate_failed
    ∷ ErrorCode.checker_failed ∷ ErrorCode.approval_required ∷ ErrorCode.pipeline_failed
    ∷ ErrorCode.audit_commit_failed ∷ ErrorCode.config_invalid ∷ ErrorCode.path_outside_root
    ∷ ErrorCode.server_failed ∷ []

abbrev find_code : String → List ErrorCode → Option ErrorCode
find_code t [] = none
find_code t (c ∷ cs) = if str_eq (code_text c) t then some c else find_code t cs

-- `ErrorCode(value)` of a text; `none` where it raises.
unfoldable pub code_of : String → Option ErrorCode
code_of t = find_code t all_codes

-- The details of a fault, if it has some.
abbrev pub details_field : Fields → Fields
details_field end = end
details_field (field k v fs) = field "details" (mapping (field k v fs)) end

-- `RuntimeFault.to_dict`
abbrev pub fault_fields : RuntimeFault → Fields
fault_fields f = field "ok" (boolean false) (
    field "error_code" (text (code_text f.code))
      (field "message" (text f.message) (details_field f.details)))

pub code_of-code_text : (c : ErrorCode) → code_of (code_text c) ≡ some c
unfolding code_of
code_of-code_text ErrorCode.protocol_version_unsupported = refl
code_of-code_text ErrorCode.invalid_message_type = refl
code_of-code_text ErrorCode.missing_required_field = refl
code_of-code_text ErrorCode.unexpected_field = refl
code_of-code_text ErrorCode.invalid_field_type = refl
code_of-code_text ErrorCode.invalid_field_value = refl
code_of-code_text ErrorCode.frame_too_large = refl
code_of-code_text ErrorCode.frame_type_rejected = refl
code_of-code_text ErrorCode.frame_decode_failed = refl
code_of-code_text ErrorCode.response_mismatch = refl
code_of-code_text ErrorCode.control_server_unavailable = refl
code_of-code_text ErrorCode.session_required = refl
code_of-code_text ErrorCode.session_invalid = refl
code_of-code_text ErrorCode.session_expired = refl
code_of-code_text ErrorCode.session_already_active = refl
code_of-code_text ErrorCode.trial_already_active = refl
code_of-code_text ErrorCode.trial_required = refl
code_of-code_text ErrorCode.trial_mismatch = refl
code_of-code_text ErrorCode.skill_mismatch = refl
code_of-code_text ErrorCode.generation_mismatch = refl
code_of-code_text ErrorCode.sequence_mismatch = refl
code_of-code_text ErrorCode.state_rejected = refl
code_of-code_text ErrorCode.inference_busy = refl
code_of-code_text ErrorCode.inference_timeout = refl
code_of-code_text ErrorCode.policy_failed = refl
code_of-code_text ErrorCode.action_invalid = refl
code_of-code_text ErrorCode.observation_stale = refl
code_of-code_text ErrorCode.joint_gate_failed = refl
code_of-code_text ErrorCode.checker_failed = refl
code_of-code_text ErrorCode.approval_required = refl
code_of-code_text ErrorCode.pipeline_failed = refl
code_of-code_text ErrorCode.audit_commit_failed = refl
code_of-code_text ErrorCode.config_invalid = refl
code_of-code_text ErrorCode.path_outside_root = refl
code_of-code_text ErrorCode.server_failed = refl
