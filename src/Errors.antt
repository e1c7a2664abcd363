-- ===== src/Errors.antt =====
-- src/oven_runtime/common/errors.py: the error codes and the fault that carries one.
-- The `details` of a fault are diagnostic data for the reader of a reply, and no code branches on
-- them. `details` is empty for none, and `fault` is a call that gives none: the details that the
-- source's calls of `fault` give are left out of the model's.
pub mod Codes
use Prim.Native.String.{String}
use oven_multiskill_runtime.Value.{Fields, end}

pub data ErrorCode : Type 0 where
  protocol_version_unsupported invalid_message_type missing_required_field unexpected_field :
      ErrorCode
  invalid_field_type invalid_field_value frame_too_large frame_type_rejected : ErrorCode
  frame_decode_failed response_mismatch control_server_unavailable session_required : ErrorCode
  session_invalid session_expired session_already_active trial_already_active : ErrorCode
  trial_required trial_mismatch skill_mismatch generation_mismatch sequence_mismatch : ErrorCode
  state_rejected inference_busy inference_timeout policy_failed action_invalid : ErrorCode
  observation_stale joint_gate_failed checker_failed approval_required pipeline_failed : ErrorCode
  audit_commit_failed config_invalid path_outside_root server_failed : ErrorCode

pub record RuntimeFault : Type 0 where
  pub code : ErrorCode
  pub message : String
  pub details : Fields

abbrev pub fault : ErrorCode → String → RuntimeFault
fault code message = record { code = code; message = message; details = end }
