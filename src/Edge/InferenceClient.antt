-- ===== src/Edge/InferenceClient.antt =====
-- src/oven_runtime/edge/inference_client.py: the checks of a response, and the mapping that
-- `InferenceResponse.to_dict` of src/oven_runtime/common/protocol.py makes. The web socket is not
-- modelled.
pub mod Matches
pub mod Call
pub mod Errors
mod Tests
use oven_multiskill_runtime.Common.{
  ℕ, String, Bool, true, false, Option, none, some, List, [], ◌∷◌, length, codes, not, ◌&&◌, ◌||◌,
  ◌==◌, pos, Result, ok, err, faulted, if◌then◌else◌,
}
use oven_multiskill_runtime.Errors.{
  RuntimeFault, fault, frame_decode_failed, missing_required_field, unexpected_field,
  invalid_field_value, response_mismatch,
}
use oven_multiskill_runtime.Value.{Value, Fields, boolean, integer, text, mapping, field, end, get}
use oven_multiskill_runtime.Value.Compare.{
  Comparison, Scalar, a_text, an_integer, a_boolean, equals,
}
use oven_multiskill_runtime.Protocol.{InferenceRequest, InferenceResponse}
use oven_multiskill_runtime.Protocol.Parse.{
  Reader, read, give, refuse_if, has_fields, only_fields, ◌>>=◌, ◌>>◌,
}
use oven_multiskill_runtime.Server.Inference.{request_identity}
use oven_multiskill_runtime.Edge.ControlClient.Response.{
  refuse_missing, refuse_unexpected, remote_fault,
}

-- `REQUIRED_RESPONSE_FIELDS`
abbrev pub required_response_fields : List String
required_response_fields =
    "protocol_version" ∷ "message_type" ∷ "session_id" ∷ "trial_id" ∷ "skill" ∷ "generation"
    ∷ "sequence" ∷ "publishable" ∷ "request_hash" ∷ "observation_hash" ∷ "noise_hash"
    ∷ "action_hash" ∷ "actions" ∷ []

-- `InferenceResponse.to_dict`
unfoldable pub response_fields : InferenceResponse → Fields
response_fields r = field "protocol_version" (integer (pos 1)) (
    field "message_type" (text "inference_response") (
      field "session_id" (text r.session_id) (
        field "trial_id" (text r.trial_id) (
          field "skill" (text r.skill) (
            field "generation" (integer (pos r.generation)) (
              field "sequence" (integer (pos r.sequence)) (
                field "publishable" (boolean r.publishable) (
                  field "request_hash" (text r.request_hash) (
                    field "observation_hash" (text r.observation_hash) (
                      field "noise_hash" (text r.noise_hash) (
                        field "action_hash" (text r.action_hash)
                          (field "actions" r.actions end))))))))))))

-- A hash is a text of 64 characters.
abbrev pub is_hash : Value → Bool
is_hash (text t) = length (codes t) == 64
is_hash _ = false

abbrev pub hash_names : List String
hash_names = "noise_hash" ∷ "request_hash" ∷ "observation_hash" ∷ "action_hash" ∷ []

abbrev pub check_hashes : List String → Reader (Unit {0})
check_hashes [] fs = ok tt
check_hashes (name ∷ names) fs = elim (read name fs) [
  | err e ↦ err e
  | ok v ↦
      if is_hash v
      then check_hashes names fs
      else err (faulted (fault invalid_field_value "inference response hash is invalid"))
]

module _ (c : Comparison) where
  -- Whether a field differs from what is expected, for each of them in turn.
  abbrev pub mismatched : List (String × Scalar) → Reader Bool
  mismatched [] = give (ok false)
  mismatched ((name, expected) ∷ rest) = do
    v ← read name
    same ← give (equals c v expected)
    others ← mismatched rest
    give (ok (not same || others))

  abbrev is_error : Option Value → Result Bool
  is_error none = ok false
  is_error (some v) = equals c v (a_text "inference_error")

  module _ (stable_tree_hash : Value → String) where
    abbrev pub expected_values : InferenceRequest → List (String × Scalar)
    expected_values q =
        ("protocol_version", an_integer (pos 1))
        ∷ ("message_type", a_text "inference_response")
        ∷ ("session_id", a_text q.session_id)
        ∷ ("trial_id", a_text q.trial_id)
        ∷ ("skill", a_text q.expected_skill)
        ∷ ("generation", an_integer (pos q.expected_generation))
        ∷ ("sequence", an_integer (pos q.sequence))
        ∷ ("publishable", a_boolean true)
        ∷ []

    abbrev pub expected_hashes : InferenceRequest → Value → List (String × Scalar)
    expected_hashes q actions =
        ("observation_hash", a_text (stable_tree_hash q.observation))
        ∷ ("request_hash", a_text (stable_tree_hash (request_identity stable_tree_hash q)))
        ∷ ("action_hash", a_text (stable_tree_hash actions))
        ∷ []

    abbrev raise_remote : Reader Fields
    raise_remote fs = err (faulted (remote_fault "remote inference failed" fs))

    abbrev whole : Reader Fields
    whole fs = ok fs

    -- The checks of a response that is no error.
    unfoldable pub check_identity : InferenceRequest → Reader (Unit {0})
    check_identity q = do
      different ← mismatched (expected_values q)
      refuse_if different
          (fault response_mismatch "inference response identity does not match its request")

    unfoldable pub check_content : InferenceRequest → Reader (Unit {0})
    check_content q = do
      actions ← read "actions"
      different ← mismatched (expected_hashes q actions)
      refuse_if different (fault response_mismatch "inference response hash verification failed")
      check_hashes hash_names

    unfoldable pub check_response : InferenceRequest → Reader Fields
    unfolding has_fields only_fields
    check_response q = do
      refuse_missing required_response_fields "inference response is missing required fields"
      refuse_unexpected required_response_fields "inference response contains unexpected fields"
      check_identity q
      check_content q
      whole

    -- `validate_inference_response`
    unfoldable pub validate_inference_response : InferenceRequest → Value → Result Fields
    validate_inference_response q (mapping fs) = elim (is_error (get "message_type" fs)) [
      | err e ↦ err e
      | ok true ↦ raise_remote fs
      | ok false ↦ check_response q fs
    ]
    validate_inference_response q _ =
        err (faulted (fault frame_decode_failed "inference response must be a mapping"))
