-- ===== src/Edge/InferenceClient/Call.antt =====
-- src/oven_runtime/edge/inference_client.py, `InferenceClient.infer`. MessagePack and the web socket
-- are parameters.
use oven_multiskill_runtime.Common.{ℕ, String, Bool, List, faulted, interrupt, Result, ok, err}
use oven_multiskill_runtime.Errors.{fault, inference_timeout}
use oven_multiskill_runtime.Value.{Value, Fields}
use oven_multiskill_runtime.Value.Compare.{Comparison}
use oven_multiskill_runtime.Protocol.{InferenceRequest}
use oven_multiskill_runtime.Protocol.Parse.{parse}
use oven_multiskill_runtime.Wire.{Outcome, Received, max_frame_bytes, pack_message, unpack_message}
use oven_multiskill_runtime.Edge.InferenceClient.{validate_inference_response}

-- Any `Exception` of the transport leaves the request's outcome open.
abbrev transported : Result Received → Result Received
transported (ok r) = ok r
transported (err interrupt) = err interrupt
transported (err e) = err (
    faulted (
      fault inference_timeout
        "inference transport failed; request outcome is ambiguous and must not be retried automatically"))

module _ (c : Comparison) (stable_tree_hash : Value → String) (is_uuid : String → Bool)
    (packb : Value → Outcome (List ℕ)) (unpackb : List ℕ → Outcome Value) where
  abbrev take_response : InferenceRequest → Received → Result Fields
  take_response q received = elim (unpack_message unpackb max_frame_bytes received) [
    | err e ↦ err e
    | ok v ↦ validate_inference_response c stable_tree_hash q v
  ]

  abbrev send_request : InferenceRequest → (List ℕ → Result Received) → List ℕ → Result Fields
  send_request q transport frame = elim (transported (transport frame)) [
    | err e ↦ err e
    | ok received ↦ take_response q received
  ]

  unfoldable pub infer : (List ℕ → Result Received) → Value → Result Fields
  unfolding unpack_message validate_inference_response
  infer transport payload = elim (parse is_uuid payload) [
    | err e ↦ err e
    | ok q ↦ elim (pack_message packb max_frame_bytes payload) [
      | err e ↦ err e
      | ok frame ↦ send_request q transport frame
    ]
  ]
