-- ===== src/Server/Frontend.antt =====
-- src/oven_runtime/server/inference_server.py and control_server.py: what the two front ends make
-- of a frame. The sockets are parameters: how a read ends, and whether the response could be sent.
use oven_multiskill_runtime.Common.{
  ℕ, String, Bool, true, false, Option, none, some, List, [], ◌∷◌, length, ltb, ◌==◌, not, ◌||◌,
  pos, Raised, faulted, interrupt, Result, ok, err, Action, pure, raise, lift, ◌>>=◌, ◌>>◌,
  if◌then◌else◌,
}
use oven_multiskill_runtime.Errors.{
  RuntimeFault, fault, server_failed, frame_too_large, frame_decode_failed,
}
use oven_multiskill_runtime.Errors.Codes.{fault_fields}
use oven_multiskill_runtime.Value.{Value, Fields, integer, text, field}
use oven_multiskill_runtime.Protocol.{InferenceResponse}
use oven_multiskill_runtime.Server.Audit.{WriteOutcome}
use oven_multiskill_runtime.Server.Runtime.{Method}
use oven_multiskill_runtime.Server.Trial.{mark_transport_ambiguous}
use oven_multiskill_runtime.Server.Control.{ControlCall, Reply, execute, failure}

-- A response of the inference server: the runtime's, or an error.
pub data Answer : Type 0 where
  inference_response : InferenceResponse → Answer
  inference_error : RuntimeFault → Answer

-- The mapping of an error.
unfoldable pub error_fields : RuntimeFault → Fields
error_fields f =
    field "protocol_version" (integer (pos 1))
      (field "message_type" (text "inference_error") (fault_fields f))

-- `_process_frame`, by how the frame was unpacked and how `infer` ends for its payload.
unfoldable pub process_frame : Result Value → (Value → Result InferenceResponse) → Result Answer
process_frame unpacked infer =
    elim (elim unpacked as (λ _. Result InferenceResponse) [
      | err e ↦ err e
      | ok payload ↦ infer payload
    ]) [
      | ok r ↦ ok (inference_response r)
      | err (faulted f) ↦ ok (inference_error f)
      | err interrupt ↦ err interrupt
      | err e ↦
          ok (inference_error (fault server_failed "inference server failed to process request"))
    ]

-- The session and the sequence of a response that could not be returned become ambiguous.
abbrev after_failure : WriteOutcome → Answer → Method Bool
after_failure write (inference_error f) = pure false
after_failure write (inference_response r) = do
  mark_transport_ambiguous write r.session_id r.sequence
  pure false

-- The rest of the loop of `_handle_connection`: the response is packed and sent. Whether the loop
-- goes on to the next frame is the value.
unfoldable pub return_answer : Result (Unit {0}) → WriteOutcome → Answer → Method Bool
unfolding mark_transport_ambiguous
return_answer (ok u) write a = pure true
return_answer (err interrupt) write a = raise interrupt
return_answer (err e) write a = after_failure write a

abbrev pub max_control_frame_bytes : ℕ
max_control_frame_bytes = 65536

-- How `readuntil` ends in its time limit: with a frame, with more than the limit, with the end of
-- the stream after that many bytes, or with another exception, such as the time-out.
pub data Read : Type 0 where
  frame : List ℕ → Read
  limit_overrun : Read
  incomplete : (partial : ℕ) → Read
  read_raised : Raised → Read

-- `_read_frame`
abbrev pub read_frame : Read → Result (List ℕ)
read_frame (frame bytes) = ok bytes
read_frame limit_overrun =
    err (faulted (fault frame_too_large "control request exceeds its framing limit"))
read_frame (incomplete partial) =
    if ltb max_control_frame_bytes partial
    then err (faulted (fault frame_too_large "control request exceeds its framing limit"))
    else err
        (faulted (fault frame_decode_failed "control request ended before its newline delimiter"))
read_frame (read_raised e) = err e

abbrev ends_with_newline : List ℕ → Bool
ends_with_newline [] = false
ends_with_newline (c ∷ []) = c == 10
ends_with_newline (c ∷ d ∷ rest) = ends_with_newline (d ∷ rest)

abbrev check_frame : List ℕ → Result (List ℕ)
check_frame [] = err (faulted (fault frame_decode_failed "empty control request"))
check_frame (c ∷ rest) =
    if ltb max_control_frame_bytes (length (c ∷ rest)) || not (ends_with_newline (c ∷ rest))
    then err (faulted (fault frame_too_large "control request exceeds its framing limit"))
    else ok (c ∷ rest)

abbrev decoded : Option Value → Result Value
decoded none = err (faulted (fault frame_decode_failed "control request is not valid UTF-8 JSON"))
decoded (some v) = ok v

module _ {S : Type 0} (loads : List ℕ → Option Value) (serve : ControlCall → Action S Value) where
  abbrev requested : String → Read → Action S Reply
  requested id r = do
    bytes ← lift (read_frame r)
    checked ← lift (check_frame bytes)
    payload ← lift (decoded (loads checked))
    execute serve id payload

  -- `ControlDispatcher.error_response`
  abbrev error_response : String → RuntimeFault → Reply
  error_response id f = failure id "unknown" f

  abbrev replied : String → Result Reply × S → Result Reply × S
  replied id (err (faulted f), s) = (ok (error_response id f), s)
  replied id (err interrupt, s) = (err interrupt, s)
  replied id (err e, s) =
      (ok (error_response id (fault server_failed "control server failed to process request")), s)
  replied id (ok r, s) = (ok r, s)

  -- `_handle_connection` of the control server, up to the reply that it writes.
  unfoldable pub handle_request : String → Read → Action S Reply
  unfolding execute
  handle_request id r s = replied id (requested id r s)
