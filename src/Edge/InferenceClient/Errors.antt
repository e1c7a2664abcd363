-- ===== src/Edge/InferenceClient/Errors.antt =====
-- What the edge's client makes of the answer of the inference server to a frame.
use oven_multiskill_runtime.Common.{
  ℕ, String, ◌≡◌, refl, length, codes, faulted, file_exists, os_error, other, interrupt, Result, ok,
  err, arith,
}
use oven_multiskill_runtime.Errors.{RuntimeFault, fault, server_failed}
use oven_multiskill_runtime.Errors.Codes.{code_of-code_text}
use oven_multiskill_runtime.Value.{Value, Fields, field, end, mapping}
use oven_multiskill_runtime.Value.Compare.{Comparison}
use oven_multiskill_runtime.Protocol.{InferenceRequest, InferenceResponse}
use oven_multiskill_runtime.Server.Audit.{RecordWrites}
use oven_multiskill_runtime.Server.Backend.{BackendResult}
use oven_multiskill_runtime.Server.Inference.{Evidence, infer_policy, infer_commit}
use oven_multiskill_runtime.Server.Runtime.{PolicyRuntime}
use oven_multiskill_runtime.Server.Frontend.{
  Answer, inference_response, inference_error, error_fields, process_frame,
}
use oven_multiskill_runtime.Edge.InferenceClient.Matches.{infer_commit-validates}
use oven_multiskill_runtime.Edge.InferenceClient.{response_fields, validate_inference_response}

-- The mapping that is packed and sent.
abbrev pub answer_fields : Answer → Fields
answer_fields (inference_response r) = response_fields r
answer_fields (inference_error f) = error_fields f

-- The server's regions made the response, of what the policy returned for the request, with a noise
-- hash of 64 characters.
pub record IsMade (hash : Value → String) (q : InferenceRequest) (a : InferenceResponse)
    : Type 0 where
  pub writes : RecordWrites
  pub ident : ℕ
  pub result : BackendResult
  pub at_policy : PolicyRuntime
  pub at_commit : PolicyRuntime
  pub evidence : Evidence
  pub has_noise : length (codes result.noise_hash) ≡ 64
  pub policy : (infer_policy hash (ok result) (ok tt) writes q at_policy).0 ≡ ok evidence
  pub commit : (infer_commit ident q evidence at_commit).0 ≡ ok a

-- What the client's caller gets for the answer, by how the server's inference ended.
abbrev pub Conveys : (Answer → Result Fields) → Result InferenceResponse → Result Answer → Type 0
Conveys client (ok r) answer =
    (answer ≡ ok (inference_response r)) × (client (inference_response r) ≡ ok (response_fields r))
Conveys client (err (faulted f)) answer =
    (a : Answer) × (answer ≡ ok a) × (client a ≡ err (faulted (fault f.code f.message)))
Conveys client (err interrupt) answer = answer ≡ err interrupt
Conveys client (err e) answer =
    (a : Answer) × (answer ≡ ok a)
    × (client a ≡ err (faulted (fault server_failed "inference server failed to process request")))

module _ (c : Comparison) (hash : Value → String) (q : InferenceRequest) where
  abbrev pub received : Answer → Result Fields
  received a = validate_inference_response c hash q (mapping (answer_fields a))

  abbrev server_fault : RuntimeFault
  server_fault = fault server_failed "inference server failed to process request"

  error_received :
      (f : RuntimeFault) → received (inference_error f) ≡ err (faulted (fault f.code f.message))
  unfolding validate_inference_response error_fields
  error_received f = go f.details
    where
      go :
          (details : Fields)
          → received (inference_error (record f { details = details }))
            ≡ err (faulted (fault f.code f.message))
      go end = ground (arith, code_of-code_text f.code)
      go (field k v fs) = ground (arith, code_of-code_text f.code)

  answered_lem :
      (infer : Value → Result InferenceResponse) (payload : Value) (r : Result InferenceResponse)
      → ((v : Value) → length (codes (hash v)) ≡ 64)
      → ((a : InferenceResponse) → infer payload ≡ ok a → IsMade hash q a)
      → infer payload ≡ r
      → Conveys received r (process_frame (ok payload) infer)
  unfolding process_frame
  answered_lem infer payload (ok r) n m h =
      let made = m r h in
      (
        ground arith,
        infer_commit-validates c hash made.writes made.ident q made.result made.at_policy
            made.at_commit made.evidence r n made.has_noise made.policy made.commit,
      )
  answered_lem infer payload (err (faulted f)) n m h =
      (inference_error f, ground arith, error_received f)
  answered_lem infer payload (err interrupt) n m h = ground arith
  answered_lem infer payload (err file_exists) n m h =
      (inference_error server_fault, ground arith, error_received server_fault)
  answered_lem infer payload (err os_error) n m h =
      (inference_error server_fault, ground arith, error_received server_fault)
  answered_lem infer payload (err other) n m h =
      (inference_error server_fault, ground arith, error_received server_fault)

-- When every response that the server's inference of a payload returns was made by the server's
-- regions for the client's request, with a noise hash of 64 characters, and hashes have 64
-- characters, then, whatever the inference ends with: its response is the answer, and the client's
-- checks give its mapping to the caller unchanged; its fault reaches the caller with the same code
-- and message and without its details; another exception reaches it as `SERVER_FAILED`; and an interrupt ends the server's
-- task with no answer.
pub process_frame-Conveys :
    (c : Comparison) (hash : Value → String) (q : InferenceRequest)
    (infer : Value → Result InferenceResponse) (payload : Value)
    → ((v : Value) → length (codes (hash v)) ≡ 64)
    → ((a : InferenceResponse) → infer payload ≡ ok a → IsMade hash q a)
    → Conveys (received c hash q) (infer payload) (process_frame (ok payload) infer)
process_frame-Conveys c hash q infer payload n m =
    answered_lem c hash q infer payload (infer payload) n m refl
