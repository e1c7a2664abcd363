-- ===== src/Edge/InferenceClient/Tests.antt =====
-- The inference client at one request and the server's response to it.
use oven_multiskill_runtime.Common.{String, false, ◌≡◌, none, subst, List, [], ◌∷◌, pos, ok, refl}
use oven_multiskill_runtime.Value.{Value, mapping}
use oven_multiskill_runtime.Value.Compare.{Comparison}
use oven_multiskill_runtime.Protocol.{InferenceRequest, InferenceResponse, RequestKind, is_trial_id}
use oven_multiskill_runtime.Server.Audit
use oven_multiskill_runtime.Server.Audit.{Store, WriteOutcome, RecordWrites}
use oven_multiskill_runtime.Server.Backend.{BackendResult}
use oven_multiskill_runtime.Server.Runtime
use oven_multiskill_runtime.Server.Prepare.{prepare_enter, prepare_load, prepare_install}
use oven_multiskill_runtime.Server.Session.{open_session}
use oven_multiskill_runtime.Server.Trial.{begin_trial}
use oven_multiskill_runtime.Server.Inference.{
  Evidence, row_of, infer_policy, infer_commit, response_of,
}
use oven_multiskill_runtime.Server.System.{System, Event, step, run, boot}
use oven_multiskill_runtime.Edge.InferenceClient.{response_fields, validate_inference_response}
use oven_multiskill_runtime.Server.Frontend.{process_frame}
use oven_multiskill_runtime.Edge.InferenceClient.Errors.{
  IsMade, Conveys, received, process_frame-Conveys,
}
use oven_multiskill_runtime.Edge.InferenceClient.Matches.{Matches, infer_commit-validates}

abbrev digest : String
digest = "0123456789abcdef0123456789abcdef0123456789abcdef0123456789abcdef"

abbrev hash : Value → String
hash v = digest

abbrev no_floats : Comparison
no_floats = record { float_equals = λ t n. false; array_equals = λ dtype shape bytes x. ok false }

abbrev session_id : String
session_id = "00000000-0000-0000-0000-000000000001"

abbrev token : String
token = "a-token-of-at-least-thirty-two-characters"

abbrev request : InferenceRequest
request = record {
  protocol_version = 1;
  session_id = session_id;
  session_token = token;
  trial_id = "trial1";
  request_kind = RequestKind.infer;
  expected_skill = "open_door";
  expected_generation = 1;
  sequence = 0;
  sent_at_monotonic_ns = 0;
  observation = Value.null;
}

abbrev result : BackendResult
result = record { actions = Value.null; noise_hash = digest }

abbrev writes : RecordWrites
writes = record {
  chunk = WriteOutcome.done;
  chunk_json = WriteOutcome.done;
  append = WriteOutcome.done;
}

abbrev events : List Event
events =
    Event.prepare_skill "open_door" 10 0 0
    ∷ Event.prepare_acquire
    ∷ Event.prepare_loaded (ok (record { backend = "fake"; skill = "open_door"; model_id = "m" }))
    ∷ Event.prepare_done
    ∷ Event.begin_trial_call (ok tt) none WriteOutcome.done "trial1" (pos 7)
    ∷ Event.open_session_call session_id token 5
    ∷ []

abbrev ready : System
ready = run hash events (boot (Runtime.start 100 (record { active = none; disk = [] })))

abbrev evidence : Evidence
evidence = record { row = row_of hash request result; actions = Value.null }

abbrev response : InferenceResponse
response = response_of request evidence

policy_returned :
    (infer_policy hash (ok result) (ok tt) writes request ready.runtime).0 ≡ ok evidence
unfolding run step open_session begin_trial is_trial_id prepare_enter boot Runtime.start
    prepare_load prepare_install Audit.begin infer_policy Audit.record_request
policy_returned = refl

server_answered : (infer_commit 0 request evidence ready.runtime).0 ≡ ok response
unfolding run step open_session begin_trial is_trial_id prepare_enter boot Runtime.start
    prepare_load prepare_install Audit.begin infer_commit
server_answered = refl

infer_commit-validates_example :
    validate_inference_response no_floats hash request (mapping (response_fields response))
    ≡ ok (response_fields response)
infer_commit-validates_example =
    infer_commit-validates no_floats hash writes 0 request result ready.runtime ready.runtime
      evidence response (λ v. refl) refl policy_returned server_answered

response-IsMade : IsMade hash request response
response-IsMade = record {
  writes = writes;
  ident = 0;
  result = result;
  at_policy = ready.runtime;
  at_commit = ready.runtime;
  evidence = evidence;
  has_noise = refl;
  policy = policy_returned;
  commit = server_answered;
}

ok_same : {a b : InferenceResponse} → ok a ≡ ok b → a ≡ b
ok_same e = cc e

-- The server answers the request, and the client's caller gets the response.
process_frame-Conveys_example :
    Conveys
      (received no_floats hash request)
      (ok response)
      (process_frame (ok Value.null) (λ v. ok response))
process_frame-Conveys_example =
    process_frame-Conveys no_floats hash request (λ v. ok response) Value.null (λ v. refl)
      (λ a e. subst (IsMade hash request) (ok_same e) response-IsMade)
