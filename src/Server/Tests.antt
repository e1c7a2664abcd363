-- ===== src/Server/Tests.antt =====
-- A whole run of the server, and the results at concrete inputs.
use oven_multiskill_runtime.Common.{
  String, true, ◌≡◌, ◌≢◌, none, some, List, [], ◌∷◌, ◌++◌, pos, ok, os_error, inl, refl, arith,
}
use oven_multiskill_runtime.State.{RuntimeState, SessionState}
use oven_multiskill_runtime.Value.{Value}
use oven_multiskill_runtime.Protocol.{InferenceRequest, RequestKind, is_trial_id}
use oven_multiskill_runtime.Server.Audit
use oven_multiskill_runtime.Server.Audit.{Store, Row, WriteOutcome, RecordWrites}
use oven_multiskill_runtime.Server.Backend.{BackendIdentity, BackendResult}
use oven_multiskill_runtime.Server.Runtime
use oven_multiskill_runtime.Server.Runtime.{PolicyRuntime, SessionLease}
use oven_multiskill_runtime.Server.Prepare.{waits, prepare_enter, prepare_load, prepare_install}
use oven_multiskill_runtime.Server.Session.{open_session}
use oven_multiskill_runtime.Server.Trial
use oven_multiskill_runtime.Server.Trial.{begin_trial, mark_transport_ambiguous}
use oven_multiskill_runtime.Server.Inference.{
  Evidence, row_of, check_request, infer_enter, infer_policy, infer_leave, infer_commit,
}
use oven_multiskill_runtime.Server.System.{System, Event, step, run, boot}
use oven_multiskill_runtime.Server.Invariant.{IsValid, IsDown}
use oven_multiskill_runtime.Server.Invariant.Runs.{AllSane, run-IsValid}
use oven_multiskill_runtime.Server.Safety.Authentication.{
  Admits, infer_enter-Admits, infer_commit_spends, prepare_never_waits,
}
use oven_multiskill_runtime.Server.Safety.Failure.{IsRefused, run-IsDown, down-IsRefused}

abbrev hash : Value → String
hash v = "hash"

abbrev session_id : String
session_id = "00000000-0000-0000-0000-000000000001"

abbrev token : String
token = "a-token-of-at-least-thirty-two-characters"

abbrev request : InferenceRequest
request = record {
  protocol_version = 1;
  session_id = session_id;
  session_token = token;
  trial_id = "trial1";
  request_kind = RequestKind.infer;
  expected_skill = "open_door";
  expected_generation = 1;
  sequence = 0;
  sent_at_monotonic_ns = 0;
  observation = Value.null;
}

abbrev identity : BackendIdentity
identity = record { backend = "fake"; skill = "open_door"; model_id = "m" }

abbrev result : BackendResult
result = record { actions = Value.null; noise_hash = "n" }

abbrev writes : RecordWrites
writes = record {
  chunk = WriteOutcome.done;
  chunk_json = WriteOutcome.done;
  append = WriteOutcome.done;
}

abbrev empty_store : Store
empty_store = record { active = none; disk = [] }

abbrev to_inference : List Event
to_inference =
    Event.prepare_skill "open_door" 10 0 0
    ∷ Event.prepare_acquire
    ∷ Event.prepare_loaded (ok identity)
    ∷ Event.prepare_done
    ∷ Event.begin_trial_call (ok tt) none WriteOutcome.done "trial1" (pos 7)
    ∷ Event.open_session_call session_id token 5
    ∷ []

-- One inference, between whose regions other threads ask for a switch and for an abort.
abbrev one_inference : List Event
one_inference =
    Event.infer_call request 6
    ∷ Event.prepare_skill "close_door" 10 6 6
    ∷ Event.policy_returns (ok result) (ok tt) writes
    ∷ Event.abort_call WriteOutcome.done "operator"
    ∷ Event.infer_answers
    ∷ Event.infer_returns
    ∷ Event.ambiguous_call (WriteOutcome.fails_before os_error) session_id 0
    ∷ []

abbrev booted : System
booted = boot (Runtime.start 100 empty_store)

abbrev ready : System
ready = run hash to_inference booted

-- The lease that the run opens.
abbrev lease : SessionLease
lease = record {
  ident = 0;
  session_id = session_id;
  token = token;
  skill = "open_door";
  generation = 1;
  trial_id = "trial1";
  expires_at_monotonic = 105;
  next_sequence = 0;
  state = SessionState.active;
}

ready_has_lease : (ready.runtime.session ≡ some lease) × (ready.runtime.state ≡ RuntimeState.ready)
unfolding run step open_session begin_trial is_trial_id prepare_enter boot Runtime.start
    prepare_load prepare_install Audit.begin
ready_has_lease = (refl, refl)

-- The inference was answered, the runtime is FAILED by the ambiguous request, and the session of
-- the lease is retired.
inference_answered :
    let r = (run hash one_inference ready).runtime in
    (r.state ≡ RuntimeState.failed) × (r.in_flight ≡ 0) × (r.session ≡ none)
unfolding run step open_session begin_trial is_trial_id prepare_enter boot Runtime.start
    prepare_load prepare_install Audit.begin infer_enter check_request infer_policy infer_commit
    infer_leave Trial.abort mark_transport_ambiguous Audit.record_request Audit.mark_ambiguous
inference_answered = (refl, refl, refl)

sane_events : AllSane (to_inference ++ one_inference)
sane_events = ground arith

run-IsValid_example :
    IsValid (run hash (to_inference ++ one_inference) (boot (Runtime.start 100 empty_store)))
run-IsValid_example =
    run-IsValid hash 100 empty_store (to_inference ++ one_inference) refl sane_events

ready-IsValid : IsValid ready
ready-IsValid = run-IsValid hash 100 empty_store to_inference refl (ground arith)

infer_enter-Admits_example :
    Admits request 6 ready.runtime (infer_enter true request 6 ready.runtime)
infer_enter-Admits_example = infer_enter-Admits true request 6 ready.runtime

-- What the inference of the request leaves.
abbrev row : Row
row = row_of hash request result

abbrev evidence : Evidence
evidence = record { row = row; actions = Value.null }

infer_commit_spends_example :
    (infer_enter true request 7 (infer_commit 0 request evidence ready.runtime).1).0 ≢ ok lease
infer_commit_spends_example =
    infer_commit_spends lease request evidence ready.runtime true 7 lease
      ready-IsValid.runtime_bound ready_has_lease.0 refl

prepare_never_waits_example : (prepare_enter "close_door" 10 0 6 ready.runtime).0 ≢ ok (waits 10)
prepare_never_waits_example = prepare_never_waits ready "close_door" 10 0 6 10 ready-IsValid

failed_events : AllSane one_inference
failed_events = ground arith

abbrev failed : System
failed = record booted { runtime = record booted.runtime { state = RuntimeState.failed } }

failed-IsValid : IsValid failed
unfolding boot Runtime.start
failed-IsValid = ground arith

run-IsDown_example : IsDown (run hash one_inference failed).runtime.state
run-IsDown_example = run-IsDown hash one_inference failed failed_events failed-IsValid (inl refl)

down-IsRefused_example : IsRefused failed.runtime
down-IsRefused_example = down-IsRefused failed.runtime failed-IsValid.runtime_bound (inl refl)
