-- ===== src/Edge/Tests.antt =====
-- A whole run of the edge at concrete components, and the results at concrete inputs.
use oven_multiskill_runtime.Common.{
  ltb, ◌↔◌, ◌<◌, ◌+◌, ◌≤◌, true, false, ◌≡◌, ◌≢◌, none, some, List, [], ◌∷◌, pos, negsuc, Result,
  ok, err, os_error, refl, arith,
}
use oven_multiskill_runtime.State.{PipelineState}
use oven_multiskill_runtime.Value.{Value, Fields, field, end, text, mapping, boolean, sequence, nil}
use oven_multiskill_runtime.AuditSchema.{EvidenceStatus, StageEvidence, completed}
use oven_multiskill_runtime.Edge.Contracts.{
  GateResult, finite, Observation, PublishResult, CheckerResult,
}
use oven_multiskill_runtime.Edge.Validation.{
  ObservationValidator, ActionValidator, NdArray, validate_actions, validate_observation,
}
use oven_multiskill_runtime.Edge.Audit
use oven_multiskill_runtime.Edge.Audit.{
  EdgeStore, ActiveEdgeRun, RunManifest, RunStatus, WriteOutcome,
}
use oven_multiskill_runtime.Edge.Environment.{Call, Command, ControlResponse, Environment}
use oven_multiskill_runtime.Edge.Plan.{StagePlan, PipelinePlan, validate_plan}
use oven_multiskill_runtime.Edge.Orchestrator
use oven_multiskill_runtime.Edge.Orchestrator.{Orchestrator}
use oven_multiskill_runtime.Edge.Rollout.{request, record_row, round, rollout_from, rollout}
use oven_multiskill_runtime.Edge.Rollout.Budget.{publishes, Returns, rollout-Returns}
use oven_multiskill_runtime.Edge.Stage.{
  reset_stage, open_stage, close_stage, check_stage, run_stage,
}
use oven_multiskill_runtime.Edge.Orchestrator.{send, transition}
use oven_multiskill_runtime.Edge.Run.{run, run_body, run_stages}
use oven_multiskill_runtime.Edge.Run.Completion.{IsFinished, run_ok}
use oven_multiskill_runtime.Edge.Run.Approval.{run_unapproved}
use oven_multiskill_runtime.Edge.Audit.Progress.{
  StoreCall, begins, starts, commits, completes, perform_all, IsInOrder, perform_all-IsInOrder,
}
use oven_multiskill_runtime.Edge.Validation.Bounds.{
  IsMatrix, HasShape, AllRows, RowWithin, validate_actions_ok, validate_observation_iff,
}
use oven_multiskill_runtime.State.{ensure_pipeline_transition}
use oven_multiskill_runtime.Protocol.{is_trial_id}

abbrev stage : StagePlan
stage = record {
  skill = "open_door";
  root_seed = pos 7;
  max_chunks = 3;
  action_steps = 4;
  settle = 1;
  reset_before = true;
  checker_required = false;
}

abbrev plan : PipelinePlan
plan = record { run_id = "run1"; stages = stage ∷ [] }

abbrev observation_validator : ObservationValidator
observation_validator = record { max_age_ns = 100 }

abbrev action_validator : ActionValidator
action_validator = record { action_dimension = 2; chunk_rows = 1; max_absolute_value = 10 }

-- A chunk of one row of twice the configured joints.
abbrev chunk : NdArray
chunk = record {
  shape = 1 ∷ 4 ∷ [];
  is_numeric = true;
  all_finite = true;
  lowest = none;
  rows = (pos 3 ∷ negsuc 3 ∷ pos 90 ∷ pos 0 ∷ []) ∷ [];
}

abbrev observation : Observation
observation = record {
  payload = mapping (field "image" Value.null end);
  captured_at_monotonic_ns = 5;
}

abbrev session : Fields
session = field "skill" (text "open_door") (
    field "session_id" (text "s") (
      field "session_token" (text "t") (
        field "trial_id" (text "run1_0_open_door")
          (field "generation" (Value.integer (pos 1)) end))))

abbrev response : Fields
response = field "publishable" (boolean true) (
    field "actions" (sequence nil)
      (field "request_hash" (text "r") (field "action_hash" (text "a") end)))

abbrev answer : List Call → Result ControlResponse
answer (Call.control Command.open_session ∷ t) =
    ok (record { is_ok = true; result = some (mapping session) })
answer _ =
    ok (record { is_ok = true; result = some (mapping (field "status" (text "COMMITTED") end)) })

abbrev passed_gate : GateResult
passed_gate = record {
  passed = true;
  samples = 4;
  max_error = finite 1;
  max_spread = finite 1;
  reason = "stable_target_window";
}

-- The first publication does not stop, the second does.
abbrev published : List Call → Result PublishResult
published t = ok (record {
  stop_requested = ltb 1 (publishes t);
  reason = none;
  published_rows = 1;
  gate_result = some passed_gate;
})

abbrev environment : Environment
environment = record {
  approve = λ t. ok true;
  perform = λ t. ok tt;
  sample = λ t. ok observation;
  clock = λ t. 50;
  control = answer;
  infer = λ t. ok response;
  as_array = λ v. chunk;
  publish = published;
  evaluate = λ t. err os_error;
  write = λ t. WriteOutcome.done;
  make_directory = λ t. none;
}

abbrev store : EdgeStore
store = record { active = none; disk = [] }

abbrev fresh : Orchestrator
fresh = Orchestrator.start plan observation_validator action_validator store

abbrev manifest : RunManifest
manifest = record {
  run_id = "run1";
  status = RunStatus.completed;
  pipeline_state = PipelineState.completed;
  planned_skills = "open_door" ∷ [];
  completed_stages = 1;
  error = none;
}

plan_is_valid : validate_plan plan ≡ ok tt
unfolding validate_plan is_trial_id
plan_is_valid = refl

run_completes : (run environment fresh).0 ≡ ok manifest
unfolding run run_body run_stages run_stage reset_stage open_stage close_stage check_stage rollout
    rollout_from round request record_row validate_observation validate_actions send transition
    ensure_pipeline_transition completed is_trial_id Orchestrator.start Audit.begin
    Audit.set_pipeline_state Audit.start_stage Audit.record_rollout Audit.complete_stage
    Audit.complete
run_completes = refl

-- In the middle of a rollout.
abbrev opened : Orchestrator
opened = record fresh {
  state = PipelineState.rollout;
  active_session_id = some (text "s");
  trial_started = true;
}

rollout-Returns_example : Returns 3 opened (rollout environment stage session opened)
rollout-Returns_example = rollout-Returns environment stage session opened

run_ok_example : (environment.approve [] ≡ ok true) × IsFinished manifest (run environment fresh).1
run_ok_example = run_ok environment fresh manifest run_completes

abbrev refusing : Environment
refusing = record environment { approve = λ t. ok false }

run_unapproved_example :
    ((run refusing fresh).0 ≢ ok manifest)
    × ((run refusing fresh).1
        ≡ record fresh { trace = Call.approve_run "run1" ("open_door" ∷ []) ∷ [] })
unfolding Orchestrator.start
run_unapproved_example = run_unapproved refusing fresh (λ h. ground arith) manifest

abbrev evidence : StageEvidence
evidence = record {
  rollout_exit_code = some (pos 0);
  rollout_end_reason = some "joint_rest_detected";
  rollout_end_reason_approved = true;
  joint_gate = EvidenceStatus.passed;
  checker = EvidenceStatus.not_required;
  server_audit = EvidenceStatus.passed;
  edge_audit = EvidenceStatus.passed;
}

abbrev checker_result : CheckerResult
checker_result = record { passed = true; score = 1; threshold = 0; asset_id = "a"; reason = "r" }

abbrev calls : List StoreCall
calls =
    begins none WriteOutcome.done "run1" ("open_door" ∷ [])
    ∷ starts none WriteOutcome.done 0 "open_door" "run1_0_open_door"
    ∷ commits WriteOutcome.done (WriteOutcome.fails_after os_error) evidence passed_gate
        checker_result end
    ∷ starts none WriteOutcome.done 1 "open_door" "run1_1_open_door"
    ∷ completes WriteOutcome.done
    ∷ []

perform_all-IsInOrder_example : IsInOrder (perform_all calls store).active
perform_all-IsInOrder_example = perform_all-IsInOrder calls store tt

abbrev running : ActiveEdgeRun
running = record {
  run_id = "run1";
  planned_skills = "open_door" ∷ [];
  completed_stages = 0;
  active_stage = none;
}

abbrev running_store : EdgeStore
running_store = record { active = some running; disk = [] }

-- A row of `int8`, with the least value of that dtype.
abbrev int8_chunk : NdArray
int8_chunk = record chunk {
  lowest = some 128;
  rows = (pos 3 ∷ negsuc 127 ∷ pos 90 ∷ pos 0 ∷ []) ∷ [];
}

int8_chunk-IsMatrix : IsMatrix int8_chunk
int8_chunk-IsMatrix rows columns h = ground arith

validate_actions_ok_example :
    HasShape 1 2 ((pos 3 ∷ negsuc 127 ∷ []) ∷ [])
    × AllRows (RowWithin (some 128) 10) ((pos 3 ∷ negsuc 127 ∷ []) ∷ [])
    × (true ≡ true)
unfolding validate_actions
validate_actions_ok_example =
    validate_actions_ok action_validator int8_chunk ((pos 3 ∷ negsuc 127 ∷ []) ∷ [])
      int8_chunk-IsMatrix refl

validate_observation_iff_example :
    (validate_observation observation_validator 50 observation ≡ ok (field "image" Value.null end))
    ↔ ((observation.payload ≡ mapping (field "image" Value.null end))
        × (field "image" Value.null end ≢ end)
        × (0 < 100)
        × (5 ≤ 50)
        × (50 ≤ 5 + 100))
validate_observation_iff_example =
    validate_observation_iff observation_validator 50 observation (field "image" Value.null end)
