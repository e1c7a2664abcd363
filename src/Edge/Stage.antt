-- ===== src/Edge/Stage.antt =====
-- src/oven_runtime/edge/orchestrator.py, `_run_stage`.
use oven_multiskill_runtime.Common.{
  ℕ, String, Bool, true, false, Option, none, some, pos, faulted, Result, ok, err, pure, lift, gets,
  modify, raise_if, not, str_eq, is_empty, if◌then◌else◌, ◌>>=◌, ◌>>◌,
}
use oven_multiskill_runtime.Errors.{fault, audit_commit_failed, joint_gate_failed, checker_failed}
use oven_multiskill_runtime.State.{PipelineState}
use oven_multiskill_runtime.AuditSchema.{EvidenceStatus, StageEvidence}
use oven_multiskill_runtime.Value.{Value, Fields, get, text}
use oven_multiskill_runtime.Edge.Contracts.{PublishResult, GateResult, CheckerResult}
use oven_multiskill_runtime.Edge.Audit
use oven_multiskill_runtime.Edge.Environment.{Call, Command, Environment}
use oven_multiskill_runtime.Edge.Plan.{StagePlan, trial_id_of}
use oven_multiskill_runtime.Edge.Orchestrator.{
  Orchestrator, Method, self, ask, call, on_audit, item, not_none, send, transition,
}
use oven_multiskill_runtime.Edge.Rollout.{rollout}

abbrev is_text : String → Option Value → Bool
is_text s (some (text t)) = str_eq t s
is_text s _ = false

-- The gate's result, if it passed.
abbrev passed_gate : PublishResult → Result GateResult
passed_gate p = elim p.gate_result [
  | none ↦ err (faulted (fault joint_gate_failed "rollout ended without joint-rest evidence"))
  | some g ↦
      if g.passed
      then ok g
      else err (faulted (fault joint_gate_failed "rollout ended without joint-rest evidence"))
]

-- `rollout_result.reason or "joint_rest_detected"`
abbrev reason_of : PublishResult → String
reason_of p = elim p.reason [
  | none ↦ "joint_rest_detected"
  | some t ↦ if is_empty t then "joint_rest_detected" else t
]

-- The evidence with the checker's status.
abbrev evidence_of : PublishResult → EvidenceStatus → StageEvidence
evidence_of p checker = record {
  rollout_exit_code = some (pos 0);
  rollout_end_reason = some (reason_of p);
  rollout_end_reason_approved = true;
  joint_gate = EvidenceStatus.passed;
  checker = checker;
  server_audit = EvidenceStatus.passed;
  edge_audit = EvidenceStatus.passed;
}

-- Scores are counted in millionths.
abbrev checker_not_required : CheckerResult
checker_not_required = record {
  passed = true;
  score = 1_000_000;
  threshold = 0;
  asset_id = "not_required";
  reason = "checker_not_required";
}

module _ (env : Environment) where
  -- The reset, before a stage that asks for one.
  unfoldable pub reset_stage : StagePlan → Method (Unit {0})
  reset_stage stage =
      if stage.reset_before
      then (do
        call (Call.reset stage.skill) env.perform
        call (Call.sleep stage.settle) env.perform)
      else pure tt

  -- The server's policy, trial and session for a stage; the result is the session.
  unfoldable pub open_stage : StagePlan → String → Method Fields
  open_stage stage trial_id = do
    send env (Command.prepare_skill stage.skill)
    modify (λ o. record o { trial_started = true })
    send env (Command.begin_trial trial_id stage.root_seed)
    session ← send env Command.open_session
    session_id ← lift (item "session_id" session)
    modify (λ o. record o { active_session_id = not_none session_id })
    pure session

  abbrev session_to_close : Orchestrator → Value
  session_to_close o = elim o.active_session_id [ none ↦ Value.null | some v ↦ v ]

  -- The end of a rollout: the executor stops, the session closes, and the server commits.
  unfoldable pub close_stage : Method Fields
  close_stage = do
    call Call.stop env.perform
    session_id ← gets session_to_close
    send env (Command.close_session session_id)
    modify (λ o. record o { active_session_id = none })
    summary ← send env Command.end_trial
    raise_if (not (is_text "COMMITTED" (get "status" summary)))
        (fault audit_commit_failed "server did not commit its trial evidence")
    modify (λ o. record o { trial_started = false })
    pure summary

  -- The checker's verdict with its status as evidence.
  unfoldable pub check_stage : StagePlan → Method (CheckerResult × EvidenceStatus)
  check_stage stage =
      if stage.checker_required
      then (do
        result ← call (Call.evaluate stage.skill) env.evaluate
        raise_if (not result.passed) (fault checker_failed "visual checker rejected the stage")
        pure (result, EvidenceStatus.passed))
      else pure (checker_not_required, EvidenceStatus.not_required)

  abbrev commit_stage :
      PublishResult → GateResult → CheckerResult × EvidenceStatus → Fields → Method (Unit {0})
  commit_stage result gate (checker, status) summary = do
    write ← ask Call.write_file env.write
    write' ← ask Call.write_file env.write
    on_audit (Audit.complete_stage write write' (evidence_of result status) gate checker summary)

  -- `_run_stage`
  unfoldable pub run_stage : ℕ → StagePlan → Method (Unit {0})
  run_stage index stage = do
    o ← self
    let trial_id = trial_id_of o.plan.run_id index stage.skill
    mkdir ← ask Call.make_directory env.make_directory
    write ← ask Call.write_file env.write
    on_audit (Audit.start_stage mkdir write index stage.skill trial_id)
    transition env PipelineState.resetting
    reset_stage stage
    transition env PipelineState.preparing_policy
    session ← open_stage stage trial_id
    transition env PipelineState.ready_to_rollout
    call (Call.begin_stage stage.skill) env.perform
    transition env PipelineState.rollout
    result ← rollout env stage session
    summary ← close_stage
    transition env PipelineState.joint_gate
    gate ← lift (passed_gate result)
    transition env PipelineState.checking
    checked ← check_stage stage
    commit_stage result gate checked summary
    transition env PipelineState.handoff
