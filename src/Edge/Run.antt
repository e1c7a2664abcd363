-- ===== src/Edge/Run.antt =====
-- src/oven_runtime/edge/orchestrator.py, `run` and `_safe_stop`.
pub mod Approval
pub mod Completion
pub mod Stop
use oven_multiskill_runtime.Common.{
  ℕ, suc, String, Bool, true, false, Option, none, some, List, [], ◌∷◌, any, Raised, faulted,
  interrupt, ok, pure, raise, lift, modify, catch, raise_if, not, if◌then◌else◌, ◌>>=◌, ◌>>◌,
}
use oven_multiskill_runtime.Errors.{ErrorCode, fault, approval_required, pipeline_failed}
use oven_multiskill_runtime.State.{PipelineState, pipeline_is, ensure_pipeline_transition}
use oven_multiskill_runtime.Value.{Value}
use oven_multiskill_runtime.Edge.Audit
use oven_multiskill_runtime.Edge.Audit.{RunManifest}
use oven_multiskill_runtime.Edge.Environment.{Call, Command, Environment}
use oven_multiskill_runtime.Edge.Plan.{StagePlan, skills_of}
use oven_multiskill_runtime.Edge.Orchestrator.{
  Orchestrator, Method, self, ask, call, on_audit, send, transition,
}
use oven_multiskill_runtime.Edge.Stage.{run_stage}

abbrev is_interrupt : Raised → Bool
is_interrupt interrupt = true
is_interrupt _ = false

-- `try: m; except Exception: pass`, where `except` passes an interrupt on.
abbrev pub attempt : {A : Type 0} → Method A → Method (Unit {0})
attempt m = catch (do m; pure tt) (λ e. if is_interrupt e then raise e else pure tt)

abbrev state_in : List PipelineState → Orchestrator → Bool
state_in states o = any (pipeline_is o.state) states

module _ (env : Environment) where
  -- To SAFE_STOP, unless the run has ended.
  unfoldable pub enter_safe_stop : Method (Unit {0})
  enter_safe_stop = do
    o ← self
    if state_in (PipelineState.safe_stop ∷ PipelineState.failed ∷ PipelineState.completed ∷ []) o
        then pure tt
        else (do
          lift (ensure_pipeline_transition o.state PipelineState.safe_stop)
          modify (λ o. record o { state = PipelineState.safe_stop }))

  unfoldable pub stop_actions : Method (Unit {0})
  stop_actions = attempt (call Call.stop env.perform)

  unfoldable pub close_if_open : Option Value → Method (Unit {0})
  close_if_open none = pure tt
  close_if_open (some id) = do
    attempt (send env (Command.close_session id))
    modify (λ o. record o { active_session_id = none })

  unfoldable pub close_open_session : Method (Unit {0})
  close_open_session o = close_if_open o.active_session_id o

  unfoldable pub abort_open_trial : Method (Unit {0})
  abort_open_trial = do
    o ← self
    if o.trial_started
        then (do attempt (send env Command.abort); modify (λ o. record o { trial_started = false }))
        else pure tt

  unfoldable pub leave_safe_stop : Method (Unit {0})
  leave_safe_stop = do
    o ← self
    if pipeline_is o.state PipelineState.safe_stop
        then (do
          lift (ensure_pipeline_transition o.state PipelineState.failed)
          modify (λ o. record o { state = PipelineState.failed }))
        else pure tt

  unfoldable pub record_failure : ErrorCode → String → Method (Unit {0})
  record_failure code message = do
    write ← ask Call.write_file env.write
    write' ← ask Call.write_file env.write
    o ← self
    attempt (on_audit (Audit.fail write write' o.state code message))

  -- `_safe_stop`: the list of failed clean-up steps that the message may carry is left out.
  unfoldable pub safe_stop : ErrorCode → String → Method (Unit {0})
  safe_stop code message = do
    enter_safe_stop
    stop_actions
    close_open_session
    abort_open_trial
    leave_safe_stop
    record_failure code message

  unfoldable pub run_stages : ℕ → List StagePlan → Method (Unit {0})
  run_stages index [] = pure tt
  run_stages index (s ∷ ss) = do run_stage env index s; run_stages (suc index) ss

  -- The body of the `try` statement.
  unfoldable pub run_body : Method RunManifest
  run_body = do
    transition env PipelineState.preflight
    call Call.source_preflight env.perform
    call Call.reset_preflight env.perform
    call Call.action_preflight env.perform
    o ← self
    run_stages 0 o.plan.stages
    transition env PipelineState.completed
    write ← ask Call.write_file env.write
    on_audit (Audit.complete write)

  -- The `except` clauses.
  abbrev pub stop_and_raise : Raised → Method RunManifest
  stop_and_raise interrupt = do
    safe_stop pipeline_failed "operator interrupted pipeline"
    raise interrupt
  stop_and_raise (faulted f) = do safe_stop f.code f.message; raise (faulted f)
  stop_and_raise e = do
    safe_stop pipeline_failed "pipeline component failed"
    raise (faulted (fault pipeline_failed "pipeline component failed"))

  unfoldable pub run : Method RunManifest
  run = do
    o ← self
    approved ← call (Call.approve_run o.plan.run_id (skills_of o.plan)) env.approve
    raise_if (not approved) (fault approval_required "run-level operator approval was not granted")
    mkdir ← ask Call.make_directory env.make_directory
    write ← ask Call.write_file env.write
    on_audit (Audit.begin mkdir write o.plan.run_id (skills_of o.plan))
    catch run_body stop_and_raise
