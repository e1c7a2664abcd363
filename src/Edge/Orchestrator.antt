-- ===== src/Edge/Orchestrator.antt =====
-- src/oven_runtime/edge/orchestrator.py: the state of the pipeline and its helpers. The
-- rollout, the stage, and the run with its stop are in Rollout, Stage and Run.
use oven_multiskill_runtime.Common.{
  String, Bool, false, Option, none, some, List, [], ◌∷◌, other, faulted, Result, ok, err, Action,
  pure, lift, modify, if◌then◌else◌, ◌>>=◌, ◌>>◌,
}
use oven_multiskill_runtime.Errors.{fault, server_failed}
use oven_multiskill_runtime.State.{PipelineState, ensure_pipeline_transition}
use oven_multiskill_runtime.Value.{Value, Fields, get, mapping, null}
use oven_multiskill_runtime.Edge.Validation.{ObservationValidator, ActionValidator}
use oven_multiskill_runtime.Edge.Audit
use oven_multiskill_runtime.Edge.Audit.{EdgeStore}
use oven_multiskill_runtime.Edge.Environment.{Call, Command, ControlResponse, Environment}
use oven_multiskill_runtime.Edge.Plan.{PipelinePlan}

-- `trace` lists the calls made of the other components, the last one first.
pub record Orchestrator : Type 0 where
  pub plan : PipelinePlan
  pub observation_validator : ObservationValidator
  pub action_validator : ActionValidator
  pub state : PipelineState
  pub active_session_id : Option Value
  pub trial_started : Bool
  pub audit : EdgeStore
  pub trace : List Call

-- `__init__`, for a plan that was validated.
unfoldable pub start :
    PipelinePlan → ObservationValidator → ActionValidator → EdgeStore → Orchestrator
start plan observations actions audit = record {
  plan = plan;
  observation_validator = observations;
  action_validator = actions;
  state = PipelineState.created;
  active_session_id = none;
  trial_started = false;
  audit = audit;
  trace = [];
}

abbrev pub Method : Type 0 → Type 0
Method A = Action Orchestrator A

abbrev pub self : Method Orchestrator
self o = (ok o, o)

-- Calls a component: the call joins the trace, and the component sees it.
abbrev pub ask : {A : Type 0} → Call → (List Call → A) → Method A
ask c answer o = (ok (answer (c ∷ o.trace)), record o { trace = c ∷ o.trace })

abbrev pub call : {A : Type 0} → Call → (List Call → Result A) → Method A
call c answer o = (answer (c ∷ o.trace), record o { trace = c ∷ o.trace })

-- A call of the audit store.
abbrev pub on_audit : {A : Type 0} → Action EdgeStore A → Method A
on_audit m o = let (a, s) = m o.audit in (a, record o { audit = s })

-- `value[key]`: a missing key raises `KeyError`.
abbrev pub item : String → Fields → Result Value
item key fs = elim (get key fs) [ none ↦ err other | some v ↦ ok v ]

-- A value that is compared with `None`.
abbrev pub not_none : Value → Option Value
not_none null = none
not_none v = some v

abbrev as_dictionary : Option Value → Result Fields
as_dictionary (some (mapping fs)) = ok fs
as_dictionary _ =
    err (faulted (fault server_failed "control client returned an invalid success response"))

abbrev checked_result : ControlResponse → Result Fields
checked_result r =
    if r.is_ok
    then as_dictionary r.result
    else err (faulted (fault server_failed "control client returned an invalid success response"))

module _ (env : Environment) where
  -- `_control`
  unfoldable pub send : Command → Method Fields
  send c = do response ← call (Call.control c) env.control; lift (checked_result response)

  -- `_transition`
  unfoldable pub transition : PipelineState → Method (Unit {0})
  unfolding ensure_pipeline_transition
  transition target = do
    o ← self
    lift (ensure_pipeline_transition o.state target)
    modify (λ o. record o { state = target })
    write ← ask Call.write_file env.write
    on_audit (Audit.set_pipeline_state write target)
    pure tt
