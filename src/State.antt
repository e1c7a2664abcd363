-- ===== src/State.antt =====
-- src/oven_runtime/common/state.py: the states of the server's runtime, of a session and of the
-- edge's pipeline, with the transition tables.
pub mod Graph
mod Tests
use oven_multiskill_runtime.Common.{
  ℕ, Bool, List, [], ◌∷◌, any, ◌==◌, Result, ok, err, faulted, if◌then◌else◌,
}
use oven_multiskill_runtime.Errors.{state_rejected, fault}

pub data RuntimeState : Type 0 where
  starting loading ready draining switching failed stopping : RuntimeState

pub data SessionState : Type 0 where
  active closed expired aborted : SessionState

pub data PipelineState : Type 0 where
  created preflight resetting preparing_policy ready_to_rollout rollout : PipelineState
  joint_gate checking handoff completed safe_stop failed : PipelineState

-- The places of the states in their enumerations, by which two states are compared.
abbrev pub runtime_index : RuntimeState → ℕ
runtime_index RuntimeState.starting = 0
runtime_index RuntimeState.loading = 1
runtime_index RuntimeState.ready = 2
runtime_index RuntimeState.draining = 3
runtime_index RuntimeState.switching = 4
runtime_index RuntimeState.failed = 5
runtime_index RuntimeState.stopping = 6

abbrev pub pipeline_index : PipelineState → ℕ
pipeline_index PipelineState.created = 0
pipeline_index PipelineState.preflight = 1
pipeline_index PipelineState.resetting = 2
pipeline_index PipelineState.preparing_policy = 3
pipeline_index PipelineState.ready_to_rollout = 4
pipeline_index PipelineState.rollout = 5
pipeline_index PipelineState.joint_gate = 6
pipeline_index PipelineState.checking = 7
pipeline_index PipelineState.handoff = 8
pipeline_index PipelineState.completed = 9
pipeline_index PipelineState.safe_stop = 10
pipeline_index PipelineState.failed = 11

-- `a is b` for members of one enumeration.
abbrev pub runtime_is : RuntimeState → RuntimeState → Bool
runtime_is a b = runtime_index a == runtime_index b

abbrev pub pipeline_is : PipelineState → PipelineState → Bool
pipeline_is a b = pipeline_index a == pipeline_index b

-- `RUNTIME_TRANSITIONS`
unfoldable pub runtime_transitions : RuntimeState → List RuntimeState
runtime_transitions RuntimeState.starting =
    RuntimeState.loading ∷ RuntimeState.stopping ∷ RuntimeState.failed ∷ []
runtime_transitions RuntimeState.loading =
    RuntimeState.ready ∷ RuntimeState.failed ∷ RuntimeState.stopping ∷ []
runtime_transitions RuntimeState.ready =
    RuntimeState.draining ∷ RuntimeState.failed ∷ RuntimeState.stopping ∷ []
runtime_transitions RuntimeState.draining =
    RuntimeState.switching ∷ RuntimeState.failed ∷ RuntimeState.stopping ∷ []
runtime_transitions RuntimeState.switching =
    RuntimeState.loading ∷ RuntimeState.failed ∷ RuntimeState.stopping ∷ []
runtime_transitions RuntimeState.failed = RuntimeState.stopping ∷ []
runtime_transitions RuntimeState.stopping = []

-- `PIPELINE_TRANSITIONS`
unfoldable pub pipeline_transitions : PipelineState → List PipelineState
pipeline_transitions PipelineState.created = PipelineState.preflight ∷ PipelineState.safe_stop ∷ []
pipeline_transitions PipelineState.preflight =
    PipelineState.resetting ∷ PipelineState.safe_stop ∷ []
pipeline_transitions PipelineState.resetting =
    PipelineState.preparing_policy ∷ PipelineState.safe_stop ∷ []
pipeline_transitions PipelineState.preparing_policy =
    PipelineState.ready_to_rollout ∷ PipelineState.safe_stop ∷ []
pipeline_transitions PipelineState.ready_to_rollout =
    PipelineState.rollout ∷ PipelineState.safe_stop ∷ []
pipeline_transitions PipelineState.rollout = PipelineState.joint_gate ∷ PipelineState.safe_stop ∷ []
pipeline_transitions PipelineState.joint_gate =
    PipelineState.checking ∷ PipelineState.safe_stop ∷ []
pipeline_transitions PipelineState.checking = PipelineState.handoff ∷ PipelineState.safe_stop ∷ []
pipeline_transitions PipelineState.handoff =
    PipelineState.resetting ∷ PipelineState.completed ∷ PipelineState.safe_stop ∷ []
pipeline_transitions PipelineState.safe_stop = PipelineState.failed ∷ []
pipeline_transitions PipelineState.completed = []
pipeline_transitions PipelineState.failed = []

unfoldable pub ensure_runtime_transition : RuntimeState → RuntimeState → Result (Unit {0})
unfolding runtime_transitions
ensure_runtime_transition current target =
    if any (runtime_is target) (runtime_transitions current)
    then ok tt
    else err (faulted (fault state_rejected "illegal runtime state transition"))

unfoldable pub ensure_pipeline_transition : PipelineState → PipelineState → Result (Unit {0})
unfolding pipeline_transitions
ensure_pipeline_transition current target =
    if any (pipeline_is target) (pipeline_transitions current)
    then ok tt
    else err (faulted (fault state_rejected "illegal pipeline state transition"))
