-- ===== src/State/Tests.antt =====
-- The transition graphs at concrete paths.
use oven_multiskill_runtime.Common.{inl, refl}
use oven_multiskill_runtime.State.{
  RuntimeState, PipelineState, ensure_runtime_transition, ensure_pipeline_transition,
}
use oven_multiskill_runtime.State.Graph.{
  RuntimePath, PipelinePath, IsDown, IsAborted, Visits, RuntimePath-IsDown, PipelinePath-IsAborted,
  completed-Visits_gates,
}

-- Failed, then stopping.
shutdown : RuntimePath RuntimeState.failed RuntimeState.stopping
unfolding ensure_runtime_transition
shutdown = RuntimePath.move RuntimePath.stay refl

RuntimePath-IsDown_example : IsDown RuntimeState.stopping
RuntimePath-IsDown_example = RuntimePath-IsDown (inl refl) shutdown

stopped : PipelinePath PipelineState.safe_stop PipelineState.failed
unfolding ensure_pipeline_transition
stopped = PipelinePath.move PipelinePath.stay refl

PipelinePath-IsAborted_example : IsAborted PipelineState.failed
PipelinePath-IsAborted_example = PipelinePath-IsAborted (inl refl) stopped

-- A run of one stage.
abbrev to_rollout : PipelinePath PipelineState.created PipelineState.rollout
unfolding ensure_pipeline_transition
to_rollout =
    PipelinePath.move {t = PipelineState.ready_to_rollout}
      (PipelinePath.move {t = PipelineState.preparing_policy}
        (PipelinePath.move {t = PipelineState.resetting}
          (PipelinePath.move {t = PipelineState.preflight}
            (PipelinePath.move {t = PipelineState.created} PipelinePath.stay refl) refl)
          refl)
        refl)
      refl

abbrev one_stage : PipelinePath PipelineState.created PipelineState.completed
unfolding ensure_pipeline_transition
one_stage =
    PipelinePath.move {t = PipelineState.handoff}
      (PipelinePath.move {t = PipelineState.checking}
        (PipelinePath.move {t = PipelineState.joint_gate}
          (PipelinePath.move {t = PipelineState.rollout} to_rollout refl) refl)
        refl)
      refl

completed-Visits_gates_example :
    Visits PipelineState.joint_gate one_stage × Visits PipelineState.checking one_stage
completed-Visits_gates_example = completed-Visits_gates one_stage
