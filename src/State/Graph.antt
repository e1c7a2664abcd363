-- ===== src/State/Graph.antt =====
-- The two transition graphs, followed over whole paths.
use oven_multiskill_runtime.Common.{◌≡◌, refl, ◌⊎◌, inl, inr, ◌≤◌, ok, arith}
use oven_multiskill_runtime.State.{
  RuntimeState, PipelineState, ensure_runtime_transition, ensure_pipeline_transition,
  pipeline_index,
}

-- A sequence of permitted transitions of the pipeline.
pub data PipelinePath : PipelineState → PipelineState → Type 0 where
  stay : {s : PipelineState} → PipelinePath s s
  move :
      {s t u : PipelineState}
      → PipelinePath s t
      → ensure_pipeline_transition t u ≡ ok tt
      → PipelinePath s u

pub data RuntimePath : RuntimeState → RuntimeState → Type 0 where
  stay : {s : RuntimeState} → RuntimePath s s
  move :
      {s t u : RuntimeState}
      → RuntimePath s t
      → ensure_runtime_transition t u ≡ ok tt
      → RuntimePath s u

abbrev pub IsDown : RuntimeState → Type 0
IsDown s = (s ≡ RuntimeState.failed) ⊎ (s ≡ RuntimeState.stopping)

transition_IsDown :
    (s t : RuntimeState) → IsDown s → ensure_runtime_transition s t ≡ ok tt → IsDown t
unfolding ensure_runtime_transition
transition_IsDown s t d h = ground arith

-- Once the runtime is failed or stopping, no sequence of permitted transitions leaves
-- those two states.
pub RuntimePath-IsDown : {s t : RuntimeState} → IsDown s → RuntimePath s t → IsDown t
RuntimePath-IsDown d stay = d
RuntimePath-IsDown d (move {t = t} {u = u} p h) = transition_IsDown t u (RuntimePath-IsDown d p) h

abbrev pub IsAborted : PipelineState → Type 0
IsAborted s = (s ≡ PipelineState.safe_stop) ⊎ (s ≡ PipelineState.failed)

transition_IsAborted :
    (s t : PipelineState) → IsAborted s → ensure_pipeline_transition s t ≡ ok tt → IsAborted t
unfolding ensure_pipeline_transition
transition_IsAborted s t d h = ground arith

-- A pipeline that entered SAFE_STOP never completes, by any sequence of permitted transitions:
-- it is in SAFE_STOP or FAILED.
pub PipelinePath-IsAborted : {s t : PipelineState} → IsAborted s → PipelinePath s t → IsAborted t
PipelinePath-IsAborted d stay = d
PipelinePath-IsAborted d (move {t = t} {u = u} p h) =
    transition_IsAborted t u (PipelinePath-IsAborted d p) h

-- The path enters the state `v` by one of its transitions.
abbrev pub Visits : {s t : PipelineState} → PipelineState → PipelinePath s t → Type 0
Visits v stay = ⊥
Visits v (move {u = u} p h) = (u ≡ v) ⊎ Visits v p

-- The states that the joint gate guards.
abbrev IsGated : PipelineState → PipelineState → Type 0
IsGated gate s = (pipeline_index gate ≤ pipeline_index s) × (pipeline_index s ≤ 9)

into-IsGated :
    (g t u : PipelineState)
    → (g ≡ PipelineState.joint_gate) ⊎ (g ≡ PipelineState.checking)
    → IsGated g u
    → ensure_pipeline_transition t u ≡ ok tt
    → (u ≡ g) ⊎ IsGated g t
unfolding ensure_pipeline_transition
into-IsGated g PipelineState.created u d i h = ground arith
into-IsGated g t u d i h = ground arith

IsGated-Visits :
    {s t : PipelineState} (g : PipelineState) (p : PipelinePath s t)
    → (g ≡ PipelineState.joint_gate) ⊎ (g ≡ PipelineState.checking)
    → s ≡ PipelineState.created
    → IsGated g t
    → Visits g p
IsGated-Visits PipelineState.joint_gate stay d e i = absurd (ground arith)
IsGated-Visits g stay d e i = absurd (ground arith)
IsGated-Visits g (move {t = t} {u = u} p h) d e i = elim (into-IsGated g t u d i h) [
  | inl here ↦ inl here
  | inr back ↦ inr (IsGated-Visits g p d e back)
]

-- Every sequence of permitted transitions from CREATED to COMPLETED enters JOINT_GATE and
-- enters CHECKING on its way.
pub completed-Visits_gates :
    (p : PipelinePath PipelineState.created PipelineState.completed)
    → Visits PipelineState.joint_gate p × Visits PipelineState.checking p
completed-Visits_gates p = (
  IsGated-Visits PipelineState.joint_gate p (inl refl) refl (omega arith),
  IsGated-Visits PipelineState.checking p (inr refl) refl (omega arith),
)
