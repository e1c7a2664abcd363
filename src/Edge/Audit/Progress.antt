-- ===== src/Edge/Audit/Progress.antt =====
-- The stages of a run are committed one by one, in the planned order, and a run completes only
-- with all of them.
use oven_multiskill_runtime.Common.{
  ℕ, ◌≤◌, ◌<◌, String, [], ◌∷◌, ◌≡◌, Option, none, some, List, Raised, ok, arith, length, get_elem?,
  holds_text_lem,
}
use oven_multiskill_runtime.State.{PipelineState}
use oven_multiskill_runtime.Errors.{ErrorCode}
use oven_multiskill_runtime.AuditSchema.{StageEvidence}
use oven_multiskill_runtime.Value.{Fields}
use oven_multiskill_runtime.Edge.Contracts.{GateResult, CheckerResult}
use oven_multiskill_runtime.Edge.Audit.{
  EdgeStore, ActiveEdgeRun, RolloutRow, WriteOutcome, begin, set_pipeline_state, start_stage,
  record_rollout, complete_stage, fail, complete,
}

abbrev pub IsNext : Option ℕ → ActiveEdgeRun → Type 0
IsNext none a = Unit
IsNext (some i) a = (i ≡ a.completed_stages) × (i < length a.planned_skills)

-- The run has not committed more stages than it planned, and the active stage is the next one.
abbrev pub IsInOrder : Option ActiveEdgeRun → Type 0
IsInOrder none = Unit
IsInOrder (some a) = (a.completed_stages ≤ length a.planned_skills) × IsNext a.active_stage a

begin-IsInOrder :
    (mkdir : Option Raised) (io : WriteOutcome) (i : String) (ks : List String) (s : EdgeStore)
    → IsInOrder s.active
    → IsInOrder (begin mkdir io i ks s).1.active
unfolding begin
begin-IsInOrder mkdir io i ks s v = ground arith

set_pipeline_state-IsInOrder :
    (io : WriteOutcome) (p : PipelineState) (s : EdgeStore)
    → IsInOrder s.active
    → IsInOrder (set_pipeline_state io p s).1.active
unfolding set_pipeline_state
set_pipeline_state-IsInOrder io p s v = ground arith

start_stage-IsInOrder :
    (mkdir : Option Raised) (io : WriteOutcome) (i : ℕ) (k t : String) (s : EdgeStore)
    → IsInOrder s.active
    → IsInOrder (start_stage mkdir io i k t s).1.active
unfolding start_stage
start_stage-IsInOrder mkdir io i k t s v = ground arith

record_rollout-IsInOrder :
    (io : WriteOutcome) (row : RolloutRow) (s : EdgeStore)
    → IsInOrder s.active
    → IsInOrder (record_rollout io row s).1.active
unfolding record_rollout
record_rollout-IsInOrder io row s v = ground arith

complete_stage-IsInOrder :
    (io io' : WriteOutcome) (e : StageEvidence) (g : GateResult) (c : CheckerResult) (m : Fields)
    (s : EdgeStore)
    → IsInOrder s.active
    → IsInOrder (complete_stage io io' e g c m s).1.active
unfolding complete_stage
complete_stage-IsInOrder io io' e g c m s v = ground arith

fail-IsInOrder :
    (io io' : WriteOutcome) (p : PipelineState) (c : ErrorCode) (t : String) (s : EdgeStore)
    → IsInOrder s.active
    → IsInOrder (fail io io' p c t s).1.active
unfolding fail
fail-IsInOrder io io' p c t s v = ground arith

complete-IsInOrder :
    (io : WriteOutcome) (s : EdgeStore) → IsInOrder s.active → IsInOrder (complete io s).1.active
unfolding complete
complete-IsInOrder io s v = ground arith

-- A call of the store.
pub data StoreCall : Type 0 where
  begins : Option Raised → WriteOutcome → (run_id : String) → (skills : List String) → StoreCall
  sets_state : WriteOutcome → PipelineState → StoreCall
  starts : Option Raised → WriteOutcome → ℕ → (skill trial_id : String) → StoreCall
  records : WriteOutcome → RolloutRow → StoreCall
  commits :
      WriteOutcome → WriteOutcome → StageEvidence → GateResult → CheckerResult → Fields → StoreCall
  fails : WriteOutcome → WriteOutcome → PipelineState → ErrorCode → (message : String) → StoreCall
  completes : WriteOutcome → StoreCall

unfoldable pub perform : StoreCall → EdgeStore → EdgeStore
perform (begins m io i ks) s = (begin m io i ks s).1
perform (sets_state io p) s = (set_pipeline_state io p s).1
perform (starts m io i k t) s = (start_stage m io i k t s).1
perform (records io row) s = (record_rollout io row s).1
perform (commits io io' e g c m) s = (complete_stage io io' e g c m s).1
perform (fails io io' p c t) s = (fail io io' p c t s).1
perform (completes io) s = (complete io s).1

unfoldable pub perform_all : List StoreCall → EdgeStore → EdgeStore
perform_all [] s = s
perform_all (c ∷ cs) s = perform_all cs (perform c s)

perform-IsInOrder :
    (c : StoreCall) (s : EdgeStore) → IsInOrder s.active → IsInOrder (perform c s).active
unfolding perform
perform-IsInOrder (begins m io i ks) s v = begin-IsInOrder m io i ks s v
perform-IsInOrder (sets_state io p) s v = set_pipeline_state-IsInOrder io p s v
perform-IsInOrder (starts m io i k t) s v = start_stage-IsInOrder m io i k t s v
perform-IsInOrder (records io row) s v = record_rollout-IsInOrder io row s v
perform-IsInOrder (commits io io' e g c m) s v = complete_stage-IsInOrder io io' e g c m s v
perform-IsInOrder (fails io io' p c t) s v = fail-IsInOrder io io' p c t s v
perform-IsInOrder (completes io) s v = complete-IsInOrder io s v

-- When the active run of a store, if there is one, has committed at most the planned stages and
-- its active stage is the next planned one, the same holds after any sequence of calls of the
-- store, however their writes end.
pub perform_all-IsInOrder :
    (cs : List StoreCall) (s : EdgeStore) → IsInOrder s.active → IsInOrder (perform_all cs s).active
unfolding perform_all
perform_all-IsInOrder [] s v = v
perform_all-IsInOrder (c ∷ cs) s v =
    perform_all-IsInOrder cs (perform c s) (perform-IsInOrder c s v)

-- When a stage starts with success in a store with an active run, no stage was active, its index
-- is the number of stages committed so far, and its skill is the one planned for that index.
start_stage_ok :
    (mkdir : Option Raised) (io : WriteOutcome) (i : ℕ) (k t : String) (s : EdgeStore)
    (a : ActiveEdgeRun)
    → s.active ≡ some a
    → (start_stage mkdir io i k t s).0 ≡ ok tt
    → (i ≡ a.completed_stages) × (a.active_stage ≡ none) × (get_elem? a.planned_skills i ≡ some k)
unfolding start_stage
start_stage_ok mkdir io i k t s a e h =
    ground (arith, holds_text_lem (get_elem? a.planned_skills i) k)
