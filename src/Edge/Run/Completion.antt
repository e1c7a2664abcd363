-- ===== src/Edge/Run/Completion.antt =====
-- What a run that returns its manifest has behind it.
use oven_multiskill_runtime.Common.{◌≡◌, true, none, ◌∷◌, length, ok, arith}
use oven_multiskill_runtime.State.{PipelineState}
use oven_multiskill_runtime.Edge.Audit
use oven_multiskill_runtime.Edge.Audit.{RunManifest, RunStatus, EdgeStore, WriteOutcome, complete}
use oven_multiskill_runtime.Edge.Environment.{Call, Environment}
use oven_multiskill_runtime.Edge.Plan.{skills_of}
use oven_multiskill_runtime.Edge.Orchestrator.{Orchestrator, call, on_audit, transition}
use oven_multiskill_runtime.Edge.Run.{run, run_stages, run_body}

complete_ok :
    (io : WriteOutcome) (s : EdgeStore) (m : RunManifest)
    → (complete io s).0 ≡ ok m
    → (m.status ≡ RunStatus.completed)
      × (m.completed_stages ≡ length m.planned_skills)
      × ((complete io s).1.active ≡ none)
unfolding complete
complete_ok io s m h = ground arith

-- A run is over, with all its planned stages.
pub record IsFinished (m : RunManifest) (o : Orchestrator) : Type 0 where
  pub status : m.status ≡ RunStatus.completed
  pub all_stages : m.completed_stages ≡ length m.planned_skills
  pub no_run : o.audit.active ≡ none
  pub state : o.state ≡ PipelineState.completed

module _ (env : Environment) where
  transition_ok :
      (t : PipelineState) (o : Orchestrator)
      → (transition env t o).0 ≡ ok tt
      → (transition env t o).1.state ≡ t
  unfolding transition
  transition_ok t o h = ground arith

  run_body_ok :
      (o : Orchestrator) (m : RunManifest)
      → (run_body env o).0 ≡ ok m
      → IsFinished m (run_body env o).1
  unfolding run_body
  run_body_ok o m h =
      let o₁ = (transition env PipelineState.preflight o).1 in
      let o₂ = (call Call.source_preflight env.perform o₁).1 in
      let o₃ = (call Call.reset_preflight env.perform o₂).1 in
      let o₄ = (call Call.action_preflight env.perform o₃).1 in
      let o₅ = (run_stages env 0 o₄.plan.stages o₄).1 in
      let o₆ = (transition env PipelineState.completed o₅).1 in
      ground (
        arith,
        transition_ok PipelineState.completed o₅,
        complete_ok (env.write (Call.write_file ∷ o₆.trace)) o₆.audit m,
      )

-- A run that returns its manifest was approved, the manifest is that of a completed run with all
-- the stages that it planned, no run is left active in the store, and the pipeline is COMPLETED.
pub run_ok :
    (env : Environment) (o : Orchestrator) (m : RunManifest)
    → (run env o).0 ≡ ok m
    → (env.approve (Call.approve_run o.plan.run_id (skills_of o.plan) ∷ o.trace) ≡ ok true)
      × IsFinished m (run env o).1
unfolding run
run_ok env o m h =
    let o₁ = record o { trace = Call.approve_run o.plan.run_id (skills_of o.plan) ∷ o.trace } in
    let o₂ = record o₁ { trace = Call.make_directory ∷ o₁.trace } in
    let o₃ = record o₂ { trace = Call.write_file ∷ o₂.trace } in
    let mkdir = env.make_directory o₂.trace in
    let o₄ =
      (on_audit (Audit.begin mkdir (env.write o₃.trace) o.plan.run_id (skills_of o.plan)) o₃).1 in
    ground (arith, run_body_ok env o₄ m)
