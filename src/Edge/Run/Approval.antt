-- ===== src/Edge/Run/Approval.antt =====
-- Nothing moves before the operator's approval.
use oven_multiskill_runtime.Common.{true, ◌≡◌, ◌≢◌, ◌∷◌, ok, arith}
use oven_multiskill_runtime.Edge.Audit.{RunManifest}
use oven_multiskill_runtime.Edge.Environment.{Call, Environment}
use oven_multiskill_runtime.Edge.Plan.{skills_of}
use oven_multiskill_runtime.Edge.Orchestrator.{Orchestrator}
use oven_multiskill_runtime.Edge.Run.{run}

module _ (env : Environment) where
  -- Without the operator's approval, whether it is refused or asking for it raises, the run fails
  -- with no call but the question, and nothing of the orchestrator changes.
  pub run_unapproved :
      (o : Orchestrator)
      → env.approve (Call.approve_run o.plan.run_id (skills_of o.plan) ∷ o.trace) ≢ ok true
      → (m : RunManifest)
      → ((run env o).0 ≢ ok m)
        × ((run env o).1
            ≡ record o { trace = Call.approve_run o.plan.run_id (skills_of o.plan) ∷ o.trace })
  unfolding run
  run_unapproved o h m = ground arith
