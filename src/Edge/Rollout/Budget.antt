-- ===== src/Edge/Rollout/Budget.antt =====
-- A rollout keeps to its budgets, and returns only with passed joint-rest evidence.
use oven_multiskill_runtime.Common.{
  ℕ, zero, suc, ◌+◌, ◌≤◌, ◌<◌, true, ◌≡◌, List, [], ◌∷◌, Result, ok, err, arith,
}
use oven_multiskill_runtime.Value.{Fields}
use oven_multiskill_runtime.Edge.Contracts.{PublishResult}
use oven_multiskill_runtime.Edge.Environment.{Call, Environment}
use oven_multiskill_runtime.Edge.Plan.{StagePlan}
use oven_multiskill_runtime.Edge.Orchestrator.{Orchestrator}
use oven_multiskill_runtime.Edge.Rollout.{
  has_passed, request, record_row, round, rollout_from, rollout,
}

-- How often the robot was asked to move.
abbrev pub publishes : List Call → ℕ
publishes [] = 0
publishes (Call.publish rows ∷ t) = suc (publishes t)
publishes (_ ∷ t) = publishes t

-- One round, by how it ends.
abbrev pub Rounds : StagePlan → ℕ → Orchestrator → Result PublishResult × Orchestrator → Type 0
Rounds stage published o (ok p, o') =
    (0 < p.published_rows)
    × (published + p.published_rows ≤ stage.action_steps)
    × (p.stop_requested ≡ true → has_passed p ≡ true)
    × (publishes o'.trace ≤ suc (publishes o.trace))
Rounds stage published o (err e, o') = publishes o'.trace ≤ suc (publishes o.trace)

abbrev rows_of : Result PublishResult → ℕ
rows_of (ok p) = p.published_rows
rows_of (err e) = 0

abbrev pub Returns : ℕ → Orchestrator → Result PublishResult × Orchestrator → Type 0
Returns left o (ok p, o') =
    (p.stop_requested ≡ true)
    × (has_passed p ≡ true)
    × (publishes o'.trace ≤ left + publishes o.trace)
Returns left o (err e, o') = publishes o'.trace ≤ left + publishes o.trace

module _ (env : Environment) where
  request_lem :
      (session : Fields) (n : ℕ) (o : Orchestrator)
      → publishes (request env session n o).1.trace ≡ publishes o.trace
  unfolding request
  request_lem session n o = ground arith

  record_row_lem :
      (stage : StagePlan) (session response : Fields) (n rows total : ℕ) (o : Orchestrator)
      → publishes (record_row env stage session response n rows total o).1.trace ≡ publishes o.trace
  unfolding record_row
  record_row_lem stage session response n rows total o = ground arith

  -- A round that returns keeps the total of its published rows within the stage's action
  -- budget, has published at least one row, and asks to stop only with a passed joint gate; however
  -- a round ends, it asks the robot to move at most once.
  round-Rounds :
      (stage : StagePlan) (session : Fields) (n published : ℕ) (o : Orchestrator)
      → Rounds stage published o (round env stage session n published o)
  unfolding round
  round-Rounds stage session n published o = grind (arith, request_lem session n o, record_row_lem)

  rollout_from-Returns :
      (stage : StagePlan) (session : Fields) (left n published : ℕ) (o : Orchestrator)
      → Returns left o (rollout_from env stage session left n published o)
  unfolding rollout_from
  rollout_from-Returns stage session zero n published o = ground arith
  rollout_from-Returns stage session (suc left) n published o = ground (
    arith,
    round-Rounds stage session n published o,
    rollout_from-Returns stage session left (suc n)
        (published + rows_of (round env stage session n published o).0)
        (round env stage session n published o).1,
  )

-- A rollout that returns was stopped by the executor with a passed joint gate, and, however it
-- ends, the robot is asked to move at most `max_chunks` times, whatever the components answer.
pub rollout-Returns :
    (env : Environment) (stage : StagePlan) (session : Fields) (o : Orchestrator)
    → Returns stage.max_chunks o (rollout env stage session o)
unfolding rollout
rollout-Returns env stage session o = rollout_from-Returns env stage session stage.max_chunks 0 0 o
