-- ===== src/Edge/Run/Stop.antt =====
-- How the orchestrator stops after a failure.
use oven_multiskill_runtime.Common.{◌≡◌, ◌⊎◌, Bool, true, false, none, List, ◌∷◌, Option, some}
use oven_multiskill_runtime.State.{PipelineState}
use oven_multiskill_runtime.Value.{Value}
use oven_multiskill_runtime.Edge.Environment.{Call, Command, Environment}
use oven_multiskill_runtime.Edge.Orchestrator.{Orchestrator}
use oven_multiskill_runtime.Edge.Run.{safe_stop}

-- A stop is under way, or the run had ended before.
abbrev IsStopping : PipelineState → Type 0
IsStopping s =
    (s ≡ PipelineState.safe_stop) ⊎ (s ≡ PipelineState.failed) ⊎ (s ≡ PipelineState.completed)

abbrev IsOver : PipelineState → Type 0
IsOver s = (s ≡ PipelineState.failed) ⊎ (s ≡ PipelineState.completed)

-- What a step of the stop leaves alone.
abbrev SameRun : Orchestrator → Orchestrator → Type 0
SameRun o o' =
    (o'.state ≡ o.state)
    × (o'.active_session_id ≡ o.active_session_id)
    × (o'.trial_started ≡ o.trial_started)

-- The calls of a stop, the latest first: a session that was open is closed at the server.
abbrev pub closes : Option Value → List Call → List Call
closes none t = t
closes (some id) t = Call.control (Command.close_session id) ∷ t

-- A trial that was started is aborted at the server.
abbrev pub aborts : Bool → List Call → List Call
aborts false t = t
aborts true t = Call.control Command.abort ∷ t

-- How the orchestrator `o'` stands after a stop that began in `o`.
abbrev pub IsStopped : Orchestrator → Orchestrator → Type 0
IsStopped o o' =
    IsOver o'.state
    × (o'.active_session_id ≡ none)
    × (o'.trial_started ≡ false)
    × (o'.trace
        ≡ Call.write_file
          ∷ Call.write_file
          ∷ aborts o.trial_started (closes o.active_session_id (Call.stop ∷ o.trace)))

module _ (env : Environment) where
  -- What holds after the session was closed.
  abbrev Closed : Orchestrator → Orchestrator → Type 0
  Closed o o' =
      (o'.state ≡ o.state)
      × (o'.active_session_id ≡ none)
      × (o'.trial_started ≡ o.trial_started)
      × (o'.trace ≡ closes o.active_session_id o.trace)
