-- ===== src/Edge/Environment.antt =====
-- The components that the orchestrator drives, behind the protocols of
-- src/oven_runtime/edge/contracts.py. What a component answers may depend on every call made so
-- far, so each is a function of the trace of calls, the last one first; it may also raise.
use oven_multiskill_runtime.Common.{ℕ, String, Bool, List, ℤ, Result, Raised, Option}
use oven_multiskill_runtime.Value.{Value, Fields}
use oven_multiskill_runtime.Edge.Contracts.{Observation, PublishResult, CheckerResult}
use oven_multiskill_runtime.Edge.Validation.{NdArray}
use oven_multiskill_runtime.Edge.Audit.{WriteOutcome}

pub data Command : Type 0 where
  prepare_skill : (skill : String) → Command
  begin_trial : (trial_id : String) → (root_seed : ℤ) → Command
  open_session : Command
  close_session : (session_id : Value) → Command
  end_trial : Command
  abort : Command

-- `write_file` is one write of the audit store, `make_directory` the creation of a directory.
pub data Call : Type 0 where
  approve_run : (run_id : String) → (skills : List String) → Call
  source_preflight : Call
  reset_preflight : Call
  action_preflight : Call
  reset : (skill : String) → Call
  sleep : (settle : ℕ) → Call
  control : Command → Call
  begin_stage : (skill : String) → Call
  sample : Value → Call
  read_clock : Call
  infer : (sequence : ℕ) → (observation : Fields) → Call
  publish : List (List ℤ) → Call
  stop : Call
  evaluate : (skill : String) → Call
  write_file : Call
  make_directory : Call

-- A response of the control client: `response.get("ok") is True`, and `response.get("result")`.
pub record ControlResponse : Type 0 where
  pub is_ok : Bool
  pub result : Option Value

pub record Environment : Type 0 where
  pub approve : List Call → Result Bool
  -- A component that answers nothing: a preflight, a reset, a stop.
  pub perform : List Call → Result (Unit {0})
  pub sample : List Call → Result Observation
  pub clock : List Call → ℕ
  pub control : List Call → Result ControlResponse
  pub infer : List Call → Result Fields
  -- `np.asarray` of the response's actions.
  pub as_array : Value → NdArray
  pub publish : List Call → Result PublishResult
  pub evaluate : List Call → Result CheckerResult
  pub write : List Call → WriteOutcome
  pub make_directory : List Call → Option Raised
