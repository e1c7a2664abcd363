-- ===== src/Edge/Rollout.antt =====
-- src/oven_runtime/edge/orchestrator.py, `_rollout` and `_request`.
pub mod Budget
use oven_multiskill_runtime.Common.{
  ℕ, zero, suc, ◌+◌, Bool, false, none, some, faulted, pure, raise, lift, raise_if, not, ltb, leb,
  ◌&&◌, length, if◌then◌else◌, ◌>>=◌, ◌>>◌,
}
use oven_multiskill_runtime.Errors.{fault, action_invalid, joint_gate_failed}
use oven_multiskill_runtime.Value.{Value, Fields, get, boolean}
use oven_multiskill_runtime.Edge.Contracts.{PublishResult}
use oven_multiskill_runtime.Edge.Validation.{validate_observation, validate_actions}
use oven_multiskill_runtime.Edge.Audit
use oven_multiskill_runtime.Edge.Audit.{RolloutRow}
use oven_multiskill_runtime.Edge.Environment.{Call, Environment}
use oven_multiskill_runtime.Edge.Plan.{StagePlan}
use oven_multiskill_runtime.Edge.Orchestrator.{Method, self, ask, call, on_audit, item}

abbrev is_true : Value → Bool
is_true (boolean b) = b
is_true _ = false

-- `response.get("publishable") is True`
abbrev pub is_publishable : Fields → Bool
is_publishable response = elim (get "publishable" response) [ none ↦ false | some v ↦ is_true v ]

-- The passed joint-rest evidence of a result.
abbrev pub has_passed : PublishResult → Bool
has_passed p = elim p.gate_result [ none ↦ false | some g ↦ g.passed ]

module _ (env : Environment) where
  -- `_request`, up to the fields that name the session: these are read for their presence.
  unfoldable pub request : Fields → ℕ → Method Fields
  request session sequence = do
    skill ← lift (item "skill" session)
    o ← self
    observed ← call (Call.sample skill) env.sample
    now ← ask Call.read_clock env.clock
    payload ← lift (validate_observation o.observation_validator now observed)
    lift (item "session_id" session)
    lift (item "session_token" session)
    lift (item "trial_id" session)
    lift (item "generation" session)
    ask Call.read_clock env.clock
    call (Call.infer sequence payload) env.infer

  abbrev rollout_row : StagePlan → ℕ → ℕ → ℕ → Value → Value → Value → Value → RolloutRow
  rollout_row stage sequence rows total session_id generation request_hash action_hash = record {
    skill = stage.skill;
    session_id = session_id;
    generation = generation;
    sequence = sequence;
    published_rows = rows;
    published_steps_total = total;
    request_hash = request_hash;
    action_hash = action_hash;
  }

  -- The evidence row, with the fields that it reads.
  unfoldable pub record_row : StagePlan → Fields → Fields → ℕ → ℕ → ℕ → Method (Unit {0})
  record_row stage session response sequence rows total = do
    session_id ← lift (item "session_id" session)
    generation ← lift (item "generation" session)
    request_hash ← lift (item "request_hash" response)
    action_hash ← lift (item "action_hash" response)
    write ← ask Call.write_file env.write
    on_audit (
        Audit.record_rollout write
          (rollout_row stage sequence rows total session_id generation request_hash action_hash))

  -- One round of the loop: what was published, after `published` rows.
  unfoldable pub round : StagePlan → Fields → ℕ → ℕ → Method PublishResult
  round stage session sequence published = do
    response ← request session sequence
    raise_if (not (is_publishable response))
        (fault action_invalid "formal inference response is not publishable")
    value ← lift (item "actions" response)
    o ← self
    actions ← lift (validate_actions o.action_validator (env.as_array value))
    raise_if (ltb stage.action_steps (published + length actions))
        (fault action_invalid "action chunk exceeds the stage action-step budget")
    result ← call (Call.publish actions) env.publish
    raise_if (not (ltb 0 result.published_rows && leb result.published_rows (length actions)))
        (fault action_invalid "action executor reported an invalid published-row count")
    record_row stage session response sequence result.published_rows
        (published + result.published_rows)
    raise_if (result.stop_requested && not (has_passed result))
        (fault joint_gate_failed "executor stopped without passed joint-rest evidence")
    pure result

  -- The loop over the sequence numbers, with the number of rounds left. A round is followed by
  -- another unless it asked to stop.
  unfoldable pub rollout_from : StagePlan → Fields → ℕ → ℕ → ℕ → Method PublishResult
  rollout_from stage session zero sequence published = raise (
      faulted (
        fault joint_gate_failed
          "stage exhausted its action-step budget without joint-rest detection"))
  rollout_from stage session (suc left) sequence published =
      let next = λ (total : ℕ). rollout_from stage session left (suc sequence) total in
      do
        result ← round stage session sequence published
        if result.stop_requested then pure result else next (published + result.published_rows)

  -- `_rollout`
  unfoldable pub rollout : StagePlan → Fields → Method PublishResult
  rollout stage session = rollout_from stage session stage.max_chunks 0 0
