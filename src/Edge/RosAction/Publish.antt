-- ===== src/Edge/RosAction/Publish.antt =====
-- src/oven_runtime/edge/ros2_action.py, `publish` and `stop`. The arithmetic of floats that blends
-- two positions is a parameter: `blend i n a b` is `a + fraction * (b - a)` at the i-th of n equal
-- fractions. The median is the gate's parameter. Rows have seven positions, as the last command
-- has: the orchestrator's validator has checked them.
pub mod Meets
pub mod Sends
pub mod Moves
use oven_multiskill_runtime.Common.{
  ℕ, zero, suc, ◌+◌, String, Bool, true, false, Option, none, some, List, [], ◌∷◌, length, ltb, not,
  ◌&&◌, ◌||◌, is_some, ℤ, Result, ok, err, faulted, other, pure, lift, modify, raise_if, ◌>>=◌,
  ◌>>◌, if◌then◌else◌,
}
use oven_multiskill_runtime.Errors.{fault, state_rejected, action_invalid}
use oven_multiskill_runtime.Edge.Contracts.{PublishResult, GateResult}
use oven_multiskill_runtime.Edge.Gate.{distance, reached_result}
use oven_multiskill_runtime.Edge.RosConfig.{lookup}
use oven_multiskill_runtime.Edge.RosObservation.Sample.{joint_snapshot}
use oven_multiskill_runtime.Edge.RosAction.{
  World, RosActionExecutor, Method, self, on_gate, item_of, listen, snapshot_of, publish_pair,
  publish_controlled, clear_stage,
}

-- `np.any(np.abs(row - last) > maximum_delta)`
abbrev pub exceeds : List ℕ → List ℤ → List ℤ → Bool
exceeds (d ∷ ds) (x ∷ xs) (y ∷ ys) = ltb d (distance x y) || exceeds ds xs ys
exceeds _ _ _ = false

abbrev pub first_row : List (List ℤ) → Result (List ℤ × List (List ℤ))
first_row [] = err other
first_row (r ∷ rest) = ok (r, rest)

-- The skill and the last command of the active stage.
abbrev pub active_stage : RosActionExecutor → Result (String × List ℤ)
active_stage e =
    if not e.preflight_complete
    then err (faulted (fault state_rejected "ROS action executor has no active stage"))
    else elim e.active_skill [
      | none ↦ err (faulted (fault state_rejected "ROS action executor has no active stage"))
      | some skill ↦ elim e.last_command [
        | none ↦ err (faulted (fault state_rejected "ROS action executor has no active stage"))
        | some last ↦ ok (skill, last)
      ]
    ]

abbrev pub rest_detected : ℕ → GateResult → PublishResult
rest_detected rows g = record {
  stop_requested = true;
  reason = some "joint_rest_detected";
  published_rows = rows;
  gate_result = some g;
}

abbrev pub all_published : ℕ → PublishResult
all_published rows = record {
  stop_requested = false;
  reason = none;
  published_rows = rows;
  gate_result = none;
}

-- After `rows` rows: returns if the gate was reached, and goes on if it was not.
abbrev pub unless_reached : ℕ → Method PublishResult → Option GateResult → Method PublishResult
unless_reached rows next none = next
unless_reached rows next (some g) = pure (rest_detected rows g)

module _ (world : World) (median : List ℤ → ℤ) (blend : ℕ → ℕ → List ℤ → List ℤ → List ℤ) where
  -- The steps of the transition that are left, from `index`.
  unfoldable pub transition : ℕ → ℕ → ℕ → String → List ℤ → List ℤ → List ℤ → Method (Unit {0})
  transition zero index steps arm last first hold = pure tt
  transition (suc left) index steps arm last first hold = do
    publish_controlled world arm (blend index steps last first) hold
    transition left (suc index) steps arm last first hold

  -- What follows a row: the counters, and whether the gate was reached.
  unfoldable pub after_row : String → List ℤ → Method (Option GateResult)
  after_row skill row = do
    modify (λ e. record e { published_rows = e.published_rows + 1; last_command = some row })
    listen world
    e ← self
    on_gate (reached_result median skill e.published_rows)

  -- One of the rows after the first.
  unfoldable pub publish_row : String → String → List ℤ → List ℤ → Method (Option GateResult)
  unfolding after_row
  publish_row skill arm hold row = do
    e ← self
    last ← lift (item_of e.last_command)
    raise_if (exceeds e.config.max_row_delta row last)
        (fault action_invalid "adjacent policy action rows exceed ROS command delta limits")
    publish_controlled world arm row hold
    after_row skill row

  -- The loop over the rows, after `count` of them.
  unfoldable pub publish_rows : String → String → List ℤ → ℕ → List (List ℤ) → Method PublishResult
  publish_rows skill arm hold count [] = pure (all_published count)
  publish_rows skill arm hold count (row ∷ rest) =
      let next = publish_rows skill arm hold (suc count) rest in
      do reached ← publish_row skill arm hold row; unless_reached (suc count) next reached

  -- The rows of a chunk, once the stage's last command and the other arm's position are known.
  unfoldable pub publish_chunk :
      String → String → List ℤ → List ℤ → List ℤ × List (List ℤ) → Method PublishResult
  publish_chunk skill arm last hold (first, rest) = do
    e ← self
    transition e.config.chunk_transition_steps 1 e.config.chunk_transition_steps arm last first hold
    reached ← after_row skill first
    unless_reached 1 (publish_rows skill arm hold 1 rest) reached

  unfoldable pub publish_with : String → String → List ℤ → List (List ℤ) → Method PublishResult
  publish_with skill arm last actions = do
    (controlled, hold) ← snapshot_of world arm
    rows ← lift (first_row actions)
    publish_chunk skill arm last hold rows

  unfoldable pub publish : List (List ℤ) → Method PublishResult
  publish actions = do
    e ← self
    (skill, last) ← lift (active_stage e)
    arm ← lift (item_of (lookup skill e.config.skill_arms))
    publish_with skill arm last actions

module _ (world : World) where
  -- The repetitions of the hold that are left.
  unfoldable pub hold_pair : ℕ → List ℤ → List ℤ → Method (Unit {0})
  hold_pair zero left right = pure tt
  hold_pair (suc n) left right = do publish_pair world left right; hold_pair n left right

  -- Without a snapshot of the joints nothing is held: `RuntimeError` is caught.
  unfoldable pub stop : Method (Unit {0})
  stop = do
    e ← self
    if not e.preflight_complete || not e.has_published then modify clear_stage else (do
      listen world
      e ← self
      elim (joint_snapshot e.observation) [
        | err r ↦ modify (λ e. record (clear_stage e) { has_published = false })
        | ok (left, right) ↦ (do
          hold_pair e.config.stop_hold_repetitions left right
          modify (λ e. record (clear_stage e) { has_published = false }))
      ])
