-- ===== src/Edge/RosAction/Reset.antt =====
-- src/oven_runtime/edge/ros2_action.py, `reset`. `total_steps` is `max(2, ceil(duration * hz))` in
-- floats, `smooth i n a b` the position after i of n steps of the smoothed motion, and `attempts`
-- the number of rounds of the check before its deadline.
pub mod Arrives
use Prim.Native.String.{◌++◌ as append}
use oven_multiskill_runtime.Common.{
  ℕ, zero, suc, max, String, List, ◌∷◌, leb, ℤ, err, faulted, pure, lift, raise_if, ◌>>=◌, ◌>>◌,
  if◌then◌else◌,
}
use oven_multiskill_runtime.Errors.{fault, action_invalid}
use oven_multiskill_runtime.Edge.Gate.{distance}
use oven_multiskill_runtime.Edge.RosConfig.{lookup}
use oven_multiskill_runtime.Edge.RosAction.{
  World, Event, Method, self, item_of, preflight, snapshot_of, publish_controlled,
}

-- `np.max(np.abs(measured - target))`, of positions of seven joints.
abbrev pub largest_error : List ℤ → List ℤ → ℕ
largest_error (x ∷ xs) (y ∷ ys) = max (distance x y) (largest_error xs ys)
largest_error _ _ = 0

module _ (world : World) (smooth : ℕ → ℕ → List ℤ → List ℤ → List ℤ) where
  -- The steps of the motion that are left, from `index`.
  unfoldable pub motion : ℕ → ℕ → ℕ → String → List ℤ → List ℤ → List ℤ → Method (Unit {0})
  motion zero index steps arm start target hold = pure tt
  motion (suc left) index steps arm start target hold = do
    publish_controlled world arm (smooth index steps start target) hold
    motion left (suc index) steps arm start target hold

  -- The rounds of the check that are left.
  unfoldable pub verify : ℕ → String → List ℤ → Method (Unit {0})
  verify zero arm target = lift (
      err (
        faulted
          (fault action_invalid (append arm " arm did not reach its configured reset target"))))
  verify (suc left) arm target =
      let next = verify left arm target in
      do
        (measured, hold) ← snapshot_of world arm
        e ← self
        if leb (largest_error measured target) e.config.reset_tolerance then pure tt else next

  -- The motion of an arm to a target, and the check that it arrived.
  unfoldable pub approach : (ℕ → ℕ → ℕ) → (List Event → ℕ) → String → List ℤ → Method (Unit {0})
  approach total_steps attempts arm target = do
    (start, hold) ← snapshot_of world arm
    e ← self
    motion (total_steps e.config.reset_duration e.config.publish_hz) 1
        (total_steps e.config.reset_duration e.config.publish_hz) arm start target hold
    e ← self
    verify (attempts e.trace) arm target

  -- `reset` after its preflight.
  unfoldable pub move_arm : (ℕ → ℕ → ℕ) → (List Event → ℕ) → String → Method (Unit {0})
  move_arm total_steps attempts skill = do
    e ← self
    target ← lift (item_of (lookup skill e.config.reset_targets))
    arm ← lift (item_of (lookup skill e.config.skill_arms))
    approach total_steps attempts arm target

  unfoldable pub reset : (ℕ → ℕ → ℕ) → (List Event → ℕ) → String → Method (Unit {0})
  unfolding move_arm
  reset total_steps attempts skill = do preflight world; move_arm total_steps attempts skill
