-- ===== src/Edge/RosObservation.antt =====
-- src/oven_runtime/edge/ros2_observation.py: the latest messages, the samples made of them, and
-- the callbacks that replace them. A message is the value that was received; whether the seven
-- positions of a joint message are finite is told with it. Times are nanoseconds.
pub mod Sample
pub mod Fresh
pub mod Letterbox
mod Tests
use oven_multiskill_runtime.Common.{
  ℕ, ◌-◌, String, Bool, true, false, Option, none, some, List, [], ◌∷◌, all, length, str_eq,
  is_some, leb, ltb, ◌==◌, min, not, ◌&&◌, ◌||◌, ℤ, Result, ok, err, faulted, other, Action, pure,
  lift, gets, modify, raise_if, raise_other_if, ◌>>=◌, ◌>>◌, if◌then◌else◌,
}
use oven_multiskill_runtime.Errors.{
  RuntimeFault, fault, state_rejected, invalid_field_value, observation_stale,
}
use oven_multiskill_runtime.Value.{Value, Fields, field, end, text, mapping}
use oven_multiskill_runtime.Edge.Contracts.{Observation}
use oven_multiskill_runtime.Edge.Gate.{OnlineJointGate, update}
use oven_multiskill_runtime.Edge.RosConfig.{RosBridgeConfig, lookup, has_key}

-- A message with the time at which it was received.
abbrev pub Entry : Type 0 → Type 0
Entry A = Option (A × ℕ)

-- `gate` is the online gate, which the callbacks of the joints feed.
pub record RosObservationSource : Type 0 where
  pub left_joint : Entry (List ℤ)
  pub right_joint : Entry (List ℤ)
  pub left_image : Entry Value
  pub right_image : Entry Value
  pub front_image : Entry Value
  pub preflight_complete : Bool
  pub gate : OnlineJointGate

abbrev pub Method : Type 0 → Type 0
Method A = Action RosObservationSource A

-- `_joint_array`: the first seven positions, if they are seven and finite.
abbrev first_seven : List ℤ → List ℤ
first_seven (a ∷ b ∷ c ∷ d ∷ e ∷ f ∷ g ∷ rest) = a ∷ b ∷ c ∷ d ∷ e ∷ f ∷ g ∷ []
first_seven xs = xs

abbrev pub joint_array : List ℤ → Bool → Option (List ℤ)
joint_array position is_finite =
    if (length (first_seven position) == 7) && is_finite then some (first_seven position) else none

unfoldable pub left_joint_callback : List ℤ → Bool → ℕ → RosObservationSource → RosObservationSource
left_joint_callback position is_finite now s = elim (joint_array position is_finite) [
  | none ↦ s
  | some v ↦ record s { left_joint = some (v, now); gate = update "left" v true s.gate }
]

unfoldable pub right_joint_callback :
    List ℤ → Bool → ℕ → RosObservationSource → RosObservationSource
right_joint_callback position is_finite now s = elim (joint_array position is_finite) [
  | none ↦ s
  | some v ↦ record s { right_joint = some (v, now); gate = update "right" v true s.gate }
]

unfoldable pub left_image_callback : Value → ℕ → RosObservationSource → RosObservationSource
left_image_callback m now s = record s { left_image = some (m, now) }

unfoldable pub right_image_callback : Value → ℕ → RosObservationSource → RosObservationSource
right_image_callback m now s = record s { right_image = some (m, now) }

unfoldable pub front_image_callback : Value → ℕ → RosObservationSource → RosObservationSource
front_image_callback m now s = record s { front_image = some (m, now) }

-- `entry is not None and 0 <= now - entry[1] <= maximum_age_ns`
abbrev pub is_fresh : {A : Type 0} → ℕ → ℕ → Entry A → Bool
is_fresh maximum_age now none = false
is_fresh maximum_age now (some (m, received)) = leb received now && leb (now - received) maximum_age

abbrev has_arm : String → List (String × String) → Bool
has_arm arm [] = false
has_arm arm ((k, a) ∷ r) = str_eq a arm || has_arm arm r

-- `_messages_fresh`
unfoldable pub messages_fresh : RosBridgeConfig → ℕ → RosObservationSource → Bool
messages_fresh config now s =
    is_fresh config.max_message_age now s.left_joint
    && is_fresh config.max_message_age now s.right_joint
    && is_fresh config.max_message_age now s.front_image
    && (not (has_arm "left" config.skill_arms) || is_fresh config.max_message_age now s.left_image)
    && (not (has_arm "right" config.skill_arms)
        || is_fresh config.max_message_age now s.right_image)

-- A message that arrives.
pub data Message : Type 0 where
  left_joint : (position : List ℤ) → (is_finite : Bool) → Message
  right_joint : (position : List ℤ) → (is_finite : Bool) → Message
  left_image : Value → Message
  right_image : Value → Message
  front_image : Value → Message

-- The callback of a message that is received at that time.
unfoldable pub receive : Message → ℕ → RosObservationSource → RosObservationSource
unfolding left_joint_callback right_joint_callback left_image_callback right_image_callback
    front_image_callback
receive (Message.left_joint position is_finite) now s = left_joint_callback position is_finite now s
receive (Message.right_joint position is_finite) now s =
    right_joint_callback position is_finite now s
receive (Message.left_image m) now s = left_image_callback m now s
receive (Message.right_image m) now s = right_image_callback m now s
receive (Message.front_image m) now s = front_image_callback m now s

-- The messages that arrive between two steps of another thread, in order.
unfoldable pub receive_all : List (Message × ℕ) → RosObservationSource → RosObservationSource
receive_all [] s = s
receive_all ((m, now) ∷ rest) s = receive_all rest (receive m now s)

-- The rounds of the loop of `preflight` before its deadline: each has the messages that arrived
-- before it and its time.
unfoldable pub preflight_rounds : RosBridgeConfig → List (List (Message × ℕ) × ℕ) → Method Bool
preflight_rounds config [] s = (ok false, s)
preflight_rounds config ((arrivals, now) ∷ rest) s =
    elim (messages_fresh config now (receive_all arrivals s)) [
      | true ↦ (ok true, receive_all arrivals s)
      | false ↦ preflight_rounds config rest (receive_all arrivals s)
    ]

unfoldable pub preflight : RosBridgeConfig → List (List (Message × ℕ) × ℕ) → Method (Unit {0})
preflight config rounds = do
  s ← gets (λ s. s)
  if s.preflight_complete then pure tt else (do
    fresh ← preflight_rounds config rounds
    raise_if (not fresh) (fault observation_stale "required Agilex ROS observations are not fresh")
    modify (λ s. record s { preflight_complete = true }))
