-- ===== src/Edge/RosObservation/Fresh.antt =====
-- The age of what a sample is made of.
use oven_multiskill_runtime.Common.{
  ℕ, ◌+◌, ◌≤◌, String, ◌≡◌, Option, none, some, List, ℤ, Result, ok, arith,
}
use oven_multiskill_runtime.Value.{Value, Fields}
use oven_multiskill_runtime.Edge.Contracts.{Observation}
use oven_multiskill_runtime.Edge.Validation.{ObservationValidator, validate_observation}
use oven_multiskill_runtime.Edge.RosConfig.{RosBridgeConfig, lookup}
use oven_multiskill_runtime.Edge.RosObservation.{RosObservationSource, Entry}
use oven_multiskill_runtime.Edge.RosObservation.Sample.{arm_joint, wrist_image, sample}

-- A message was received, and no longer ago than that.
abbrev pub IsRecent : {A : Type 0} → ℕ → ℕ → Entry A → Type 0
IsRecent age now none = ⊥
IsRecent age now (some (m, received)) = now ≤ received + age

-- What a sample of the arm is made of is recent.
abbrev pub AreRecent : ℕ → ℕ → Option String → RosObservationSource → Type 0
AreRecent age now none s = ⊥
AreRecent age now (some arm) s =
    IsRecent age now (arm_joint arm s)
    × IsRecent age now (wrist_image arm s)
    × IsRecent age now s.front_image

validated_age :
    (v : ObservationValidator) (now : ℕ) (o : Observation) (payload : Fields)
    → validate_observation v now o ≡ ok payload
    → now ≤ o.captured_at_monotonic_ns + v.max_age_ns
unfolding validate_observation
validated_age v now o payload h = ground arith

sampled_age :
    (convert : Value → Result Value) (state_of : List ℤ → Value) (config : RosBridgeConfig)
    (skill : String) (s : RosObservationSource) (o : Observation) (age now : ℕ)
    → sample convert state_of config skill s ≡ ok o
    → now ≤ o.captured_at_monotonic_ns + age
    → AreRecent age now (lookup skill config.skill_arms) s
unfolding sample
sampled_age convert state_of config skill s o age now h n = ground arith

-- When a sample of a skill passes the validator, the joint message, the wrist image and the front
-- image that it is made of are there, and each was received no longer ago than the validator
-- permits, although the sample carries the time of the oldest only.
pub sample-AreRecent :
    (convert : Value → Result Value) (state_of : List ℤ → Value) (config : RosBridgeConfig)
    (skill : String) (s : RosObservationSource) (o : Observation) (v : ObservationValidator)
    (now : ℕ) (payload : Fields)
    → sample convert state_of config skill s ≡ ok o
    → validate_observation v now o ≡ ok payload
    → AreRecent v.max_age_ns now (lookup skill config.skill_arms) s
sample-AreRecent convert state_of config skill s o v now payload h k =
    sampled_age convert state_of config skill s o v.max_age_ns now h
      (validated_age v now o payload k)
