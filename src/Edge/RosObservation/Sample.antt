-- ===== src/Edge/RosObservation/Sample.antt =====
-- src/oven_runtime/edge/ros2_observation.py: the samples and snapshots that are made of the latest
-- messages. The conversion of an image is a parameter (`cv_bridge` and OpenCV); its layout is in
-- Letterbox.
use oven_multiskill_runtime.Common.{
  ℕ, String, none, some, List, str_eq, min, not, ℤ, Result, ok, err, faulted, other, if◌then◌else◌,
}
use oven_multiskill_runtime.Errors.{fault, state_rejected, invalid_field_value, observation_stale}
use oven_multiskill_runtime.Value.{Value, field, end, text, mapping}
use oven_multiskill_runtime.Edge.Contracts.{Observation}
use oven_multiskill_runtime.Edge.RosConfig.{RosBridgeConfig, lookup}
use oven_multiskill_runtime.Edge.RosObservation.{RosObservationSource, Entry}

-- The entries that a sample is made of.
abbrev pub arm_joint : String → RosObservationSource → Entry (List ℤ)
arm_joint arm s = if str_eq arm "left" then s.left_joint else s.right_joint

abbrev pub wrist_image : String → RosObservationSource → Entry Value
wrist_image arm s = if str_eq arm "left" then s.left_image else s.right_image

abbrev present : {A : Type 0} → Entry A → Result (A × ℕ)
present none = err (faulted (fault observation_stale "required ROS observations are missing"))
present (some e) = ok e

module _ (convert : Value → Result Value) (state_of : List ℤ → Value) where
  abbrev payload_of : String → List ℤ → Value → Value → String → Value
  payload_of arm state wrist high prompt = mapping (
      field "state" (state_of state) (
        field "images"
          (mapping (
            field (if str_eq arm "left" then "cam_left_wrist" else "cam_right_wrist") wrist
              (field "cam_high" high (field "cam_low" high end))))
          (field "prompt" (text prompt) end)))

  unfoldable pub sample : RosBridgeConfig → String → RosObservationSource → Result Observation
  sample config skill s =
      if not s.preflight_complete
      then err (faulted (fault state_rejected "ROS observation preflight has not completed"))
      else elim (lookup skill config.prompts) [
        | none ↦ err (faulted (fault invalid_field_value "skill has no configured prompt"))
        | some prompt ↦ elim (lookup skill config.skill_arms) [
          | none ↦ err other
          | some arm ↦ elim (present (arm_joint arm s)) [
            | err e ↦ err e
            | ok (joint, t) ↦ elim (present (wrist_image arm s)) [
              | err e ↦ err e
              | ok (wrist, u) ↦ elim (present s.front_image) [
                | err e ↦ err e
                | ok (front, w) ↦ elim (convert wrist) [
                  | err e ↦ err e
                  | ok cam_wrist ↦ elim (convert front) [
                    | err e ↦ err e
                    | ok cam_high ↦ ok (record {
                      payload = payload_of arm joint cam_wrist cam_high prompt;
                      captured_at_monotonic_ns = min t (min u w);
                    })
                  ]
                ]
              ]
            ]
          ]
        ]
      ]

-- `joint_snapshot` and `arm_snapshot`
unfoldable pub joint_snapshot : RosObservationSource → Result (List ℤ × List ℤ)
joint_snapshot s = elim s.left_joint [
  | none ↦ err other
  | some (left, t) ↦ elim s.right_joint [ none ↦ err other | some (right, u) ↦ ok (left, right) ]
]

abbrev pub for_arm : String → List ℤ × List ℤ → Result (List ℤ × List ℤ)
for_arm arm (left, right) =
    if str_eq arm "left"
    then ok (left, right)
    else if str_eq arm "right"
    then ok (right, left)
    else err other

unfoldable pub arm_snapshot : String → RosObservationSource → Result (List ℤ × List ℤ)
arm_snapshot arm s = elim (joint_snapshot s) [ err e ↦ err e | ok pair ↦ for_arm arm pair ]

-- `front_rgb`; the conversion to RGB is `cv_bridge`'s.
unfoldable pub front_rgb : (Value → Result Value) → RosObservationSource → Result (Value × ℕ)
front_rgb to_rgb s = elim s.front_image [
  | none ↦ err (faulted (fault observation_stale "front camera observation is unavailable"))
  | some (m, captured_at) ↦ elim (to_rgb m) [ err e ↦ err e | ok rgb ↦ ok (rgb, captured_at) ]
]
