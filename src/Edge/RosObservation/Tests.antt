-- ===== src/Edge/RosObservation/Tests.antt =====
-- The observation source with its messages at hand, and a canvas for one image.
use oven_multiskill_runtime.Common.{
  ℕ, ◌≡◌, refl, true, false, none, some, List, [], ◌∷◌, ℤ, pos, ok, arith,
}
use oven_multiskill_runtime.Value.{Fields, field, end, text, mapping}
use oven_multiskill_runtime.Edge.Contracts.{Observation}
use oven_multiskill_runtime.Edge.Validation.{validate_observation}
use oven_multiskill_runtime.Edge.Gate.{JointGateProfile}
use oven_multiskill_runtime.Edge.RosConfig.{RosBridgeConfig}
use oven_multiskill_runtime.Edge.RosObservation.{RosObservationSource}
use oven_multiskill_runtime.Edge.RosObservation.Sample.{sample}
use oven_multiskill_runtime.Edge.RosObservation.Fresh.{IsRecent, sample-AreRecent}
use oven_multiskill_runtime.Edge.RosObservation.Letterbox.{IsPlaced, letterbox, letterbox-IsPlaced}

abbrev posture : ℕ → List ℤ
posture x = pos x ∷ pos 0 ∷ pos 0 ∷ pos 0 ∷ pos 0 ∷ pos 0 ∷ pos 0 ∷ []

abbrev config : RosBridgeConfig
config = record {
  prompts = ("pick_cup", "pick up the cup") ∷ [];
  reset_targets = ("pick_cup", posture 2) ∷ [];
  skill_arms = ("pick_cup", "left") ∷ [];
  image_size = 224;
  max_message_age = 50;
  preflight_timeout = 5;
  publish_hz = 30;
  chunk_transition_steps = 2;
  chunk_transition_hz = 30;
  max_row_delta = 3 ∷ 3 ∷ 3 ∷ 3 ∷ 3 ∷ 3 ∷ 3 ∷ [];
  reset_duration = 2;
  reset_tolerance = 1;
  reset_verify_timeout = 1;
  stop_hold_repetitions = 2;
}

abbrev profile : JointGateProfile
profile = record {
  arm = "left";
  targets = posture 0 ∷ [];
  check_indices = 0 ∷ [];
  tolerance = 2 ∷ [];
  departure_threshold = 5;
  min_publish_step = 10;
  window_samples = 3;
  max_spread = 3;
  arming_indices = [];
  arming_min_abs_position = [];
}

abbrev source : RosObservationSource
source = record {
  left_joint = some (posture 1, 90);
  right_joint = some (posture 5, 90);
  left_image = some (text "left", 90);
  right_image = some (text "right", 90);
  front_image = some (text "front", 80);
  preflight_complete = true;
  gate = record {
    profiles = ("pick_cup", profile) ∷ [];
    maximum_window = 3;
    samples = [];
    skill = none;
    departed = false;
    armed = false;
  };
}

abbrev payload : Fields
payload = field "state" (text "state") (
    field "images"
      (mapping (
        field "cam_left_wrist" (text "left")
          (field "cam_high" (text "front") (field "cam_low" (text "front") end))))
      (field "prompt" (text "pick up the cup") end))

abbrev observation : Observation
observation = record { payload = mapping payload; captured_at_monotonic_ns = 80 }

sampled : sample (λ v. ok v) (λ state. text "state") config "pick_cup" source ≡ ok observation
unfolding sample
sampled = refl

validated : validate_observation (record { max_age_ns = 30 }) 100 observation ≡ ok payload
unfolding validate_observation
validated = refl

sample-AreRecent_example :
    IsRecent 30 100 source.left_joint
    × IsRecent 30 100 source.left_image
    × IsRecent 30 100 source.front_image
sample-AreRecent_example =
    sample-AreRecent (λ v. ok v) (λ state. text "state") config "pick_cup" source observation
      (record { max_age_ns = 30 }) 100 payload sampled validated

letterbox-IsPlaced_example : IsPlaced 224 640 480 (letterbox 224 640 480)
letterbox-IsPlaced_example =
    letterbox-IsPlaced 224 640 480 (omega arith) (omega arith) (omega arith)

letterbox_camera :
    letterbox 224 640 480 ≡ record { x = 0; y = 28; resized_width = 224; resized_height = 168 }
unfolding letterbox
letterbox_camera = refl
