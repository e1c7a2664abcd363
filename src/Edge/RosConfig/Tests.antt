-- ===== src/Edge/RosConfig/Tests.antt =====
-- A configuration of one skill, and one of a checker.
use oven_multiskill_runtime.Common.{ℕ, ◌≡◌, refl, List, [], ◌∷◌, ℤ, pos, ok}
use oven_multiskill_runtime.Edge.RosConfig.{RosBridgeConfig, validate_config, validate_checker}
use oven_multiskill_runtime.Edge.RosConfig.Covers.{Covers, validate_config-Covers}

abbrev posture : ℕ → List ℤ
posture x = pos x ∷ pos 0 ∷ pos 0 ∷ pos 0 ∷ pos 0 ∷ pos 0 ∷ pos 0 ∷ []

abbrev config : RosBridgeConfig
config = record {
  prompts = ("pick_cup", "pick up the cup") ∷ [];
  reset_targets = ("pick_cup", posture 2) ∷ [];
  skill_arms = ("pick_cup", "left") ∷ [];
  image_size = 224;
  max_message_age = 50;
  preflight_timeout = 5;
  publish_hz = 30;
  chunk_transition_steps = 2;
  chunk_transition_hz = 30;
  max_row_delta = 3 ∷ 3 ∷ 3 ∷ 3 ∷ 3 ∷ 3 ∷ 3 ∷ [];
  reset_duration = 2;
  reset_tolerance = 1;
  reset_verify_timeout = 1;
  stop_hold_repetitions = 2;
}

config_valid : validate_config config ≡ ok tt
unfolding validate_config
config_valid = refl

validate_config-Covers_example : Covers config "pick_cup"
validate_config-Covers_example = validate_config-Covers config "pick_cup" config_valid refl

checker_valid :
    validate_checker 1000 (record {
      model_relative_path = "door.onnx";
      model_sha256 = "0123456789abcdef0123456789abcdef0123456789abcdef0123456789abcdef";
      success_class = "open";
      threshold = 800;
      preprocessing = "resize";
    })
    ≡ ok tt
unfolding validate_checker
checker_valid = refl
