-- ===== src/Edge/RosAction/Tests.antt =====
-- The executor at one configuration: a chunk of two rows for the left arm, and a reset.
use oven_multiskill_runtime.Common.{
  ℕ, true, false, ◌≡◌, refl, none, some, List, [], ◌∷◌, ◌==◌, if◌then◌else◌, ℤ, pos, ok,
}
use oven_multiskill_runtime.Value.{text}
use oven_multiskill_runtime.Edge.Gate.{JointGateProfile, reached_result}
use oven_multiskill_runtime.Edge.RosConfig.{RosBridgeConfig}
use oven_multiskill_runtime.Edge.RosObservation.{RosObservationSource, receive_all}
use oven_multiskill_runtime.Edge.RosObservation.Sample.{joint_snapshot, arm_snapshot}
use oven_multiskill_runtime.Edge.RosAction
use oven_multiskill_runtime.Edge.RosAction.{
  World, RosActionExecutor, locked, listen, snapshot_of, publish_one, publish_pair,
  publish_controlled, acquire_action_lock, external_publishers_present, preflight, enter_stage,
  begin_stage,
}
use oven_multiskill_runtime.Edge.RosAction.Publish.{
  all_published, transition, after_row, publish_row, publish_rows, publish_chunk, publish_with,
  publish,
}
use oven_multiskill_runtime.Edge.RosAction.Publish.Meets.{IsMet, publish-IsMet}
use oven_multiskill_runtime.Edge.RosAction.Publish.Moves.{Moves, publish-Moves}
use oven_multiskill_runtime.Edge.RosAction.Reset.{motion, verify, approach, move_arm, reset}
use oven_multiskill_runtime.Edge.RosAction.Reset.Arrives.{Arrived, reset-Arrived}
use oven_multiskill_runtime.Edge.RosAction.Lock.{
  IsGuarded, Numerics, created, further, begins, publishes_rows, closes, Reachable-IsGuarded,
}

abbrev posture : ℕ → List ℤ
posture x = pos x ∷ pos 0 ∷ pos 0 ∷ pos 0 ∷ pos 0 ∷ pos 0 ∷ pos 0 ∷ []

abbrev config : RosBridgeConfig
config = record {
  prompts = ("pick_cup", "pick up the cup") ∷ [];
  reset_targets = ("pick_cup", posture 2) ∷ [];
  skill_arms = ("pick_cup", "left") ∷ [];
  image_size = 224;
  max_message_age = 50;
  preflight_timeout = 5;
  publish_hz = 30;
  chunk_transition_steps = 2;
  chunk_transition_hz = 30;
  max_row_delta = 3 ∷ 3 ∷ 3 ∷ 3 ∷ 3 ∷ 3 ∷ 3 ∷ [];
  reset_duration = 2;
  reset_tolerance = 1;
  reset_verify_timeout = 1;
  stop_hold_repetitions = 2;
}

abbrev profile : JointGateProfile
profile = record {
  arm = "left";
  targets = posture 0 ∷ [];
  check_indices = 0 ∷ [];
  tolerance = 2 ∷ [];
  departure_threshold = 5;
  min_publish_step = 10;
  window_samples = 3;
  max_spread = 3;
  arming_indices = [];
  arming_min_abs_position = [];
}

abbrev source : RosObservationSource
source = record {
  left_joint = some (posture 1, 90);
  right_joint = some (posture 5, 90);
  left_image = some (text "left", 90);
  right_image = some (text "right", 90);
  front_image = some (text "front", 90);
  preflight_complete = false;
  gate = record {
    profiles = ("pick_cup", profile) ∷ [];
    maximum_window = 3;
    samples = [];
    skill = none;
    departed = false;
    armed = false;
  };
}

-- The operating system and ROS, with nothing in the way.
abbrev world : World
world = record {
  own = record { node_name = "oven_action_executor"; node_namespace = "/" };
  arrivals = λ trace. [];
  rounds = λ trace. ([], 100) ∷ [];
  lock = λ trace. locked;
  publishers_info = λ trace. [];
  deliver = λ trace. ok tt;
}

-- The blending at its two ends.
abbrev blend : ℕ → ℕ → List ℤ → List ℤ → List ℤ
blend i n a b = if i == n then b else a

abbrev median : List ℤ → ℤ
median [] = pos 0
median (x ∷ xs) = x

-- The executor in the active stage, with the arm at its last command.
abbrev staged : RosActionExecutor
staged = record {
  config = config;
  observation = source;
  active_skill = some "pick_cup";
  published_rows = 0;
  last_command = some (posture 1);
  has_published = false;
  preflight_complete = true;
  holds_lock = true;
  closed = false;
  trace = [];
}

abbrev chunk : List (List ℤ)
chunk = posture 2 ∷ posture 4 ∷ []

chunk_published : (publish world median blend chunk staged).0 ≡ ok (all_published 2)
unfolding publish publish_with publish_chunk publish_rows publish_row after_row transition
    publish_controlled publish_pair publish_one snapshot_of listen arm_snapshot joint_snapshot
    receive_all reached_result
chunk_published = refl

publish-IsMet_example : IsMet 1 2 (all_published 2)
publish-IsMet_example =
    publish-IsMet world median blend chunk staged (all_published 2) chunk_published

chunk_result :
    publish world median blend chunk staged
    ≡ (ok (all_published 2), (publish world median blend chunk staged).1)
unfolding publish publish_with publish_chunk publish_rows publish_row after_row transition
    publish_controlled publish_pair publish_one snapshot_of listen arm_snapshot joint_snapshot
    receive_all reached_result
chunk_result = refl

publish-Moves_example :
    Moves world median blend chunk staged
      (all_published 2)
      (publish world median blend chunk staged).1
publish-Moves_example =
    publish-Moves world median blend (posture 2) (posture 4 ∷ []) staged
      (publish world median blend chunk staged).1 (all_published 2) chunk_result

reset_result :
    reset world blend (λ d hz. 2) (λ trace. 3) "pick_cup" staged
    ≡ (ok tt, (reset world blend (λ d hz. 2) (λ trace. 3) "pick_cup" staged).1)
unfolding reset move_arm approach motion verify preflight publish_controlled publish_pair
    publish_one snapshot_of listen arm_snapshot joint_snapshot receive_all
reset_result = refl

reset-Arrived_example :
    Arrived config "pick_cup" (reset world blend (λ d hz. 2) (λ trace. 3) "pick_cup" staged).1
reset-Arrived_example =
    reset-Arrived world blend (λ d hz. 2) (λ trace. 3) "pick_cup" staged
      (reset world blend (λ d hz. 2) (λ trace. 3) "pick_cup" staged).1 reset_result

abbrev numerics : Numerics
numerics = record {
  median = median;
  blend = blend;
  smooth = blend;
  total_steps = λ d hz. 2;
  attempts = λ trace. 3;
}

abbrev prepared : RosActionExecutor
prepared = (begin_stage world "pick_cup" (RosAction.create config source)).1

abbrev moved : RosActionExecutor
moved = (publish world median blend chunk prepared).1

Reachable-IsGuarded_example : IsGuarded (RosAction.close moved).1
Reachable-IsGuarded_example =
    Reachable-IsGuarded world numerics config source (RosAction.close moved).1
      (further (further (further created (begins "pick_cup")) (publishes_rows chunk)) closes)
