-- ===== src/Edge/RosConfig.antt =====
-- src/oven_runtime/edge/profile_types.py: the configuration of the ROS bridge and of a checker.
-- Durations, rates, positions and thresholds are whole numbers of a fixed small unit; those that
-- are not finite are refused where the profile is read, and are not represented.
pub mod Covers
mod Tests
use oven_multiskill_runtime.Common.{
  ℕ, String, Bool, true, false, Option, none, some, List, [], ◌∷◌, map, all, any, length, codes,
  str_eq, is_empty, is_some, ltb, leb, ◌==◌, not, ◌&&◌, ◌||◌, ℤ, Result, ok, err, other,
  if◌then◌else◌,
}

-- A mapping of the configuration, by skill.
abbrev pub lookup {ℓ} : {A : Type ℓ} → String → List (String × A) → Option A
lookup k [] = none
lookup k ((j, v) ∷ r) = if str_eq j k then some v else lookup k r

abbrev pub keys {ℓ} : {A : Type ℓ} → List (String × A) → List String
keys [] = []
keys ((k, v) ∷ r) = k ∷ keys r

abbrev pub has_key {ℓ} : {A : Type ℓ} → List (String × A) → String → Bool
has_key m k = is_some (lookup k m)

-- `set(a) == set(b)` of the keys.
abbrev pub same_keys {ℓ κ} :
    {A : Type ℓ} {B : Type κ} → List (String × A) → List (String × B) → Bool
same_keys a b = all (has_key b) (keys a) && all (has_key a) (keys b)

pub record RosBridgeConfig : Type 0 where
  pub prompts : List (String × String)
  pub reset_targets : List (String × List ℤ)
  pub skill_arms : List (String × String)
  pub image_size : ℕ
  pub max_message_age : ℕ
  pub preflight_timeout : ℕ
  pub publish_hz : ℕ
  pub chunk_transition_steps : ℕ
  pub chunk_transition_hz : ℕ
  pub max_row_delta : List ℕ
  pub reset_duration : ℕ
  pub reset_tolerance : ℕ
  pub reset_verify_timeout : ℕ
  pub stop_hold_repetitions : ℕ

abbrev pub is_arm : String → Bool
is_arm t = str_eq t "left" || str_eq t "right"

abbrev all_arms : List (String × String) → Bool
all_arms [] = true
all_arms ((k, arm) ∷ r) = is_arm arm && all_arms r

abbrev all_targets : List (String × List ℤ) → Bool
all_targets [] = true
all_targets ((k, target) ∷ r) = (length target == 7) && all_targets r

-- `RosBridgeConfig.validate`
unfoldable pub validate_config : RosBridgeConfig → Result (Unit {0})
validate_config c =
    if not (same_keys c.prompts c.reset_targets) || not (same_keys c.prompts c.skill_arms)
    then err other
    else if not (all_arms c.skill_arms)
    then err other
    else if not (all_targets c.reset_targets)
    then err other
    else if not (length c.max_row_delta == 7) || any (λ d. d == 0) c.max_row_delta
    then err other
    else if any (λ n. n == 0)
        (c.image_size ∷ c.max_message_age ∷ c.preflight_timeout ∷ c.publish_hz
          ∷ c.chunk_transition_steps ∷ c.chunk_transition_hz ∷ c.reset_duration ∷ c.reset_tolerance
          ∷ c.reset_verify_timeout ∷ c.stop_hold_repetitions ∷ [])
    then err other
    else ok tt

pub record CheckerSpec : Type 0 where
  pub model_relative_path : String
  pub model_sha256 : String
  pub success_class : String
  pub threshold : ℕ
  pub preprocessing : String

-- A character of `0123456789abcdef`.
abbrev is_hex : ℕ → Bool
is_hex c = (leb b'0' c && leb c b'9') || (leb b'a' c && leb c b'f')

-- `CheckerSpec.validate`; `unit` stands for 1.0.
unfoldable pub validate_checker : ℕ → CheckerSpec → Result (Unit {0})
validate_checker unit s =
    if not (length (codes s.model_sha256) == 64) || not (all is_hex (codes s.model_sha256))
    then err other
    else if is_empty s.success_class || s.threshold == 0 || ltb unit s.threshold
    then err other
    else if not (str_eq s.preprocessing "resize" || str_eq s.preprocessing "resize_center_crop")
    then err other
    else ok tt
