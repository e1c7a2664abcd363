-- ===== src/Edge/Plan.antt =====
-- src/oven_runtime/edge/orchestrator.py, `StagePlan` and `PipelinePlan`.
use Prim.Native.String.{◌++◌ as append}
use oven_multiskill_runtime.Common.{
  zero, ℕ, suc, String, Bool, true, false, List, [], ◌∷◌, map, ◌==◌, not, ◌&&◌, ◌||◌, ℤ, lt_ℕ,
  str_eq, is_empty, Result, ok, err, other, if◌then◌else◌,
}
use oven_multiskill_runtime.Protocol.{is_trial_id}

pub record StagePlan : Type 0 where
  pub skill : String
  pub root_seed : ℤ
  pub max_chunks : ℕ
  pub action_steps : ℕ
  pub settle : ℕ
  pub reset_before : Bool
  pub checker_required : Bool

pub record PipelinePlan : Type 0 where
  pub run_id : String
  pub stages : List StagePlan

abbrev pub fixed_skill_order : List String
fixed_skill_order = "open_door" ∷ "transport_food" ∷ "close_door" ∷ "rotate_button" ∷ []

abbrev pub same_texts : List String → List String → Bool
same_texts [] [] = true
same_texts (s ∷ ss) (t ∷ ts) = str_eq s t && same_texts ss ts
same_texts _ _ = false

abbrev pub member : String → List String → Bool
member s [] = false
member s (t ∷ ts) = str_eq s t || member s ts

abbrev pub skills_of : PipelinePlan → List String
skills_of p = map (λ (s : StagePlan). s.skill) p.stages

-- `StagePlan.validate`. The numbers that may not be negative are natural numbers.
abbrev stage_is_valid : StagePlan → Bool
stage_is_valid s =
    not (is_empty s.skill)
    && not (lt_ℕ s.root_seed 0)
    && not (s.max_chunks == 0)
    && not (s.action_steps == 0)

abbrev is_single : List String → Bool
is_single (s ∷ []) = member s fixed_skill_order
is_single _ = false

-- The decimal text of a stage's index: a plan has at most four stages.
abbrev index_text : ℕ → String
index_text zero = "0"
index_text (suc zero) = "1"
index_text (suc (suc zero)) = "2"
index_text (suc (suc (suc n))) = "3"

-- `f"{self.run_id}_{index}_{stage.skill}"`
abbrev pub trial_id_of : String → ℕ → String → String
trial_id_of run_id index skill =
    append run_id (append "_" (append (index_text index) (append "_" skill)))

abbrev stages_are_valid : String → ℕ → List StagePlan → Bool
stages_are_valid run_id index [] = true
stages_are_valid run_id index (s ∷ ss) =
    stage_is_valid s
    && is_trial_id (trial_id_of run_id index s.skill)
    && stages_are_valid run_id (suc index) ss

-- `PipelinePlan.validate`
unfoldable pub validate_plan : PipelinePlan → Result (Unit {0})
validate_plan p =
    if (same_texts (skills_of p) fixed_skill_order || is_single (skills_of p))
      && is_trial_id p.run_id
      && stages_are_valid p.run_id 0 p.stages
    then ok tt
    else err other
