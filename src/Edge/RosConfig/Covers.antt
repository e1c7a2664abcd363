-- ===== src/Edge/RosConfig/Covers.antt =====
-- A validated configuration has an arm and a reset target for every skill with a prompt.
use oven_multiskill_runtime.Common.{
  String, true, ◌≡◌, ◌⊎◌, inl, inr, some, List, [], ◌∷◌, all, length, ℤ, eq_iff, Option-cases, ok,
  arith,
}
use oven_multiskill_runtime.Edge.RosConfig.{
  RosBridgeConfig, lookup, keys, has_key, all_arms, all_targets, validate_config,
}

key_of :
    {A B : Type 0} (k : String) (m : List (String × A)) (n : List (String × B))
    → all (has_key n) (keys m) ≡ true
    → has_key m k ≡ true
    → has_key n k ≡ true
key_of k [] n h p = ground arith
key_of k ((j, v) ∷ r) n h p = ground (arith, eq_iff j k, key_of k r n)

arm_of :
    (k arm : String) (m : List (String × String))
    → all_arms m ≡ true
    → lookup k m ≡ some arm
    → (arm ≡ "left") ⊎ (arm ≡ "right")
arm_of k arm [] h p = ground arith
arm_of k arm ((j, v) ∷ r) h p = ground (arith, eq_iff v "left", eq_iff v "right", arm_of k arm r)

target_of :
    (k : String) (target : List ℤ) (m : List (String × List ℤ))
    → all_targets m ≡ true
    → lookup k m ≡ some target
    → length target ≡ 7
target_of k target [] h p = ground arith
target_of k target ((j, v) ∷ r) h p = ground (arith, target_of k target r)

-- What the configuration has for a skill.
pub record Covers (c : RosBridgeConfig) (skill : String) : Type 0 where
  pub arm : (a : String) × (lookup skill c.skill_arms ≡ some a) × ((a ≡ "left") ⊎ (a ≡ "right"))
  pub target : (t : List ℤ) × (lookup skill c.reset_targets ≡ some t) × (length t ≡ 7)
  pub limits : length c.max_row_delta ≡ 7

validate_lem :
    (c : RosBridgeConfig)
    → validate_config c ≡ ok tt
    → (all (has_key c.reset_targets) (keys c.prompts) ≡ true)
      × (all (has_key c.skill_arms) (keys c.prompts) ≡ true)
      × (all_arms c.skill_arms ≡ true)
      × (all_targets c.reset_targets ≡ true)
      × (length c.max_row_delta ≡ 7)
unfolding validate_config
validate_lem c h = ground arith

has_key_value :
    {A : Type 0} (k : String) (m : List (String × A))
    → has_key m k ≡ true
    → (v : A) × (lookup k m ≡ some v)
has_key_value k m h = elim (Option-cases (lookup k m)) [
  | inl absent ↦ absurd (ground arith)
  | inr (v, e) ↦ (v, e)
]

-- A configuration that passes its checks has, for every skill with a prompt, an arm that is `left`
-- or `right` and a reset target of seven joints, and it limits the delta of seven joints.
pub validate_config-Covers :
    (c : RosBridgeConfig) (skill : String)
    → validate_config c ≡ ok tt
    → has_key c.prompts skill ≡ true
    → Covers c skill
validate_config-Covers c skill h p =
    let v = validate_lem c h in
    let (arm, found) =
      has_key_value skill c.skill_arms (key_of skill c.prompts c.skill_arms v.1 p) in
    let (target, known) =
      has_key_value skill c.reset_targets (key_of skill c.prompts c.reset_targets v.0 p) in
    record {
      arm = (arm, found, arm_of skill arm c.skill_arms v.2 found);
      target = (target, known, target_of skill target c.reset_targets v.3 known);
      limits = v.4;
    }
