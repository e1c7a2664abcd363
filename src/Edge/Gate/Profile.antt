-- ===== src/Edge/Gate/Profile.antt =====
-- src/oven_runtime/edge/joint_gate.py, `JointGateProfile.arrays`: the checks of a profile. Limits
-- that are negative, or not finite, are not represented; of the limits that must be positive, 0 is
-- refused.
use oven_multiskill_runtime.Common.{
  ℕ, String, Bool, true, List, [], ◌∷◌, all, any, length, str_eq, ltb, ◌==◌, not, ◌&&◌, ◌||◌,
  Result, ok, err, other, if◌then◌else◌,
}
use oven_multiskill_runtime.Edge.Gate.{JointGateProfile, OnlineJointGate, create}

-- `np.unique(indices).size == indices.size`
abbrev pub are_unique : List ℕ → Bool
are_unique [] = true
are_unique (i ∷ is) = not (any (λ j. i == j) is) && are_unique is

-- The checks that the two lists of indices share, with their limits.
abbrev pub indices_fit : List ℕ → List ℕ → Bool
indices_fit indices limits =
    all (λ i. ltb i 7) indices && are_unique indices && all (λ t. ltb 0 t) limits

unfoldable pub arrays : JointGateProfile → Result (Unit {0})
arrays p =
    if length p.targets == 0 || any (λ t. not (length t == 7)) p.targets
    then err other
    else if not (length p.tolerance == length p.check_indices) || length p.check_indices == 0
    then err other
    else if not (str_eq p.arm "left" || str_eq p.arm "right")
    then err other
    else if not (length p.arming_indices == length p.arming_min_abs_position)
    then err other
    else if not (length p.arming_indices == 0)
        && not (indices_fit p.arming_indices p.arming_min_abs_position)
    then err other
    else if not (indices_fit p.check_indices p.tolerance)
    then err other
    else if p.departure_threshold == 0 || p.window_samples == 0 || p.max_spread == 0
    then err other
    else ok tt

abbrev all_valid : List (String × JointGateProfile) → Result (Unit {0})
all_valid [] = ok tt
all_valid ((k, p) ∷ rest) = elim (arrays p) [ err e ↦ err e | ok u ↦ all_valid rest ]

-- `__init__` of the gate: at least one profile, each of them valid.
unfoldable pub configure : List (String × JointGateProfile) → Result OnlineJointGate
unfolding arrays
configure [] = err other
configure (p ∷ rest) = elim (all_valid (p ∷ rest)) [ err e ↦ err e | ok u ↦ ok (create (p ∷ rest)) ]
