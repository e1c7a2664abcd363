-- ===== src/Edge/Gate/Windowed.antt =====
-- src/oven_runtime/edge/joint_gate.py, `WindowedJointGate`: the gate that reads the joints itself.
-- A reading is what `sample_joints` returns at that call, with whether it is finite.
mod Lists
pub mod Stable
mod Tests
use oven_multiskill_runtime.Common.{
  ℕ, zero, suc, max, ◌-◌, String, Bool, true, false, List, [], ◌∷◌, ◌++◌, map, all, length, drop,
  ltb, leb, ◌==◌, not, ◌&&◌, ◌||◌, ℤ, Result, ok, err, other, if◌then◌else◌,
}
use oven_multiskill_runtime.Edge.Contracts.{GateResult, Extent, finite, infinite}
use oven_multiskill_runtime.Edge.Gate.{largest, distance}

pub record WindowedJointGate : Type 0 where
  pub target : List ℤ
  pub tolerance : List ℕ
  pub max_spread : ℕ
  pub required_samples : ℕ
  pub max_samples : ℕ

abbrev pub Reading : Type 0
Reading = List ℤ × Bool

-- The distances of two positions, joint by joint.
abbrev pub distances : List ℤ → List ℤ → List ℕ
distances (x ∷ xs) (y ∷ ys) = distance x y ∷ distances xs ys
distances _ _ = []

-- `np.max(np.abs(stacked - target))`
abbrev pub window_error : List ℤ → List (List ℤ) → ℕ
window_error target window = largest (map (λ s. largest (distances s target)) window)

-- `np.max(np.ptp(stacked, axis=0))`: the largest distance of two samples, at any joint.
abbrev pub window_spread : List (List ℤ) → ℕ
window_spread window =
    largest (map (λ s. largest (map (λ t. largest (distances s t)) window)) window)

abbrev pub each_le : List ℕ → List ℕ → Bool
each_le (x ∷ xs) (y ∷ ys) = leb x y && each_le xs ys
each_le _ _ = true

-- `np.all(np.abs(stacked - target) <= tolerance)`
abbrev pub within_target : List ℤ → List ℕ → List (List ℤ) → Bool
within_target target tolerance window = all (λ s. each_le (distances s target) tolerance) window

-- `window[-required :]` after the sample was appended.
abbrev pub slide : ℕ → List (List ℤ) → List ℤ → List (List ℤ)
slide required window sample =
    drop (length (window ++ sample ∷ []) - required) (window ++ sample ∷ [])

-- What one round leads to: the gate passes, or goes on with a window and what was observed.
pub data Round : Type 0 where
  passes : GateResult → Round
  goes : List (List ℤ) → Extent → Extent → Round

abbrev pub stable : ℕ → ℕ → ℕ → GateResult
stable index error spread = record {
  passed = true;
  samples = index;
  max_error = finite error;
  max_spread = finite spread;
  reason = "stable_target_window";
}

module _ (gate : WindowedJointGate) where
  -- A window that has the required samples.
  abbrev pub judge : ℕ → List (List ℤ) → Round
  judge index window =
      if within_target gate.target gate.tolerance window
        && leb (window_spread window) gate.max_spread
      then passes (stable index (window_error gate.target window) (window_spread window))
      else goes window (finite (window_error gate.target window)) (finite (window_spread window))

  abbrev pub is_proper : Reading → Bool
  is_proper (sample, is_finite) = (length sample == length gate.target) && is_finite

  unfoldable pub round : ℕ → Reading → List (List ℤ) → Extent → Extent → Round
  round index r window error spread =
      if not (is_proper r)
      then goes [] error spread
      else if ltb (length (slide gate.required_samples window r.0)) gate.required_samples
      then goes (slide gate.required_samples window r.0) error spread
      else judge index (slide gate.required_samples window r.0)

  -- The loop over the readings that are left, the next of which is the one at `index`.
  unfoldable pub rounds : ℕ → List Reading → List (List ℤ) → Extent → Extent → GateResult
  rounds index [] window error spread = record {
    passed = false;
    samples = gate.max_samples;
    max_error = error;
    max_spread = spread;
    reason = "joint_window_not_stable";
  }
  rounds index (r ∷ rest) window error spread = elim (round index r window error spread) [
    | passes result ↦ result
    | goes window' error' spread' ↦ rounds (suc index) rest window' error' spread'
  ]

-- What the calls of `sample_joints` return, from the one at that index.
abbrev pub readings : (ℕ → Reading) → ℕ → ℕ → List Reading
readings sample_joints zero index = []
readings sample_joints (suc left) index =
    sample_joints index ∷ readings sample_joints left (suc index)

-- `evaluate`, for a target that has a joint.
unfoldable pub evaluate : WindowedJointGate → (ℕ → Reading) → Result GateResult
evaluate gate sample_joints =
    if not (length gate.tolerance == length gate.target)
    then err other
    else if gate.max_spread == 0
        || gate.required_samples == 0
        || ltb gate.max_samples gate.required_samples
    then err other
    else ok (rounds gate 1 (readings sample_joints gate.max_samples 1) [] infinite infinite)
