-- ===== src/Edge/Gate/Windowed/Tests.antt =====
-- The windowed gate at readings of one joint: the third reading is not finite.
use oven_multiskill_runtime.Common.{
  ℕ, ◌≡◌, refl, true, false, [], ◌∷◌, pos, ok, ◌==◌, if◌then◌else◌,
}
use oven_multiskill_runtime.Edge.Gate.Windowed.{
  WindowedJointGate, Reading, round, rounds, readings, evaluate, stable,
}
use oven_multiskill_runtime.Edge.Gate.Windowed.Stable.{IsStable, evaluate-IsStable}

abbrev gate : WindowedJointGate
gate = record {
  target = pos 4 ∷ [];
  tolerance = 2 ∷ [];
  max_spread = 1;
  required_samples = 2;
  max_samples = 6;
}

abbrev joint : ℕ → Reading
joint n = if n == 3 then (pos 4 ∷ [], false) else (pos n ∷ [], true)

gate_passed : evaluate gate joint ≡ ok (stable 5 1 1)
unfolding evaluate rounds round
gate_passed = refl

evaluate-IsStable_example : IsStable gate (readings joint 6 1) (stable 5 1 1)
evaluate-IsStable_example = evaluate-IsStable gate joint (stable 5 1 1) gate_passed refl
