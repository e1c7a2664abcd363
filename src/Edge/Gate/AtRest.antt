-- ===== src/Edge/Gate/AtRest.antt =====
-- What it means that a window of samples is at rest, joint by joint.
use oven_multiskill_runtime.Common.{
  ℕ, Bool-cases, ◌≤◌, inl, inr, true, ◌≡◌, ◌≢◌, none, List, [], ◌∷◌, map, ℤ, arith, refl,
}
use oven_multiskill_runtime.Common.{All, Any, All-map}
use oven_multiskill_runtime.Edge.Gate.{
  JointGateProfile, window_result, first_match, maximum_spread, median_errors, column, at, distance,
  all_le, largest,
}

-- A number for each joint: the property relates them, up to the shorter list.
abbrev pub AllPairs : (ℕ → ℕ → Type 0) → List ℕ → List ℕ → Type 0
AllPairs P (x ∷ xs) (y ∷ ys) = P x y × AllPairs P xs ys
AllPairs P _ _ = Unit

module _ (median : List ℤ → ℤ) (p : JointGateProfile) (samples : List (List ℤ)) where
  -- The median of each checked joint is within its tolerance of the target.
  abbrev pub IsNear : List ℤ → Type 0
  IsNear target =
      AllPairs (λ i t. distance (median (column median samples i)) (at target i) ≤ t)
        p.check_indices p.tolerance

  -- No two samples of the window differ by more than the limit at a checked joint.
  abbrev pub IsQuiet : Type 0
  IsQuiet =
      All
        (λ i.
          All (λ x. All (λ y. distance x y ≤ p.max_spread) (column median samples i))
            (column median samples i))
        p.check_indices

largest-All :
    {A : Type 0} (f : A → ℕ) (n : ℕ) (xs : List A) → largest (map f xs) ≤ n → All (λ x. f x ≤ n) xs
largest-All f n [] h = tt
largest-All f n (x ∷ xs) h = (omega (arith, h), largest-All f n xs (omega (arith, h)))

all_le-AllPairs :
    (f : ℕ → ℕ) (is ts : List ℕ) → all_le (map f is) ts ≡ true → AllPairs (λ i t. f i ≤ t) is ts
all_le-AllPairs f [] ts h = tt
all_le-AllPairs f (i ∷ is) [] h = tt
all_le-AllPairs f (i ∷ is) (t ∷ ts) h = (ground arith, all_le-AllPairs f is ts (ground arith))

module _ (median : List ℤ → ℤ) (p : JointGateProfile) (samples : List (List ℤ)) where
  first_match-Any :
      (targets : List (List ℤ))
      → first_match median p samples targets ≢ none
      → Any (IsNear median p samples) targets
  first_match-Any [] h = absurd (h refl)
  first_match-Any (t ∷ ts) h =
      elim (Bool-cases (all_le (median_errors median p samples t) p.tolerance)) [
        | inl e ↦ inl (all_le-AllPairs _ p.check_indices p.tolerance e)
        | inr e ↦ inr (first_match-Any ts (ground arith))
      ]

  maximum_spread-IsQuiet : maximum_spread median p samples ≤ p.max_spread → IsQuiet median p samples
  maximum_spread-IsQuiet h =
      All-map _ _ p.check_indices
        (λ i h.
          All-map _ _ (column median samples i) (λ x h. largest-All (distance x) p.max_spread _ h)
            (largest-All _ p.max_spread (column median samples i) h))
        (largest-All _ p.max_spread p.check_indices h)

  -- A window that passes is near one of the targets and quiet.
  pub window_result_passed :
      (window_result median p samples).passed ≡ true
      → Any (IsNear median p samples) p.targets × IsQuiet median p samples
  unfolding window_result
  window_result_passed h =
      (first_match-Any p.targets (ground arith), maximum_spread-IsQuiet (ground arith))
