-- ===== src/Edge/Gate/Positions.antt =====
-- What the positions that are reported during a stage say: whether one arms the gate, and whether
-- one is away from the targets.
use oven_multiskill_runtime.Common.{
  ℕ, ◌≤◌, ◌⊎◌, true, false, ◌≡◌, List, [], ◌∷◌, length, max, any, ◌&&◌, ◌==◌, str_eq, map, ℤ, arith,
  if◌then◌else◌,
}
use oven_multiskill_runtime.Common.{All}
use oven_multiskill_runtime.Edge.Validation.{abs}
use oven_multiskill_runtime.Edge.Gate.{
  JointGateProfile, at, distance, arms, all_le, all_lt, is_near, is_near_target,
}
use oven_multiskill_runtime.Edge.Gate.Safety.{GateCall, begins, updates}
use oven_multiskill_runtime.Edge.Gate.AtRest.{AllPairs}

-- The calls of one stage: no other stage begins.
abbrev pub InStage : GateCall → Type 0
InStage (begins k) = ⊥
InStage _ = Unit

-- The whole positions of the arm of a profile that calls report.
unfoldable pub observed : JointGateProfile → List GateCall → List (List ℤ)
observed p [] = []
observed p (updates arm position is_finite ∷ cs) =
    let rest = observed p cs in
    if str_eq p.arm arm && length position == 7 && is_finite then position ∷ rest else rest
observed p (_ ∷ cs) = observed p cs

-- Each arming joint is as far from zero as the profile asks for.
abbrev pub IsArming : JointGateProfile → List ℤ → Type 0
IsArming p x = AllPairs (λ least i. least ≤ abs (at x i)) p.arming_min_abs_position p.arming_indices

-- Some checked joint is as far from the target as the departure asks for.
abbrev pub IsAwayFrom : List ℤ → List ℤ → ℕ → List ℕ → List ℕ → Type 0
IsAwayFrom x target threshold (i ∷ is) (t ∷ ts) =
    (max t threshold ≤ distance (at x i) (at target i)) ⊎ IsAwayFrom x target threshold is ts
IsAwayFrom x target threshold _ _ = ⊥

-- The position is away from every target.
abbrev pub IsDeparted : JointGateProfile → List ℤ → Type 0
IsDeparted p x =
    All (λ t. IsAwayFrom x t p.departure_threshold p.check_indices p.tolerance) p.targets

pub arms-IsArming : (p : JointGateProfile) (x : List ℤ) → arms p x ≡ true → IsArming p x
arms-IsArming p x h = go p.arming_min_abs_position p.arming_indices h
  where
    go :
        (ls is : List ℕ)
        → all_le ls (map (λ (i : ℕ). abs (at x i)) is) ≡ true
        → AllPairs (λ least i. least ≤ abs (at x i)) ls is
    go [] is h = tt
    go (l ∷ ls) [] h = tt
    go (l ∷ ls) (i ∷ is) h = (ground arith, go ls is (ground arith))

pub all_lt-IsAwayFrom :
    (x target : List ℤ) (threshold : ℕ) (is ts : List ℕ)
    → all_lt
        (map (λ (i : ℕ). distance (at x i) (at target i)) is)
        (map (λ (t : ℕ). max t threshold) ts)
      ≡ false
    → IsAwayFrom x target threshold is ts
all_lt-IsAwayFrom x target threshold [] ts h = ground arith
all_lt-IsAwayFrom x target threshold (i ∷ is) [] h = ground arith
all_lt-IsAwayFrom x target threshold (i ∷ is) (t ∷ ts) h =
    ground (arith, all_lt-IsAwayFrom x target threshold is ts)

pub is_near-IsDeparted : (p : JointGateProfile) (x : List ℤ) → is_near p x ≡ false → IsDeparted p x
is_near-IsDeparted p x h = go p.targets h
  where
    go :
        (targets : List (List ℤ))
        → any (is_near_target p x) targets ≡ false
        → All (λ t. IsAwayFrom x t p.departure_threshold p.check_indices p.tolerance) targets
    go [] h = tt
    go (t ∷ ts) h = (
      all_lt-IsAwayFrom x t p.departure_threshold p.check_indices p.tolerance (ground arith),
      go ts (ground arith),
    )
