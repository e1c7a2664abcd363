-- ===== src/Edge/Gate/Tests.antt =====
-- The joint gate at one profile, with the element in the middle of the sorted column as the median.
use oven_multiskill_runtime.Common.{
  ℕ, zero, suc, Bool, true, false, ◌≡◌, ◌≢◌, ◌≤◌, none, some, List, [], ◌∷◌, length, get_elem?, leb,
  ℤ, pos, negsuc, ok, if◌then◌else◌, refl, arith,
}
use oven_multiskill_runtime.Edge.Contracts.{GateResult, finite}
use oven_multiskill_runtime.Edge.Gate.{
  JointGateProfile, OnlineJointGate, create, begin, update, reached_result, window_result,
}
use oven_multiskill_runtime.Edge.Gate.Safety.{
  GateCall, begins, updates, checks, call, call_all, call_all-WindowsWithin, reached_result_first,
}
use oven_multiskill_runtime.Common.{All}
use oven_multiskill_runtime.Edge.Gate.Positions.{InStage}
use oven_multiskill_runtime.Edge.Gate.History.{IsReached, reached_result-IsReached}

abbrev at_most : ℤ → ℤ → Bool
at_most (pos a) (pos b) = leb a b
at_most (pos a) (negsuc b) = false
at_most (negsuc a) (pos b) = true
at_most (negsuc a) (negsuc b) = leb b a

abbrev insert : ℤ → List ℤ → List ℤ
insert x [] = x ∷ []
insert x (y ∷ ys) = if at_most x y then x ∷ y ∷ ys else y ∷ insert x ys

abbrev sort : List ℤ → List ℤ
sort [] = []
sort (x ∷ xs) = insert x (sort xs)

abbrev half : ℕ → ℕ
half zero = 0
half (suc zero) = 0
half (suc (suc n)) = suc (half n)

abbrev middle : List ℤ → ℤ
middle xs = elim (get_elem? (sort xs) (half (length xs))) [ none ↦ pos 0 | some x ↦ x ]

abbrev profile : JointGateProfile
profile = record {
  arm = "left";
  targets = (pos 0 ∷ []) ∷ [];
  check_indices = 0 ∷ [];
  tolerance = 2 ∷ [];
  departure_threshold = 5;
  min_publish_step = 10;
  window_samples = 3;
  max_spread = 3;
  arming_indices = 0 ∷ [];
  arming_min_abs_position = 20 ∷ [];
}

-- The arm with its first joint there, and the others at 0.
abbrev posture : ℤ → List ℤ
posture x = x ∷ pos 0 ∷ pos 0 ∷ pos 0 ∷ pos 0 ∷ pos 0 ∷ pos 0 ∷ []

-- The arm goes out, which arms the gate, and comes back to rest at the target.
abbrev stage_calls : List GateCall
stage_calls =
    updates "left" (posture (pos 30)) true
    ∷ checks "open_door" 1
    ∷ updates "right" (posture (pos 9)) true
    ∷ updates "left" (posture (negsuc 0)) true
    ∷ updates "left" (posture (pos 1)) true
    ∷ updates "left" (posture (pos 0)) true
    ∷ []

abbrev there_and_back : List GateCall
there_and_back = begins "open_door" ∷ stage_calls

abbrev gate : OnlineJointGate
gate = record {
  profiles = ("open_door", profile) ∷ [];
  maximum_window = 3;
  samples = posture (negsuc 0) ∷ posture (pos 1) ∷ posture (pos 0) ∷ [];
  skill = some "open_door";
  departed = true;
  armed = true;
}

whole_pass : call_all middle there_and_back (create (("open_door", profile) ∷ [])) ≡ gate
unfolding call_all call create begin update reached_result window_result
whole_pass = refl

abbrev result : GateResult
result = record {
  passed = true;
  samples = 3;
  max_error = finite 0;
  max_spread = finite 2;
  reason = "stable_target_window";
}

gate_reached : (reached_result middle "open_door" 10 gate).0 ≡ ok (some result)
unfolding reached_result window_result
gate_reached = refl

stage_calls-InStage : All InStage stage_calls
stage_calls-InStage = (tt, (tt, (tt, (tt, (tt, (tt, tt))))))

stage_reached :
    (reached_result middle "open_door" 10
      (call_all middle stage_calls (begin "open_door" (create (("open_door", profile) ∷ []))).1)).0
    ≡ ok (some result)
unfolding call_all call create begin update reached_result window_result
stage_reached = refl

reached_result-IsReached_example :
    IsReached middle "open_door" 10 profile stage_calls
      (call_all middle stage_calls (begin "open_door" (create (("open_door", profile) ∷ []))).1)
      result
unfolding create
reached_result-IsReached_example =
    reached_result-IsReached middle "open_door" 10 profile stage_calls
      (create (("open_door", profile) ∷ [])) result refl stage_calls-InStage stage_reached

call_all-WindowsWithin_example :
    length (call_all middle there_and_back (create (("open_door", profile) ∷ []))).samples ≤ 3
call_all-WindowsWithin_example =
    call_all-WindowsWithin middle 3 (("open_door", profile) ∷ []) there_and_back (omega arith, tt)

reached_result_first_example :
    (reached_result middle "open_door" 10
      (call_all middle (updates "left" (posture (pos 0)) true ∷ []) (begin "open_door" gate).1)).0
    ≢ ok (some result)
unfolding begin
reached_result_first_example =
    reached_result_first middle "open_door" (updates "left" (posture (pos 0)) true ∷ []) 10 gate
      result (tt, tt) refl
