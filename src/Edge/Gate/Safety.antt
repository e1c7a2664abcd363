-- ===== src/Edge/Gate/Safety.antt =====
-- Calls of the online joint gate, the size of its deque and its first check.
use oven_multiskill_runtime.Common.{
  ℕ, ◌≤◌, String, Bool, false, ◌≡◌, ◌≢◌, some, List, [], ◌∷◌, ◌++◌, length, length-append,
  length-drop, ◌-◌, drop, ℤ, ok, arith,
}
use oven_multiskill_runtime.Edge.Contracts.{GateResult}
use oven_multiskill_runtime.Edge.Gate.{
  push, is_empty_list, largest_window, JointGateProfile, OnlineJointGate, begin, update, create,
  reached_result,
}

-- A call of the gate.
pub data GateCall : Type 0 where
  begins : (skill : String) → GateCall
  updates : (arm : String) → List ℤ → Bool → GateCall
  checks : (skill : String) → (publish_step : ℕ) → GateCall

-- A call that cannot make the gate depart.
abbrev pub IsUpdate : GateCall → Type 0
IsUpdate (updates arm position is_finite) = Unit
IsUpdate _ = ⊥

abbrev pub AllUpdates : List GateCall → Type 0
AllUpdates [] = Unit
AllUpdates (c ∷ cs) = IsUpdate c × AllUpdates cs

-- No profile has a window of more samples.
abbrev pub WindowsWithin : ℕ → List (String × JointGateProfile) → Type 0
WindowsWithin n [] = Unit
WindowsWithin n ((k, p) ∷ r) = (p.window_samples ≤ n) × WindowsWithin n r

largest_window-WindowsWithin :
    (n : ℕ) (ps : List (String × JointGateProfile)) → WindowsWithin n ps → largest_window ps ≤ n
largest_window-WindowsWithin n [] h = omega arith
largest_window-WindowsWithin n ((k, p) ∷ r) h = ground (arith, largest_window-WindowsWithin n r h.1)

-- The deque has a limit of at most `n` samples and keeps to it.
abbrev KeepsWithin : ℕ → OnlineJointGate → Type 0
KeepsWithin n g = (g.maximum_window ≤ n) × (length g.samples ≤ g.maximum_window)

module _ (median : List ℤ → ℤ) where
  unfoldable pub call : GateCall → OnlineJointGate → OnlineJointGate
  call (begins k) g = (begin k g).1
  call (updates arm position is_finite) g = update arm position is_finite g
  call (checks k step) g = (reached_result median k step g).1

  unfoldable pub call_all : List GateCall → OnlineJointGate → OnlineJointGate
  call_all [] g = g
  call_all (c ∷ cs) g = call_all cs (call c g)

  push_lem :
      (limit : ℕ) (x : List ℤ) (xs : List (List ℤ))
      → length xs ≤ limit
      → length (push limit x xs) ≤ limit
  push_lem limit x xs h =
      omega (
        arith,
        length-append xs (x ∷ []),
        length-drop (length (xs ++ x ∷ []) - limit) (xs ++ x ∷ []),
      )

  some_sample : (n : ℕ) (xs : List (List ℤ)) → is_empty_list (drop n xs) ≡ false → 1 ≤ length xs
  some_sample n xs h = ground (arith, length-drop n xs)

  call-KeepsWithin :
      (n : ℕ) (c : GateCall) (g : OnlineJointGate) → KeepsWithin n g → KeepsWithin n (call c g)
  unfolding call begin update reached_result
  call-KeepsWithin n (begins k) g h = ground arith
  call-KeepsWithin n (updates arm position is_finite) g h =
      ground (arith, push_lem g.maximum_window position g.samples h.1)
  call-KeepsWithin n (checks k step) g h = grind (arith, some_sample)

  call_all-KeepsWithin :
      (n : ℕ) (cs : List GateCall) (g : OnlineJointGate)
      → KeepsWithin n g
      → KeepsWithin n (call_all cs g)
  unfolding call_all
  call_all-KeepsWithin n [] g h = h
  call_all-KeepsWithin n (c ∷ cs) g h =
      call_all-KeepsWithin n cs (call c g) (call-KeepsWithin n c g h)

  call_all_departed :
      (cs : List GateCall) (g : OnlineJointGate)
      → AllUpdates cs
      → g.departed ≡ false
      → (call_all cs g).departed ≡ false
  unfolding call_all call update
  call_all_departed [] g u h = h
  call_all_departed (c ∷ cs) g u h = call_all_departed cs (call c g) u.1 (ground arith)

  undeparted_lem :
      (skill : String) (step : ℕ) (g : OnlineJointGate) (r : GateResult)
      → g.departed ≡ false
      → (reached_result median skill step g).0 ≢ ok (some r)
  unfolding reached_result
  undeparted_lem skill step g r h e = ground arith

-- Whatever a new gate is asked, when no profile has a window of more than `n` samples, the gate
-- never holds more than `n` samples.
pub call_all-WindowsWithin :
    (median : List ℤ → ℤ) (n : ℕ) (profiles : List (String × JointGateProfile)) (cs : List GateCall)
    → WindowsWithin n profiles
    → length (call_all median cs (create profiles)).samples ≤ n
unfolding create
call_all-WindowsWithin median n profiles cs h =
    let kept =
      call_all-KeepsWithin median n cs (create profiles)
        (largest_window-WindowsWithin n profiles h, omega arith) in
    omega (arith, kept.0, kept.1)

-- The first check of a stage never stops it: after `begin`, whatever samples arrived, the gate has
-- not seen the arm leave the targets yet.
pub reached_result_first :
    (median : List ℤ → ℤ) (skill : String) (cs : List GateCall) (step : ℕ) (g : OnlineJointGate)
    (r : GateResult)
    → AllUpdates cs
    → (begin skill g).0 ≡ ok tt
    → (reached_result median skill step (call_all median cs (begin skill g).1)).0 ≢ ok (some r)
unfolding begin
reached_result_first median skill cs step g r u h =
    undeparted_lem median skill step (call_all median cs (begin skill g).1) r
      (call_all_departed median cs (begin skill g).1 u (ground arith))
