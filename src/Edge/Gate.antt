-- ===== src/Edge/Gate.antt =====
-- src/oven_runtime/edge/joint_gate.py: the online joint gate. Positions are whole numbers of a
-- fixed small unit. `np.median` of a column is a parameter, since NumPy is not code of the
-- repository. Each method is one step: a call of `update` from another thread that falls between
-- the locked regions of `reached_result` is not represented.
pub mod Safety
pub mod AtRest
pub mod Positions
pub mod History
pub mod Profile
pub mod Windowed
mod Tests
use oven_multiskill_runtime.Common.{
  ℕ, ◌+◌, ◌-◌, suc, max, min, String, Bool, true, false, Option, none, some, List, [], ◌∷◌, ◌++◌,
  map, any, length, drop, get_elem?, ltb, leb, ◌==◌, not, ◌&&◌, ◌||◌, ℤ, pos, negsuc, str_eq,
  holds_text, Result, ok, err, other, Action, lift, gets, modify, if◌then◌else◌, ◌>>=◌, ◌>>◌,
}
use oven_multiskill_runtime.Edge.Contracts.{GateResult, finite, infinite}
use oven_multiskill_runtime.Edge.Validation.{abs}

pub record JointGateProfile : Type 0 where
  pub arm : String
  pub targets : List (List ℤ)
  pub check_indices : List ℕ
  pub tolerance : List ℕ
  pub departure_threshold : ℕ
  pub min_publish_step : ℕ
  pub window_samples : ℕ
  pub max_spread : ℕ
  pub arming_indices : List ℕ
  pub arming_min_abs_position : List ℕ

-- `samples` is the deque, the oldest sample first, of at most `maximum_window` samples.
pub record OnlineJointGate : Type 0 where
  pub profiles : List (String × JointGateProfile)
  pub maximum_window : ℕ
  pub samples : List (List ℤ)
  pub skill : Option String
  pub departed : Bool
  pub armed : Bool

abbrev pub Method : Type 0 → Type 0
Method A = Action OnlineJointGate A

abbrev pub largest : List ℕ → ℕ
largest [] = 0
largest (x ∷ xs) = max x (largest xs)

abbrev pub smallest : List ℕ → ℕ
smallest [] = 0
smallest (x ∷ []) = x
smallest (x ∷ y ∷ xs) = min x (smallest (y ∷ xs))

-- `abs(a - b)`
abbrev pub distance : ℤ → ℤ → ℕ
distance (pos a) (pos b) = (a - b) + (b - a)
distance (pos a) (negsuc b) = a + suc b
distance (negsuc a) (pos b) = suc a + b
distance (negsuc a) (negsuc b) = (a - b) + (b - a)

abbrev pub at : List ℤ → ℕ → ℤ
at xs i = elim (get_elem? xs i) [ none ↦ pos 0 | some x ↦ x ]

abbrev pub profile_of : String → List (String × JointGateProfile) → Result JointGateProfile
profile_of k [] = err other
profile_of k ((j, p) ∷ r) = if str_eq k j then ok p else profile_of k r

-- The tests of two rows, element by element.
abbrev pub all_le : List ℕ → List ℕ → Bool
all_le (x ∷ xs) (y ∷ ys) = leb x y && all_le xs ys
all_le _ _ = true

abbrev pub all_lt : List ℕ → List ℕ → Bool
all_lt (x ∷ xs) (y ∷ ys) = ltb x y && all_lt xs ys
all_lt _ _ = true

-- The largest window of the profiles, for the deque.
abbrev pub largest_window : List (String × JointGateProfile) → ℕ
largest_window [] = 0
largest_window ((j, p) ∷ r) = max p.window_samples (largest_window r)

-- `__init__`, for profiles that were validated.
unfoldable pub create : List (String × JointGateProfile) → OnlineJointGate
create profiles = record {
  profiles = profiles;
  maximum_window = largest_window profiles;
  samples = [];
  skill = none;
  departed = false;
  armed = false;
}

unfoldable pub begin : String → Method (Unit {0})
begin skill = do
  g ← gets (λ g. g)
  lift (profile_of skill g.profiles)
  modify (λ g. record g { skill = some skill; departed = false; armed = false; samples = [] })

-- `deque.append` with `maxlen`
abbrev pub push : ℕ → List ℤ → List (List ℤ) → List (List ℤ)
push limit sample samples = drop (length (samples ++ sample ∷ []) - limit) (samples ++ sample ∷ [])

abbrev pub arms : JointGateProfile → List ℤ → Bool
arms p sample =
    all_le p.arming_min_abs_position (map (λ (i : ℕ). abs (at sample i)) p.arming_indices)

-- A sample of the arm that the profile watches.
abbrev pub take_sample : JointGateProfile → List ℤ → OnlineJointGate → OnlineJointGate
take_sample p sample g = record g {
  samples = push g.maximum_window sample g.samples;
  armed = g.armed || arms p sample;
}

abbrev update_for : String → List ℤ → Option String → OnlineJointGate → OnlineJointGate
update_for arm sample none g = g
update_for arm sample (some k) g = elim (profile_of k g.profiles) [
  | err e ↦ g
  | ok p ↦ if str_eq p.arm arm then take_sample p sample g else g
]

-- `update`: `is_finite` says whether all elements of the position are finite.
unfoldable pub update : String → List ℤ → Bool → OnlineJointGate → OnlineJointGate
update arm position is_finite g =
    if not (length position == 7) || not is_finite then g else update_for arm position g.skill g

-- `_snapshot`: the last samples of the profile's window.
abbrev pub snapshot : String → JointGateProfile → OnlineJointGate → List (List ℤ)
snapshot skill p g =
    if holds_text g.skill skill then drop (length g.samples - p.window_samples) g.samples else []

abbrev pub last_of : List (List ℤ) → List ℤ
last_of [] = []
last_of (x ∷ []) = x
last_of (x ∷ y ∷ xs) = last_of (y ∷ xs)

-- The errors of a position against one target, at the checked joints.
abbrev pub errors : JointGateProfile → List ℤ → List ℤ → List ℕ
errors p position target = map (λ (i : ℕ). distance (at position i) (at target i)) p.check_indices

-- `np.maximum(tolerance, profile.departure_threshold)`
abbrev departure_tolerance : JointGateProfile → List ℕ
departure_tolerance p = map (λ (t : ℕ). max t p.departure_threshold) p.tolerance

-- `target_is_near` of one target
abbrev pub is_near_target : JointGateProfile → List ℤ → List ℤ → Bool
is_near_target p latest t = all_lt (errors p latest t) (departure_tolerance p)

-- `np.any(target_is_near)`
abbrev pub is_near : JointGateProfile → List ℤ → Bool
is_near p latest = any (is_near_target p latest) p.targets

abbrev pub is_empty_list {ℓ} : {A : Type ℓ} → List A → Bool
is_empty_list [] = true
is_empty_list (x ∷ xs) = false

module _ (median : List ℤ → ℤ) where
  -- The column of a joint.
  abbrev pub column : List (List ℤ) → ℕ → List ℤ
  column samples i = map (λ s. at s i) samples

  -- The errors of the medians against a target.
  abbrev pub median_errors : JointGateProfile → List (List ℤ) → List ℤ → List ℕ
  median_errors p samples target =
      map (λ (i : ℕ). distance (median (column samples i)) (at target i)) p.check_indices

  -- `np.ptp` of a column, the largest distance between two of its elements.
  abbrev column_spread : List ℤ → ℕ
  column_spread xs = largest (map (λ x. largest (map (distance x) xs)) xs)

  abbrev pub maximum_spread : JointGateProfile → List (List ℤ) → ℕ
  maximum_spread p samples =
      largest (map (λ (i : ℕ). column_spread (column samples i)) p.check_indices)

  -- The first target whose errors are all within the tolerance.
  abbrev pub first_match : JointGateProfile → List (List ℤ) → List (List ℤ) → Option (List ℤ)
  first_match p samples [] = none
  first_match p samples (t ∷ ts) =
      if all_le (median_errors p samples t) p.tolerance then some t else first_match p samples ts

  abbrev stable : JointGateProfile → List (List ℤ) → List ℤ → GateResult
  stable p samples t = record {
    passed = true;
    samples = length samples;
    max_error = finite (largest (median_errors p samples t));
    max_spread = finite (maximum_spread p samples);
    reason = "stable_target_window";
  }

  abbrev unstable : JointGateProfile → List (List ℤ) → GateResult
  unstable p samples = record {
    passed = false;
    samples = length samples;
    max_error = finite (smallest (map (λ t. largest (median_errors p samples t)) p.targets));
    max_spread = finite (maximum_spread p samples);
    reason = "joint_window_not_stable";
  }

  -- `_window_result`
  unfoldable pub window_result : JointGateProfile → List (List ℤ) → GateResult
  window_result p samples = elim (first_match p samples p.targets) [
    | none ↦ unstable p samples
    | some t ↦
        if leb (maximum_spread p samples) p.max_spread
        then stable p samples t
        else unstable p samples
  ]

  abbrev when_passed : GateResult → Option GateResult
  when_passed r = if r.passed then some r else none

  abbrev pub depart : List ℤ → OnlineJointGate → OnlineJointGate
  depart latest g = record g { departed = true; samples = latest ∷ [] }

  abbrev reached_with :
      JointGateProfile → ℕ → List (List ℤ) → OnlineJointGate → Option GateResult × OnlineJointGate
  reached_with p publish_step samples g =
      if is_empty_list samples || not g.armed
      then (none, g)
      else if not g.departed
      then (none, if is_near p (last_of samples) then g else depart (last_of samples) g)
      else if ltb publish_step p.min_publish_step || ltb (length samples) p.window_samples
      then (none, g)
      else (when_passed (window_result p samples), g)

  -- `reached_result`
  unfoldable pub reached_result : String → ℕ → Method (Option GateResult)
  unfolding window_result
  reached_result skill publish_step g = elim (profile_of skill g.profiles) [
    | err e ↦ (err e, g)
    | ok p ↦ let (r, g') = reached_with p publish_step (snapshot skill p g) g in (ok r, g')
  ]

  abbrev rejected : ℕ → String → GateResult
  rejected n reason = record {
    passed = false;
    samples = n;
    max_error = infinite;
    max_spread = infinite;
    reason = reason;
  }

  abbrev evaluate_with : String → JointGateProfile → List (List ℤ) → OnlineJointGate → GateResult
  evaluate_with skill p samples g =
      if not (holds_text g.skill skill && g.armed)
      then rejected (length samples) "arming_not_observed"
      else if not (holds_text g.skill skill && g.departed)
      then rejected (length samples) "departure_not_observed"
      else if ltb (length samples) p.window_samples
      then rejected (length samples) "insufficient_joint_samples"
      else window_result p samples

  unfoldable pub evaluate : String → OnlineJointGate → Result GateResult
  unfolding window_result
  evaluate skill g = elim (profile_of skill g.profiles) [
    | err e ↦ err e
    | ok p ↦ ok (evaluate_with skill p (snapshot skill p g) g)
  ]
