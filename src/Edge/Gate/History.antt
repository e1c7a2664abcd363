-- ===== src/Edge/Gate/History.antt =====
-- What the online joint gate has seen of a stage when it stops it.
use oven_multiskill_runtime.Common.{
  ℕ, Bool-cases, ◌≤◌, ◌⊎◌, inl, inr, String, Bool, true, false, ◌≡◌, some, List, [], ◌∷◌, ◌++◌, ◌-◌,
  length, ◌&&◌, ◌==◌, str_eq, holds_text, holds_text_lem, ℤ, ok, sym, subst, arith, refl,
}
use oven_multiskill_runtime.Common.{All, Any, Any-of, All-append, All-drop, All-self}
use oven_multiskill_runtime.Edge.Contracts.{GateResult}
use oven_multiskill_runtime.Edge.Gate.{
  JointGateProfile, OnlineJointGate, profile_of, begin, update, snapshot, take_sample,
  is_empty_list, depart, arms, is_near, last_of, window_result, reached_result,
}
use oven_multiskill_runtime.Edge.Gate.Safety.{GateCall, begins, updates, checks, call, call_all}
use oven_multiskill_runtime.Edge.Gate.AtRest.{IsNear, IsQuiet, window_result_passed}
use oven_multiskill_runtime.Edge.Gate.Positions.{
  InStage, observed, IsArming, IsDeparted, arms-IsArming, is_near-IsDeparted,
}

All-last_of :
    (P : List ℤ → Type 0) (xs : List (List ℤ))
    → is_empty_list xs ≡ false
    → All P xs
    → P (last_of xs)
All-last_of P [] h k = ground arith
All-last_of P (x ∷ []) h k = k.0
All-last_of P (x ∷ y ∷ xs) h k = All-last_of P (y ∷ xs) refl k.1

-- The gate watches the stage, and what it remembers is in the samples of the stage.
record Remembers (skill : String) (p : JointGateProfile) (seen : List (List ℤ))
    (g : OnlineJointGate) : Type 0 where
  watches : g.skill ≡ some skill
  knows : profile_of skill g.profiles ≡ ok p
  arming : (g.armed ≡ false) ⊎ Any (IsArming p) seen
  departure : (g.departed ≡ false) ⊎ Any (IsDeparted p) seen
  held : All (λ x. Any (λ y. y ≡ x) seen) g.samples

module _ (median : List ℤ → ℤ) (skill : String) (p : JointGateProfile) (seen : List (List ℤ)) where
  abbrev IsSeen : List ℤ → Type 0
  IsSeen x = Any (λ y. y ≡ x) seen

  take_sample-Remembers :
      (x : List ℤ) (g : OnlineJointGate)
      → IsSeen x
      → Remembers skill p seen g
      → Remembers skill p seen (take_sample p x g)
  take_sample-Remembers x g i r = record {
    watches = r.watches;
    knows = r.knows;
    arming = elim r.arming [
      | inr a ↦ inr a
      | inl e ↦ elim (Bool-cases (arms p x)) [
        | inl a ↦ inr (Any-of (IsArming p) x seen i (arms-IsArming p x a))
        | inr n ↦ inl (ground arith)
      ]
    ];
    departure = r.departure;
    held =
        All-drop IsSeen _ (g.samples ++ x ∷ [])
          (All-append IsSeen g.samples (x ∷ []) r.held (i, tt));
  }

  update_own :
      (arm : String) (x : List ℤ) (is_finite : Bool) (g : OnlineJointGate)
      → Remembers skill p seen g
      → (str_eq p.arm arm && length x == 7 && is_finite) ≡ true
      → update arm x is_finite g ≡ take_sample p x g
  unfolding update
  update_own arm x is_finite g r h = ground (arith, r.watches, r.knows)

  update_other :
      (arm : String) (x : List ℤ) (is_finite : Bool) (g : OnlineJointGate)
      → Remembers skill p seen g
      → (str_eq p.arm arm && length x == 7 && is_finite) ≡ false
      → update arm x is_finite g ≡ g
  unfolding update
  update_other arm x is_finite g r h = ground (arith, r.watches, r.knows)

  update-Remembers :
      (arm : String) (x : List ℤ) (is_finite : Bool) (g : OnlineJointGate)
      → All IsSeen (observed p (updates arm x is_finite ∷ []))
      → Remembers skill p seen g
      → Remembers skill p seen (update arm x is_finite g)
  unfolding observed
  update-Remembers arm x is_finite g i r =
      elim (Bool-cases (str_eq p.arm arm && length x == 7 && is_finite)) [
        | inl h ↦
            subst (Remembers skill p seen) (sym (update_own arm x is_finite g r h))
              (take_sample-Remembers x g (ground arith) r)
        | inr h ↦ subst (Remembers skill p seen) (sym (update_other arm x is_finite g r h)) r
      ]

  -- A check changes nothing, or it records that the last sample is away from the targets.
  check_cases :
      (step : ℕ) (g : OnlineJointGate)
      → profile_of skill g.profiles ≡ ok p
      → ((reached_result median skill step g).1 ≡ g)
        ⊎ (((reached_result median skill step g).1 ≡ depart median (last_of (snapshot skill p g)) g)
            × (is_empty_list (snapshot skill p g) ≡ false)
            × (is_near p (last_of (snapshot skill p g)) ≡ false))
  unfolding reached_result
  check_cases step g e = ground (arith, e)

  depart-Remembers :
      (x : List ℤ) (g : OnlineJointGate)
      → IsSeen x
      → is_near p x ≡ false
      → Remembers skill p seen g
      → Remembers skill p seen (depart median x g)
  depart-Remembers x g i h r = record {
    watches = r.watches;
    knows = r.knows;
    arming = r.arming;
    departure = inr (Any-of (IsDeparted p) x seen i (is_near-IsDeparted p x h));
    held = (i, tt);
  }

  snapshot_held : (g : OnlineJointGate) → Remembers skill p seen g → All IsSeen (snapshot skill p g)
  snapshot_held g r =
      let cut = All-drop IsSeen (length g.samples - p.window_samples) g.samples r.held in
      ground (arith, cut)

  snapshot-IsSeen :
      (g : OnlineJointGate)
      → Remembers skill p seen g
      → is_empty_list (snapshot skill p g) ≡ false
      → IsSeen (last_of (snapshot skill p g))
  snapshot-IsSeen g r h = All-last_of IsSeen (snapshot skill p g) h (snapshot_held g r)

  check-Remembers :
      (step : ℕ) (g : OnlineJointGate)
      → Remembers skill p seen g
      → Remembers skill p seen (reached_result median skill step g).1
  check-Remembers step g r = elim (check_cases step g r.knows) [
    | inl e ↦ subst (Remembers skill p seen) (sym e) r
    | inr (e, full, away) ↦
        subst (Remembers skill p seen) (sym e)
          (depart-Remembers (last_of (snapshot skill p g)) g (snapshot-IsSeen g r full) away r)
  ]

  -- A check of another skill changes nothing.
  check_other :
      (k : String) (step : ℕ) (g : OnlineJointGate)
      → holds_text g.skill k ≡ false
      → (reached_result median k step g).1 ≡ g
  unfolding reached_result
  check_other k step g h = ground arith

  check_any-Remembers :
      (k : String) (step : ℕ) (g : OnlineJointGate)
      → Remembers skill p seen g
      → Remembers skill p seen (reached_result median k step g).1
  check_any-Remembers k step g r = elim (Bool-cases (holds_text g.skill k)) [
    | inl e ↦
        subst (λ j. Remembers skill p seen (reached_result median j step g).1)
          (ground (arith, holds_text_lem g.skill k, r.watches)) (check-Remembers step g r)
    | inr e ↦ subst (Remembers skill p seen) (sym (check_other k step g e)) r
  ]

  call_all-Remembers :
      (cs : List GateCall) (g : OnlineJointGate)
      → All InStage cs
      → All IsSeen (observed p cs)
      → Remembers skill p seen g
      → Remembers skill p seen (call_all median cs g)
  unfolding call_all call observed
  call_all-Remembers [] g s i r = r
  call_all-Remembers (begins k ∷ cs) g s i r = absurd s.0
  call_all-Remembers (updates arm x is_finite ∷ cs) g s i r =
      call_all-Remembers cs (update arm x is_finite g) s.1 (ground arith)
        (update-Remembers arm x is_finite g (ground arith) r)
  call_all-Remembers (checks k step ∷ cs) g s i r =
      call_all-Remembers cs (reached_result median k step g).1 s.1 i
        (check_any-Remembers k step g r)

-- What the gate has seen of a stage, and what holds, when it stops it.
pub record IsReached (median : List ℤ → ℤ) (skill : String) (step : ℕ) (p : JointGateProfile)
    (cs : List GateCall) (g : OnlineJointGate) (r : GateResult) : Type 0 where
  pub was_armed : Any (IsArming p) (observed p cs)
  pub was_departed : Any (IsDeparted p) (observed p cs)
  pub is_late : p.min_publish_step ≤ step
  pub is_full : p.window_samples ≤ length (snapshot skill p g)
  pub was_observed : All (λ x. Any (λ y. y ≡ x) (observed p cs)) (snapshot skill p g)
  pub is_at_target : Any (IsNear median p (snapshot skill p g)) p.targets
  pub is_quiet : IsQuiet median p (snapshot skill p g)
  pub is_passed : r.passed ≡ true
  pub is_kept : (reached_result median skill step g).1 ≡ g

module _ (median : List ℤ → ℤ) (skill : String) (p : JointGateProfile) where
  begin-Remembers :
      (seen : List (List ℤ)) (g : OnlineJointGate)
      → profile_of skill g.profiles ≡ ok p
      → Remembers skill p seen (begin skill g).1
  unfolding begin
  begin-Remembers seen g h = record {
    watches = ground (arith, h);
    knows = ground (arith, h);
    arming = inl (ground (arith, h));
    departure = inl (ground (arith, h));
    held = ground (arith, h);
  }

  -- The tests that a result has passed.
  reached_tests :
      (step : ℕ) (g : OnlineJointGate) (r : GateResult)
      → profile_of skill g.profiles ≡ ok p
      → (reached_result median skill step g).0 ≡ ok (some r)
      → (g.armed ≡ true)
        × (g.departed ≡ true)
        × (p.min_publish_step ≤ step)
        × (p.window_samples ≤ length (snapshot skill p g))
        × ((window_result median p (snapshot skill p g)).passed ≡ true)
        × (r.passed ≡ true)
        × ((reached_result median skill step g).1 ≡ g)
  unfolding reached_result
  reached_tests step g r e h = ground arith

  Remembers-IsReached :
      (step : ℕ) (cs : List GateCall) (g : OnlineJointGate) (r : GateResult)
      → Remembers skill p (observed p cs) g
      → (reached_result median skill step g).0 ≡ ok (some r)
      → IsReached median skill step p cs g r
  Remembers-IsReached step cs g r m h =
      let t = reached_tests step g r m.knows h in
      let rest = window_result_passed median p (snapshot skill p g) t.4 in
      record {
        was_armed = ground (arith, t.0, m.arming);
        was_departed = ground (arith, t.1, m.departure);
        is_late = t.2;
        is_full = t.3;
        was_observed = snapshot_held median skill p (observed p cs) g m;
        is_at_target = rest.0;
        is_quiet = rest.1;
        is_passed = t.5;
        is_kept = t.6;
      }

-- When the gate begins a skill and is then, with updates and checks in any order, asked and answers
-- that the stage may stop, these hold: among the whole positions of the skill's arm reported since
-- the beginning, one reached every arming position and one was away from every target; the publish
-- step is at least the profile's least one; the window has at least as many samples as the profile
-- asks for, all of them reported since the beginning; the median of each checked joint is within its
-- tolerance of one and the same target; no two samples of the window differ by more than the
-- largest spread at a checked joint; and the result has passed and the check changes nothing.
pub reached_result-IsReached :
    (median : List ℤ → ℤ) (skill : String) (step : ℕ) (p : JointGateProfile) (cs : List GateCall)
    (g : OnlineJointGate) (r : GateResult)
    → profile_of skill g.profiles ≡ ok p
    → All InStage cs
    → (reached_result median skill step (call_all median cs (begin skill g).1)).0 ≡ ok (some r)
    → IsReached median skill step p cs (call_all median cs (begin skill g).1) r
reached_result-IsReached median skill step p cs g r e s h =
    Remembers-IsReached median skill p step cs (call_all median cs (begin skill g).1) r
      (call_all-Remembers median skill p (observed p cs) cs (begin skill g).1 s
        (All-self (observed p cs)) (begin-Remembers median skill p (observed p cs) g e))
      h
