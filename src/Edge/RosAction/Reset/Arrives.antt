-- ===== src/Edge/RosAction/Reset/Arrives.antt =====
-- A reset that returns has brought the arm to its target.
use oven_multiskill_runtime.Common.{
  ℕ, zero, suc, ◌≤◌, String, ◌≡◌, refl, subst, Option, none, some, List, [], ◌∷◌, ℤ, Result, ok,
  err, if◌then◌else◌, leb, pure, ◌>>=◌, ◌>>◌, lift, inl, inr, Bool-cases, Post, Preserves,
  call-Post, bind-Preserves, arith,
}
use oven_multiskill_runtime.Edge.Gate.{distance}
use oven_multiskill_runtime.Edge.RosConfig.{RosBridgeConfig, lookup}
use oven_multiskill_runtime.Edge.RosObservation.Sample.{arm_snapshot}
use oven_multiskill_runtime.Edge.RosAction.{
  Event, World, RosActionExecutor, self, item_of, listen, snapshot_of, preflight, publish_one,
  publish_pair, publish_controlled, acquire_action_lock, external_publishers_present,
}
use oven_multiskill_runtime.Edge.RosAction.Reset.{
  largest_error, motion, verify, approach, move_arm, reset,
}

-- Each joint is that near its target.
abbrev pub IsNear : ℕ → List ℤ → List ℤ → Type 0
IsNear tolerance (x ∷ xs) (y ∷ ys) = (distance x y ≤ tolerance) × IsNear tolerance xs ys
IsNear tolerance _ _ = Unit

largest_error-IsNear :
    (tolerance : ℕ) (xs ys : List ℤ) → largest_error xs ys ≤ tolerance → IsNear tolerance xs ys
largest_error-IsNear tolerance [] ys h = tt
largest_error-IsNear tolerance (x ∷ xs) [] h = tt
largest_error-IsNear tolerance (x ∷ xs) (y ∷ ys) h =
    (omega (arith, h), largest_error-IsNear tolerance xs ys (omega (arith, h)))

abbrev pub SnapshotNear : ℕ → List ℤ → Result (List ℤ × List ℤ) → Type 0
SnapshotNear tolerance target (ok (measured, hold)) = IsNear tolerance measured target
SnapshotNear tolerance target (err e) = ⊥

-- The arm is measured at the target, as the executor's source has it.
abbrev pub AtTarget : ℕ → Option String → Option (List ℤ) → RosActionExecutor → Type 0
AtTarget tolerance (some arm) (some target) s =
    SnapshotNear tolerance target (arm_snapshot arm s.observation)
AtTarget tolerance _ _ s = ⊥

-- At the arm and the target that the configuration has for the skill.
abbrev pub Arrived : RosBridgeConfig → String → RosActionExecutor → Type 0
Arrived c skill s =
    AtTarget c.reset_tolerance (lookup skill c.skill_arms) (lookup skill c.reset_targets) s

abbrev IsFor : RosBridgeConfig → RosActionExecutor → Type 0
IsFor c s = s.config ≡ c

module _ (world : World) where
  snapshot_of-AtTarget :
      (arm : String) (target : List ℤ) (tolerance : ℕ) (e s : RosActionExecutor)
      (p : List ℤ × List ℤ)
      → snapshot_of world arm e ≡ (ok p, s)
      → IsNear tolerance p.0 target
      → AtTarget tolerance (some arm) (some target) s
  unfolding snapshot_of listen
  snapshot_of-AtTarget arm target tolerance e s p h n = ground arith

  preflight-IsFor : (c : RosBridgeConfig) → Preserves (IsFor c) (preflight world)
  unfolding preflight acquire_action_lock external_publishers_present
  preflight-IsFor c e h = ground arith

  snapshot_of-IsFor :
      (c : RosBridgeConfig) (arm : String) → Preserves (IsFor c) (snapshot_of world arm)
  unfolding snapshot_of listen
  snapshot_of-IsFor c arm e h = ground arith

  publish_controlled-IsFor :
      (c : RosBridgeConfig) (arm : String) (x hold : List ℤ)
      → Preserves (IsFor c) (publish_controlled world arm x hold)
  unfolding publish_controlled publish_pair publish_one
  publish_controlled-IsFor c arm x hold e h = ground arith

  module _ (smooth : ℕ → ℕ → List ℤ → List ℤ → List ℤ) where
    motion-IsFor :
        (c : RosBridgeConfig) (left index steps : ℕ) (arm : String) (start target hold : List ℤ)
        → Preserves (IsFor c) (motion world smooth left index steps arm start target hold)
    unfolding motion
    motion-IsFor c zero index steps arm start target hold e h = h
    motion-IsFor c (suc left) index steps arm start target hold e h =
        bind-Preserves (IsFor c)
          (publish_controlled world arm (smooth index steps start target) hold)
          (λ _. motion world smooth left (suc index) steps arm start target hold)
          (publish_controlled-IsFor c arm (smooth index steps start target) hold)
          (λ _. motion-IsFor c left (suc index) steps arm start target hold) e h

    verify-AtTarget :
        (c : RosBridgeConfig) (left : ℕ) (arm : String) (target : List ℤ) (e : RosActionExecutor)
        → e.config ≡ c
        → Post
            (λ _ s. AtTarget c.reset_tolerance (some arm) (some target) s)
            (verify world smooth left arm target e)
    unfolding verify
    verify-AtTarget c zero arm target e h = tt
    verify-AtTarget c (suc left) arm target e h =
        call-Post (λ _ s. AtTarget c.reset_tolerance (some arm) (some target) s)
          (snapshot_of world arm)
          (λ p. self >>= λ s.
            if leb (largest_error p.0 target) s.config.reset_tolerance
            then pure tt
            else verify world smooth left arm target)
          e
          (λ p s k.
            let same : s.config ≡ c = subst (λ q. q.1.config ≡ c) k (snapshot_of-IsFor c arm e h) in
            elim (Bool-cases (leb (largest_error p.0 target) s.config.reset_tolerance)) [
              | inl t ↦ rw t (
                  snapshot_of-AtTarget arm target c.reset_tolerance e s p k
                    (largest_error-IsNear c.reset_tolerance p.0 target (ground (arith, t, same))))
              | inr t ↦ rw t (verify-AtTarget c left arm target s same)
            ])

    approach-AtTarget :
        (c : RosBridgeConfig) (total_steps : ℕ → ℕ → ℕ) (attempts : List Event → ℕ) (arm : String)
        (target : List ℤ) (e : RosActionExecutor)
        → e.config ≡ c
        → Post
            (λ _ s. AtTarget c.reset_tolerance (some arm) (some target) s)
            (approach world smooth total_steps attempts arm target e)
    unfolding approach
    approach-AtTarget c total_steps attempts arm target e h =
        call-Post (λ _ s. AtTarget c.reset_tolerance (some arm) (some target) s)
          (snapshot_of world arm)
          (λ p. self >>= λ s.
            let n = total_steps s.config.reset_duration s.config.publish_hz in
            motion world smooth n 1 n arm p.0 target p.1
            >> (self >>= λ t. verify world smooth (attempts t.trace) arm target))
          e
          (λ p s k.
            let n = total_steps s.config.reset_duration s.config.publish_hz in
            let move = motion world smooth n 1 n arm p.0 target p.1 in
            let same : s.config ≡ c = subst (λ q. q.1.config ≡ c) k (snapshot_of-IsFor c arm e h) in
            call-Post (λ _ s. AtTarget c.reset_tolerance (some arm) (some target) s) move
              (λ _. self >>= λ t. verify world smooth (attempts t.trace) arm target) s
              (λ _ t m.
                verify-AtTarget c (attempts t.trace) arm target t
                  (subst (λ q. q.1.config ≡ c) m (motion-IsFor c n 1 n arm p.0 target p.1 s same))))

    known-AtTarget :
        (total_steps : ℕ → ℕ → ℕ) (attempts : List Event → ℕ) (arm : Option String)
        (target : Option (List ℤ)) (e : RosActionExecutor)
        → Post
            (λ _ s. AtTarget e.config.reset_tolerance arm target s)
            ((lift (item_of target) >>= λ t.
                lift (item_of arm) >>= λ a. approach world smooth total_steps attempts a t)
              e)
    known-AtTarget total_steps attempts arm none e = tt
    known-AtTarget total_steps attempts none (some target) e = tt
    known-AtTarget total_steps attempts (some arm) (some target) e =
        approach-AtTarget e.config total_steps attempts arm target e refl

    reset_lem :
        (total_steps : ℕ → ℕ → ℕ) (attempts : List Event → ℕ) (skill : String)
        (e : RosActionExecutor)
        → Post (λ _ s. Arrived e.config skill s) (reset world smooth total_steps attempts skill e)
    unfolding reset move_arm
    reset_lem total_steps attempts skill e =
        call-Post (λ _ s. Arrived e.config skill s) (preflight world)
          (λ _. move_arm world smooth total_steps attempts skill) e
          (λ _ s k.
            subst
              (λ c.
                Post (λ _ t. Arrived c skill t)
                  (move_arm world smooth total_steps attempts skill s))
              (subst (λ q. q.1.config ≡ e.config) k (preflight-IsFor e.config e refl))
              (known-AtTarget total_steps attempts (lookup skill s.config.skill_arms)
                (lookup skill s.config.reset_targets) s))

-- A reset that returns leaves the arm of the skill measured at the skill's target: the executor's
-- source has, of each joint, a position within the configured tolerance of the target's.
pub reset-Arrived :
    (world : World) (smooth : ℕ → ℕ → List ℤ → List ℤ → List ℤ) (total_steps : ℕ → ℕ → ℕ)
    (attempts : List Event → ℕ) (skill : String) (e s : RosActionExecutor)
    → reset world smooth total_steps attempts skill e ≡ (ok tt, s)
    → Arrived e.config skill s
reset-Arrived world smooth total_steps attempts skill e s h =
    subst (Post (λ _ t. Arrived e.config skill t)) h
      (reset_lem world smooth total_steps attempts skill e)
