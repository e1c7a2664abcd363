-- ===== src/Edge/RosAction/Lock.antt =====
-- No command is sent before the preflight has passed, which takes the process lock.
use oven_multiskill_runtime.Common.{
  ℕ, String, true, false, ◌≡◌, ◌||◌, subst, inl, inr, Bool-cases, List, [], ℤ, Post, Preserves,
  guard-Preserves, arith,
}
use oven_multiskill_runtime.Edge.RosConfig.{RosBridgeConfig}
use oven_multiskill_runtime.Edge.RosObservation.{RosObservationSource}
use oven_multiskill_runtime.Edge.RosAction.{
  Event, World, RosActionExecutor, create, acquire_action_lock, external_publishers_present,
  preflight, enter_stage, begin_stage, close,
}
use oven_multiskill_runtime.Edge.RosAction.Publish.{publish, stop}
use oven_multiskill_runtime.Edge.RosAction.Publish.Sends.{sent}
use oven_multiskill_runtime.Edge.RosAction.Reset.{move_arm, reset}
use oven_multiskill_runtime.Edge.RosAction.Ready.{
  IsReady, enter_stage-IsReady, move_arm-IsReady, stop-IsReady, publish-IsReady,
}

-- Nothing was sent, unless the executor is ready.
pub record IsGuarded (e : RosActionExecutor) : Type 0 where
  pub ready : e.preflight_complete ≡ true → (e.holds_lock || e.closed) ≡ true
  pub silent : e.preflight_complete ≡ false → sent e.trace ≡ []

IsReady-IsGuarded : (e : RosActionExecutor) → IsReady e → IsGuarded e
IsReady-IsGuarded e h = record { ready = ground arith; silent = ground arith }

module _ (world : World) where
  preflight-IsReady :
      (e : RosActionExecutor) → IsGuarded e → Post (λ _ s. IsReady s) (preflight world e)
  unfolding preflight acquire_action_lock external_publishers_present
  preflight-IsReady e h = ground (arith, h.ready)

  preflight-IsGuarded : Preserves IsGuarded (preflight world)
  unfolding preflight acquire_action_lock external_publishers_present
  preflight-IsGuarded e h = record {
    ready = ground (arith, h.ready);
    silent = ground (arith, h.silent);
  }

  begin_stage-IsGuarded : (skill : String) → Preserves IsGuarded (begin_stage world skill)
  unfolding begin_stage
  begin_stage-IsGuarded skill e h =
      guard-Preserves IsGuarded IsReady (preflight world) (λ _. enter_stage world skill) e
        (preflight-IsGuarded e h) (preflight-IsReady e h) (λ _. enter_stage-IsReady world skill)
        IsReady-IsGuarded

  reset-IsGuarded :
      (smooth : ℕ → ℕ → List ℤ → List ℤ → List ℤ) (total_steps : ℕ → ℕ → ℕ)
      (attempts : List Event → ℕ) (skill : String)
      → Preserves IsGuarded (reset world smooth total_steps attempts skill)
  unfolding reset
  reset-IsGuarded smooth total_steps attempts skill e h =
      guard-Preserves IsGuarded IsReady (preflight world)
        (λ _. move_arm world smooth total_steps attempts skill) e (preflight-IsGuarded e h)
        (preflight-IsReady e h) (λ _. move_arm-IsReady world smooth total_steps attempts skill)
        IsReady-IsGuarded

  stop_idle :
      (e : RosActionExecutor)
      → e.preflight_complete ≡ false
      → IsGuarded e
      → IsGuarded (stop world e).1
  unfolding stop
  stop_idle e p h = record { ready = ground (arith, h.ready); silent = ground (arith, h.silent) }

  stop-IsGuarded : Preserves IsGuarded (stop world)
  stop-IsGuarded e h = elim (Bool-cases e.preflight_complete) [
    | inl p ↦ IsReady-IsGuarded (stop world e).1 (stop-IsReady world e (p, h.ready p))
    | inr p ↦ stop_idle e p h
  ]

  module _ (median : List ℤ → ℤ) (blend : ℕ → ℕ → List ℤ → List ℤ → List ℤ) where
    publish_idle :
        (actions : List (List ℤ)) (e : RosActionExecutor)
        → e.preflight_complete ≡ false
        → e ≡ (publish world median blend actions e).1
    unfolding publish
    publish_idle actions e h = ground arith

    publish-IsGuarded :
        (actions : List (List ℤ)) → Preserves IsGuarded (publish world median blend actions)
    publish-IsGuarded actions e h = elim (Bool-cases e.preflight_complete) [
      | inl p ↦
          IsReady-IsGuarded (publish world median blend actions e).1
            (publish-IsReady world median blend actions e (p, h.ready p))
      | inr p ↦ subst IsGuarded (publish_idle actions e p) h
    ]

close-IsGuarded : Preserves IsGuarded close
unfolding close
close-IsGuarded e h = record { ready = ground (arith, h.ready); silent = ground (arith, h.silent) }

-- What the executor depends on besides ROS: the arithmetic of floats and the deadline of a reset.
pub record Numerics : Type 0 where
  pub median : List ℤ → ℤ
  pub blend : ℕ → ℕ → List ℤ → List ℤ → List ℤ
  pub smooth : ℕ → ℕ → List ℤ → List ℤ → List ℤ
  pub total_steps : ℕ → ℕ → ℕ
  pub attempts : List Event → ℕ

-- A call of the executor and the state that it leaves, however it ends.
pub data ExecutorStep (world : World) (n : Numerics)
    : RosActionExecutor → RosActionExecutor → Type 0 where
  preflights : {e : RosActionExecutor} → ExecutorStep world n e (preflight world e).1
  resets :
      {e : RosActionExecutor} (skill : String)
      → ExecutorStep world n e (reset world n.smooth n.total_steps n.attempts skill e).1
  begins :
      {e : RosActionExecutor} (skill : String)
      → ExecutorStep world n e (begin_stage world skill e).1
  publishes_rows :
      {e : RosActionExecutor} (actions : List (List ℤ))
      → ExecutorStep world n e (publish world n.median n.blend actions e).1
  stops : {e : RosActionExecutor} → ExecutorStep world n e (stop world e).1
  closes : {e : RosActionExecutor} → ExecutorStep world n e (close e).1

-- The states that calls in any order lead to.
pub data Reachable (world : World) (n : Numerics) (config : RosBridgeConfig)
    (source : RosObservationSource) : RosActionExecutor → Type 0 where
  created : Reachable world n config source (create config source)
  further :
      {e e' : RosActionExecutor}
      → Reachable world n config source e
      → ExecutorStep world n e e'
      → Reachable world n config source e'

step-IsGuarded :
    (world : World) (n : Numerics) {e e' : RosActionExecutor}
    → ExecutorStep world n e e'
    → IsGuarded e
    → IsGuarded e'
step-IsGuarded world n (preflights {e}) h = preflight-IsGuarded world e h
step-IsGuarded world n (resets {e} skill) h =
    reset-IsGuarded world n.smooth n.total_steps n.attempts skill e h
step-IsGuarded world n (begins {e} skill) h = begin_stage-IsGuarded world skill e h
step-IsGuarded world n (publishes_rows {e} actions) h =
    publish-IsGuarded world n.median n.blend actions e h
step-IsGuarded world n (stops {e}) h = stop-IsGuarded world e h
step-IsGuarded world n (closes {e}) h = close-IsGuarded e h

create-IsGuarded :
    (config : RosBridgeConfig) (source : RosObservationSource) → IsGuarded (create config source)
unfolding create
create-IsGuarded config source = record { ready = ground arith; silent = ground arith }

-- In every state that calls of the executor lead to, in any order and however each ends: once the
-- preflight has passed, the executor holds the process lock or was closed; and until then no command
-- was sent to an arm.
pub Reachable-IsGuarded :
    (world : World) (n : Numerics) (config : RosBridgeConfig) (source : RosObservationSource)
    (e : RosActionExecutor)
    → Reachable world n config source e
    → IsGuarded e
Reachable-IsGuarded world n config source e created = create-IsGuarded config source
Reachable-IsGuarded world n config source e (further {e = s} r m) =
    step-IsGuarded world n m (Reachable-IsGuarded world n config source s r)
