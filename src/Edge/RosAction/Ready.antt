-- ===== src/Edge/RosAction/Ready.antt =====
-- What the methods of the executor keep once its preflight has passed.
use oven_multiskill_runtime.Common.{
  ℕ, zero, suc, String, true, ◌≡◌, ◌||◌, Option, none, some, List, [], ◌∷◌, ℤ, ◌>>=◌, Preserves,
  bind-Preserves, arith,
}
use oven_multiskill_runtime.Edge.Contracts.{PublishResult, GateResult}
use oven_multiskill_runtime.Edge.RosAction.{
  Event, World, RosActionExecutor, Method, listen, snapshot_of, publish_one, publish_pair,
  publish_controlled, enter_stage,
}
use oven_multiskill_runtime.Edge.RosAction.Publish.{
  transition, after_row, publish_row, publish_rows, publish_chunk, publish_with, publish,
  unless_reached, hold_pair, stop,
}
use oven_multiskill_runtime.Edge.RosAction.Reset.{motion, verify, approach, move_arm}

-- The preflight has passed, and the lock is held, or was given back by `close`.
abbrev pub IsReady : RosActionExecutor → Type 0
IsReady e = (e.preflight_complete ≡ true) × ((e.holds_lock || e.closed) ≡ true)

module _ (world : World) where
  listen-IsReady : Preserves IsReady (listen world)
  unfolding listen
  listen-IsReady e h = ground arith

  snapshot_of-IsReady : (arm : String) → Preserves IsReady (snapshot_of world arm)
  unfolding snapshot_of listen
  snapshot_of-IsReady arm e h = ground arith

  publish_pair-IsReady : (l r : List ℤ) → Preserves IsReady (publish_pair world l r)
  unfolding publish_pair publish_one
  publish_pair-IsReady l r e h = ground arith

  publish_controlled-IsReady :
      (arm : String) (c hold : List ℤ) → Preserves IsReady (publish_controlled world arm c hold)
  unfolding publish_controlled publish_pair publish_one
  publish_controlled-IsReady arm c hold e h = ground arith

  pub enter_stage-IsReady : (skill : String) → Preserves IsReady (enter_stage world skill)
  unfolding enter_stage listen snapshot_of
  enter_stage-IsReady skill e h = ground arith

  motion-IsReady :
      (smooth : ℕ → ℕ → List ℤ → List ℤ → List ℤ) (left index steps : ℕ) (arm : String)
      (start target hold : List ℤ)
      → Preserves IsReady (motion world smooth left index steps arm start target hold)
  unfolding motion
  motion-IsReady smooth zero index steps arm start target hold e h = h
  motion-IsReady smooth (suc left) index steps arm start target hold e h =
      bind-Preserves IsReady (publish_controlled world arm (smooth index steps start target) hold)
        (λ _. motion world smooth left (suc index) steps arm start target hold)
        (publish_controlled-IsReady arm (smooth index steps start target) hold)
        (λ _. motion-IsReady smooth left (suc index) steps arm start target hold) e h

  verify-IsReady :
      (smooth : ℕ → ℕ → List ℤ → List ℤ → List ℤ) (left : ℕ) (arm : String) (target : List ℤ)
      → Preserves IsReady (verify world smooth left arm target)
  unfolding verify
  verify-IsReady smooth zero arm target e h = h
  verify-IsReady smooth (suc left) arm target e h = ground (
    arith,
    snapshot_of-IsReady arm e h,
    verify-IsReady smooth left arm target (snapshot_of world arm e).1,
  )

  hold_pair-IsReady : (n : ℕ) (l r : List ℤ) → Preserves IsReady (hold_pair world n l r)
  unfolding hold_pair
  hold_pair-IsReady zero l r e h = h
  hold_pair-IsReady (suc n) l r e h =
      bind-Preserves IsReady (publish_pair world l r) (λ _. hold_pair world n l r)
        (publish_pair-IsReady l r) (λ _. hold_pair-IsReady n l r) e h

  pub move_arm-IsReady :
      (smooth : ℕ → ℕ → List ℤ → List ℤ → List ℤ) (total_steps : ℕ → ℕ → ℕ)
      (attempts : List Event → ℕ) (skill : String)
      → Preserves IsReady (move_arm world smooth total_steps attempts skill)
  unfolding move_arm approach
  move_arm-IsReady smooth total_steps attempts skill e h =
      grind (arith, snapshot_of-IsReady, motion-IsReady, verify-IsReady)

  pub stop-IsReady : Preserves IsReady (stop world)
  unfolding stop listen
  stop-IsReady e h = grind (arith, hold_pair-IsReady)

  module _ (median : List ℤ → ℤ) (blend : ℕ → ℕ → List ℤ → List ℤ → List ℤ) where
    after_row-IsReady :
        (skill : String) (row : List ℤ) → Preserves IsReady (after_row world median blend skill row)
    unfolding after_row listen
    after_row-IsReady skill row e h = ground arith

    transition-IsReady :
        (left index steps : ℕ) (arm : String) (last first hold : List ℤ)
        → Preserves IsReady (transition world median blend left index steps arm last first hold)
    unfolding transition
    transition-IsReady zero index steps arm last first hold e h = h
    transition-IsReady (suc left) index steps arm last first hold e h =
        bind-Preserves IsReady (publish_controlled world arm (blend index steps last first) hold)
          (λ _. transition world median blend left (suc index) steps arm last first hold)
          (publish_controlled-IsReady arm (blend index steps last first) hold)
          (λ _. transition-IsReady left (suc index) steps arm last first hold) e h

    publish_row-IsReady :
        (skill arm : String) (hold row : List ℤ)
        → Preserves IsReady (publish_row world median blend skill arm hold row)
    unfolding publish_row
    publish_row-IsReady skill arm hold row e h =
        let s = (publish_controlled world arm row hold e).1 in
        ground (arith, publish_controlled-IsReady arm row hold e h, after_row-IsReady skill row s)

    unless_reached-IsReady :
        (rows : ℕ) (next : Method PublishResult) (reached : Option GateResult)
        → Preserves IsReady next
        → Preserves IsReady (unless_reached rows next reached)
    unless_reached-IsReady rows next none k e h = k e h
    unless_reached-IsReady rows next (some g) k e h = h

    publish_rows-IsReady :
        (skill arm : String) (hold : List ℤ) (count : ℕ) (rows : List (List ℤ))
        → Preserves IsReady (publish_rows world median blend skill arm hold count rows)
    unfolding publish_rows
    publish_rows-IsReady skill arm hold count [] e h = h
    publish_rows-IsReady skill arm hold count (row ∷ rest) e h =
        let next = publish_rows world median blend skill arm hold (suc count) rest in
        bind-Preserves IsReady (publish_row world median blend skill arm hold row)
          (unless_reached (suc count) next) (publish_row-IsReady skill arm hold row)
          (λ reached.
            unless_reached-IsReady (suc count) next reached
              (publish_rows-IsReady skill arm hold (suc count) rest))
          e h

    publish_chunk-IsReady :
        (skill arm : String) (last hold first : List ℤ) (rest : List (List ℤ))
        → Preserves IsReady (publish_chunk world median blend skill arm last hold (first, rest))
    unfolding publish_chunk
    publish_chunk-IsReady skill arm last hold first rest e h =
        let n = e.config.chunk_transition_steps in
        let next = publish_rows world median blend skill arm hold 1 rest in
        let finish = after_row world median blend skill first >>= unless_reached 1 next in
        bind-Preserves IsReady (transition world median blend n 1 n arm last first hold)
          (λ _. finish) (transition-IsReady n 1 n arm last first hold)
          (λ _.
            bind-Preserves IsReady (after_row world median blend skill first)
              (unless_reached 1 next) (after_row-IsReady skill first)
              (λ reached.
                unless_reached-IsReady 1 next reached (publish_rows-IsReady skill arm hold 1 rest)))
          e h

    pub publish-IsReady :
        (actions : List (List ℤ)) → Preserves IsReady (publish world median blend actions)
    unfolding publish publish_with
    publish-IsReady [] e h = grind (arith, snapshot_of-IsReady)
    publish-IsReady (first ∷ rest) e h = grind (arith, snapshot_of-IsReady, publish_chunk-IsReady)
