-- ===== src/Edge/RosAction/Publish/Meets.antt =====
-- What `publish` reports is what the orchestrator's rollout accepts.
use oven_multiskill_runtime.Common.{
  ℕ, suc, ◌+◌, ◌≤◌, ◌<◌, String, true, false, ◌≡◌, subst, Option, none, some, List, [], ◌∷◌, length,
  ℤ, Result, ok, err, ◌>>=◌, Post, bind-Post, call-Post, arith,
}
use oven_multiskill_runtime.Edge.Contracts.{PublishResult, GateResult}
use oven_multiskill_runtime.Edge.Gate.{reached_result, window_result}
use oven_multiskill_runtime.Edge.Rollout.{has_passed}
use oven_multiskill_runtime.Edge.RosAction.{World, RosActionExecutor, Method, publish_controlled}
use oven_multiskill_runtime.Edge.RosAction.Publish.{
  rest_detected, transition, after_row, publish_row, publish_rows, publish_chunk, publish_with,
  publish, unless_reached,
}

-- A result for a chunk of that many rows, from a chunk of which `count` were published before.
pub record IsMet (count total : ℕ) (r : PublishResult) : Type 0 where
  pub progress : count ≤ r.published_rows
  pub bound : r.published_rows ≤ total
  pub stopped : r.stop_requested ≡ true → has_passed r ≡ true
  pub complete : r.stop_requested ≡ false → r.published_rows ≡ total

abbrev Meets : ℕ → ℕ → PublishResult → RosActionExecutor → Type 0
Meets count total r e = IsMet count total r

-- An evidence that was reported is passed.
abbrev Passes : Option GateResult → RosActionExecutor → Type 0
Passes (some g) e = g.passed ≡ true
Passes none e = Unit

rest_detected-IsMet :
    (count total : ℕ) (g : GateResult)
    → count < total
    → g.passed ≡ true
    → IsMet (suc count) total (rest_detected (suc count) g)
rest_detected-IsMet count total g h p = record {
  progress = omega arith;
  bound = omega arith;
  stopped = ground arith;
  complete = ground arith;
}

abbrev MetBy : ℕ → ℕ → Result PublishResult × RosActionExecutor → Type 0
MetBy count total p = Post (Meets count total) p

further :
    (count total : ℕ) (p : Result PublishResult × RosActionExecutor)
    → MetBy (suc count) total p
    → MetBy count total p
further count total (ok r, s) h = record {
  progress = omega (arith, h.progress);
  bound = h.bound;
  stopped = h.stopped;
  complete = h.complete;
}
further count total (err e, s) h = tt

unless_reached-Meets :
    (count total : ℕ) (next : Method PublishResult) (reached : Option GateResult)
    (s : RosActionExecutor)
    → count < total
    → Passes reached s
    → MetBy (suc count) total (next s)
    → MetBy (suc count) total (unless_reached (suc count) next reached s)
unless_reached-Meets count total next none s h p m = m
unless_reached-Meets count total next (some g) s h p m = rest_detected-IsMet count total g h p

module _ (world : World) (median : List ℤ → ℤ) (blend : ℕ → ℕ → List ℤ → List ℤ → List ℤ) where
  after_row-Passes :
      (skill : String) (row : List ℤ) (e : RosActionExecutor)
      → Post Passes (after_row world median blend skill row e)
  unfolding after_row reached_result window_result
  after_row-Passes skill row e = ground arith

  publish_row-Passes :
      (skill arm : String) (hold row : List ℤ) (e : RosActionExecutor)
      → Post Passes (publish_row world median blend skill arm hold row e)
  unfolding publish_row
  publish_row-Passes skill arm hold row e =
      ground (arith, after_row-Passes skill row (publish_controlled world arm row hold e).1)

  publish_rows-Meets :
      (skill arm : String) (hold : List ℤ) (count total : ℕ) (rows : List (List ℤ))
      (e : RosActionExecutor)
      → count + length rows ≡ total
      → MetBy count total (publish_rows world median blend skill arm hold count rows e)
  unfolding publish_rows
  publish_rows-Meets skill arm hold count total [] e h = record {
    progress = omega arith;
    bound = omega (arith, h);
    stopped = ground arith;
    complete = omega (arith, h);
  }
  publish_rows-Meets skill arm hold count total (row ∷ rest) e h =
      let next = publish_rows world median blend skill arm hold (suc count) rest in
      further count total (publish_rows world median blend skill arm hold count (row ∷ rest) e) (
        bind-Post Passes (Meets (suc count) total)
          (publish_row world median blend skill arm hold row) (unless_reached (suc count) next) e
          (publish_row-Passes skill arm hold row e)
          (λ reached s p.
            unless_reached-Meets count total next reached s (omega (arith, h)) p
              (publish_rows-Meets skill arm hold (suc count) total rest s (omega (arith, h)))))

  publish_chunk-Meets :
      (skill arm : String) (last hold first : List ℤ) (rest : List (List ℤ)) (e : RosActionExecutor)
      → MetBy 1
          (suc (length rest))
          (publish_chunk world median blend skill arm last hold (first, rest) e)
  unfolding publish_chunk
  publish_chunk-Meets skill arm last hold first rest e =
      let steps = e.config.chunk_transition_steps in
      let total = suc (length rest) in
      let next = publish_rows world median blend skill arm hold 1 rest in
      let move = transition world median blend steps 1 steps arm last first hold in
      call-Post (Meets 1 total) move
        (λ _. after_row world median blend skill first >>= unless_reached 1 next) e
        (λ _ s _.
          bind-Post Passes (Meets 1 total) (after_row world median blend skill first)
            (unless_reached 1 next) s (after_row-Passes skill first s)
            (λ reached s' p.
              unless_reached-Meets 0 total next reached s' (omega arith) p
                (publish_rows-Meets skill arm hold 1 total rest s' (omega arith))))

  publish-Meets :
      (actions : List (List ℤ)) (e : RosActionExecutor)
      → MetBy 1 (length actions) (publish world median blend actions e)
  unfolding publish publish_with
  publish-Meets [] e = grind arith
  publish-Meets (first ∷ rest) e = grind (arith, publish_chunk-Meets)

of_result :
    (total : ℕ) (p : Result PublishResult × RosActionExecutor) (r : PublishResult)
    → MetBy 1 total p
    → p.0 ≡ ok r
    → IsMet 1 total r
of_result total (ok s, e) r m h = subst (IsMet 1 total) (cc h) m
of_result total (err x, e) r m h = absurd (cc h)

-- A chunk that is published reports at least one row and no more than the chunk has; a stop comes
-- with joint-rest evidence that passed; without a stop all rows were published. So the rollout's
-- checks of the count and of the evidence accept the result.
pub publish-IsMet :
    (world : World) (median : List ℤ → ℤ) (blend : ℕ → ℕ → List ℤ → List ℤ → List ℤ)
    (actions : List (List ℤ)) (e : RosActionExecutor) (r : PublishResult)
    → (publish world median blend actions e).0 ≡ ok r
    → IsMet 1 (length actions) r
publish-IsMet world median blend actions e r h =
    of_result (length actions) (publish world median blend actions e) r
      (publish-Meets world median blend actions e) h
