-- ===== src/Edge/RosAction/Publish/Moves.antt =====
-- What `publish` commands the arms to do.
use oven_multiskill_runtime.Common.{
  ℕ, suc, ◌+◌, String, ◌≡◌, refl, sym, ap, ◌∙◌, subst, Option, none, some, List, [], ◌∷◌, ◌++◌,
  append_assoc, append-nil, length, ℤ, Result, ok, ◌>>=◌, lift, Post, bind-Post, call-Post,
  weaken-Post, arith,
}
use oven_multiskill_runtime.Edge.Contracts.{PublishResult, GateResult}
use oven_multiskill_runtime.Edge.RosConfig.{lookup}
use oven_multiskill_runtime.Edge.RosAction.{
  World, RosActionExecutor, Method, item_of, listen, snapshot_of,
}
use oven_multiskill_runtime.Edge.RosAction.Publish.{
  rest_detected, transition, after_row, publish_row, publish_rows, publish_chunk, publish_with,
  publish, active_stage, unless_reached,
}
use oven_multiskill_runtime.Edge.RosAction.Publish.Sends.{
  Sent, sent, pair, pairs, Steps, Sends, Sends-trans, Row, blends, after_row-Sends, publish_row-Row,
  transition-Sends,
}

active_stage_lem :
    (e : RosActionExecutor) (p : String × List ℤ)
    → active_stage e ≡ ok p
    → (e.active_skill ≡ some p.0) × (e.last_command ≡ some p.1)
active_stage_lem e p h = ground arith

item_of_lem : {A : Type 0} (o : Option A) (a : A) → item_of o ≡ ok a → o ≡ some a
item_of_lem none a h = absurd (cc h)
item_of_lem (some b) a h = cc h

module _ (world : World) (median : List ℤ → ℤ) (blend : ℕ → ℕ → List ℤ → List ℤ → List ℤ) where
  -- The rows that were taken: they are the first of the rows, as many as the result tells, they
  -- were sent, and each is near the one before.
  pub record Streams (arm : String) (hold last : List ℤ) (count : ℕ) (rows : List (List ℤ))
      (before : List Sent) (e : RosActionExecutor) (r : PublishResult) (s : RosActionExecutor)
      : Type 0 where
    pub taken : List (List ℤ)
    pub left : List (List ℤ)
    pub split : rows ≡ taken ++ left
    pub number : count + length taken ≡ r.published_rows
    pub sends : Sends (before ++ pairs arm hold taken) e s
    pub steps : Steps e.config.max_row_delta last taken

  none_taken :
      (arm : String) (hold last : List ℤ) (count : ℕ) (rows : List (List ℤ)) (e : RosActionExecutor)
      (r : PublishResult)
      → r.published_rows ≡ count
      → Streams arm hold last count rows [] e r e
  none_taken arm hold last count rows e r h = record {
    taken = [];
    left = rows;
    split = refl;
    number = omega (arith, h);
    sends = record { trace = sym (append-nil (sent e.trace)); config = refl };
    steps = tt;
  }

  one_more :
      (arm : String) (hold last row : List ℤ) (count : ℕ) (rest : List (List ℤ))
      (e s t : RosActionExecutor) (r : PublishResult)
      → Row arm hold last row e s
      → Streams arm hold row (suc count) rest [] s r t
      → Streams arm hold last count (row ∷ rest) [] e r t
  one_more arm hold last row count rest e s t r h m = record {
    taken = row ∷ m.taken;
    left = m.left;
    split = ap (λ l. row ∷ l) m.split;
    number = omega (arith, m.number);
    sends = Sends-trans (pair arm hold row) (pairs arm hold m.taken) e s t h.0 m.sends;
    steps = (h.2, subst (λ c. Steps c.max_row_delta row m.taken) h.0.config m.steps);
  }

  unless_reached-Streams :
      (arm : String) (hold last : List ℤ) (count : ℕ) (rows : List (List ℤ))
      (next : Method PublishResult) (reached : Option GateResult) (s : RosActionExecutor)
      → Post (Streams arm hold last count rows [] s) (next s)
      → Post (Streams arm hold last count rows [] s) (unless_reached count next reached s)
  unless_reached-Streams arm hold last count rows next none s m = m
  unless_reached-Streams arm hold last count rows next (some g) s m =
      none_taken arm hold last count rows s (rest_detected count g) refl

  publish_rows-Streams :
      (skill arm : String) (hold last : List ℤ) (count : ℕ) (rows : List (List ℤ))
      (e : RosActionExecutor)
      → e.last_command ≡ some last
      → Post
          (Streams arm hold last count rows [] e)
          (publish_rows world median blend skill arm hold count rows e)
  unfolding publish_rows
  publish_rows-Streams skill arm hold last count [] e h = none_taken arm hold last count [] e _ refl
  publish_rows-Streams skill arm hold last count (row ∷ rest) e h =
      let next = publish_rows world median blend skill arm hold (suc count) rest in
      bind-Post (λ _ s. Row arm hold last row e s) (Streams arm hold last count (row ∷ rest) [] e)
        (publish_row world median blend skill arm hold row) (unless_reached (suc count) next) e
        (publish_row-Row world median blend skill arm hold last row e h)
        (λ reached s p.
          weaken-Post (Streams arm hold row (suc count) rest [] s)
            (Streams arm hold last count (row ∷ rest) [] e)
            (unless_reached (suc count) next reached s)
            (unless_reached-Streams arm hold row (suc count) rest next reached s
              (publish_rows-Streams skill arm hold row (suc count) rest s p.1))
            (λ r t m. one_more arm hold last row count rest e s t r p m))

  after_sending :
      (arm : String) (hold last : List ℤ) (count : ℕ) (rows : List (List ℤ))
      (before more whole : List Sent) (e s t : RosActionExecutor) (r : PublishResult)
      → before ++ more ≡ whole
      → Sends before e s
      → Streams arm hold last count rows more s r t
      → Streams arm hold last count rows whole e r t
  after_sending arm hold last count rows before more whole e s t r eq h m = record {
    taken = m.taken;
    left = m.left;
    split = m.split;
    number = m.number;
    sends =
        subst (λ l. Sends l e t)
          (sym (append_assoc before more _) ∙ ap (λ l. l ++ pairs arm hold m.taken) eq)
          (Sends-trans before (more ++ pairs arm hold m.taken) e s t h m.sends);
    steps = subst (λ c. Steps c.max_row_delta last m.taken) h.config m.steps;
  }

  -- The commands of the transition.
  abbrev pub transitions : RosActionExecutor → String → List ℤ → List ℤ → List ℤ → List Sent
  transitions e arm last first hold = pairs arm hold (
      blends world median blend e.config.chunk_transition_steps 1 e.config.chunk_transition_steps
        last first)

  publish_chunk-Streams :
      (skill arm : String) (last hold first : List ℤ) (rest : List (List ℤ)) (e : RosActionExecutor)
      → Post
          (Streams arm hold first 1 rest (transitions e arm last first hold) e)
          (publish_chunk world median blend skill arm last hold (first, rest) e)
  unfolding publish_chunk
  publish_chunk-Streams skill arm last hold first rest e =
      let n = e.config.chunk_transition_steps in
      let before = transitions e arm last first hold in
      let next = publish_rows world median blend skill arm hold 1 rest in
      bind-Post (λ _ s. Sends before e s) (Streams arm hold first 1 rest before e)
        (transition world median blend n 1 n arm last first hold)
        (λ _. after_row world median blend skill first >>= unless_reached 1 next) e
        (transition-Sends world median blend n 1 n arm last first hold e)
        (λ _ s p.
          bind-Post (λ _ t. Sends [] s t × (t.last_command ≡ some first))
            (Streams arm hold first 1 rest before e) (after_row world median blend skill first)
            (unless_reached 1 next) s (after_row-Sends world median blend skill first s)
            (λ reached t q.
              weaken-Post (Streams arm hold first 1 rest [] t)
                (Streams arm hold first 1 rest before e) (unless_reached 1 next reached t)
                (unless_reached-Streams arm hold first 1 rest next reached t
                  (publish_rows-Streams skill arm hold first 1 rest t q.1))
                (λ r u m.
                  after_sending arm hold first 1 rest before [] before e t u r (append-nil before)
                    (subst (λ l. Sends l e t) (append-nil before)
                      (Sends-trans before [] e s t p q.0))
                    m)))

  -- What a chunk that was published has commanded.
  pub record Moves (actions : List (List ℤ)) (e : RosActionExecutor) (r : PublishResult)
      (s : RosActionExecutor) : Type 0 where
    pub skill : String
    pub arm : String
    pub last : List ℤ
    pub hold : List ℤ
    pub first : List ℤ
    pub rest : List (List ℤ)
    pub chunk : actions ≡ first ∷ rest
    pub stage : e.active_skill ≡ some skill
    pub position : e.last_command ≡ some last
    pub controlled : lookup skill e.config.skill_arms ≡ some arm
    pub held : (own : List ℤ) × ((snapshot_of world arm e).0 ≡ ok (own, hold))
    pub streams : Streams arm hold first 1 rest (transitions e arm last first hold) e r s

  snapshot_of-Sends :
      (arm : String) (e : RosActionExecutor) → Post (λ _ s. Sends [] e s) (snapshot_of world arm e)
  unfolding snapshot_of listen
  snapshot_of-Sends arm e = ground (arith, append-nil (sent e.trace))

  -- What `publish_with` has commanded, from the position of the other arm at its snapshot.
  abbrev Held :
      String
      → List ℤ
      → List ℤ
      → List (List ℤ)
      → RosActionExecutor
      → PublishResult
      → RosActionExecutor
      → Type 0
  Held arm last first rest e r s =
      (hold : List ℤ) × ((own : List ℤ) × ((snapshot_of world arm e).0 ≡ ok (own, hold)))
      × Streams arm hold first 1 rest (transitions e arm last first hold) e r s

  publish_with-Held :
      (skill arm : String) (last first : List ℤ) (rest : List (List ℤ)) (e : RosActionExecutor)
      → Post
          (Held arm last first rest e)
          (publish_with world median blend skill arm last (first ∷ rest) e)
  unfolding publish_with
  publish_with-Held skill arm last first rest e =
      call-Post (Held arm last first rest e) (snapshot_of world arm)
        (λ p. publish_chunk world median blend skill arm last p.1 (first, rest)) e
        (λ p s h.
          let hold = p.1 in
          let quiet : Sends [] e s =
            subst (λ q. Post (λ _ s. Sends [] e s) q) h (snapshot_of-Sends arm e) in
          weaken-Post (Streams arm hold first 1 rest (transitions s arm last first hold) s)
            (Held arm last first rest e)
            (publish_chunk world median blend skill arm last hold (first, rest) s)
            (publish_chunk-Streams skill arm last hold first rest s)
            (λ r t m. (
              hold,
              (p.0, ap (λ q. q.0) h),
              after_sending arm hold first 1 rest [] (transitions s arm last first hold)
                  (transitions e arm last first hold) e s t r
                  (ap
                    (λ c. pairs arm hold (
                      blends world median blend c.chunk_transition_steps 1 c.chunk_transition_steps
                        last first))
                    quiet.config)
                  quiet m,
            )))

  publish_lem :
      (first : List ℤ) (rest : List (List ℤ)) (e : RosActionExecutor)
      → Post (Moves (first ∷ rest) e) (publish world median blend (first ∷ rest) e)
  unfolding publish
  publish_lem first rest e =
      let goal = Moves (first ∷ rest) e in
      call-Post goal (lift (active_stage e))
        (λ p. lift (item_of (lookup p.0 e.config.skill_arms)) >>= λ arm.
          publish_with world median blend p.0 arm p.1 (first ∷ rest))
        e
        (λ p s h.
          call-Post goal (lift (item_of (lookup p.0 e.config.skill_arms)))
            (λ arm. publish_with world median blend p.0 arm p.1 (first ∷ rest)) s
            (λ arm t k.
              subst (λ u. Post goal (publish_with world median blend p.0 arm p.1 (first ∷ rest) u))
                (ap (λ q. q.1) h ∙ ap (λ q. q.1) k)
                (weaken-Post (Held arm p.1 first rest e) goal
                  (publish_with world median blend p.0 arm p.1 (first ∷ rest) e)
                  (publish_with-Held p.0 arm p.1 first rest e)
                  (λ r u m. record {
                    skill = p.0;
                    arm = arm;
                    last = p.1;
                    hold = m.0;
                    first = first;
                    rest = rest;
                    chunk = refl;
                    stage = (active_stage_lem e p (ap (λ q. q.0) h)).0;
                    position = (active_stage_lem e p (ap (λ q. q.0) h)).1;
                    controlled = item_of_lem (lookup p.0 e.config.skill_arms) arm (ap (λ q. q.0) k);
                    held = m.1;
                    streams = m.2;
                  }))))

moved :
    (world : World) (median : List ℤ → ℤ) (blend : ℕ → ℕ → List ℤ → List ℤ → List ℤ)
    (actions : List (List ℤ)) (e s : RosActionExecutor) (r : PublishResult)
    (p : Result PublishResult × RosActionExecutor)
    → Post (Moves world median blend actions e) p
    → p ≡ (ok r, s)
    → Moves world median blend actions e r s
moved world median blend actions e s r p m h = subst (Post (Moves world median blend actions e)) h m

-- A chunk that is published commands the transition to its first row, and then as many of its
-- other rows as the result tells, in order and nothing else; each command goes to the arm of the
-- active skill, with the other arm held where it was at the start of the chunk, and each row is
-- within the deltas of the row before it.
pub publish-Moves :
    (world : World) (median : List ℤ → ℤ) (blend : ℕ → ℕ → List ℤ → List ℤ → List ℤ)
    (first : List ℤ) (rest : List (List ℤ)) (e s : RosActionExecutor) (r : PublishResult)
    → publish world median blend (first ∷ rest) e ≡ (ok r, s)
    → Moves world median blend (first ∷ rest) e r s
publish-Moves world median blend first rest e s r h =
    moved world median blend (first ∷ rest) e s r (publish world median blend (first ∷ rest) e)
      (publish_lem world median blend first rest e) h
