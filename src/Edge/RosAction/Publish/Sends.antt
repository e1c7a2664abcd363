-- ===== src/Edge/RosAction/Publish/Sends.antt =====
-- The commands that a method sends.
use oven_multiskill_runtime.Common.{
  ℕ, zero, suc, ◌≤◌, String, false, ◌≡◌, ap, ◌∙◌, some, List, [], ◌∷◌, ◌++◌, append_assoc,
  append-nil, ℤ, str_eq, if◌then◌else◌, Post, bind-Post, weaken-Post, arith,
}
use oven_multiskill_runtime.Edge.Gate.{distance}
use oven_multiskill_runtime.Edge.RosAction.{
  Topic, left_command, right_command, Event, World, RosActionExecutor, listen, publish_controlled,
}
use oven_multiskill_runtime.Edge.RosAction.Publish.{exceeds, transition, after_row, publish_row}

-- A command on a topic.
abbrev pub Sent : Type 0
Sent = Topic × List ℤ

-- The commands among the events, the first one first.
abbrev pub sent : List Event → List Sent
sent [] = []
sent (Event.publishes topic values ∷ rest) = sent rest ++ (topic, values) ∷ []
sent (_ ∷ rest) = sent rest

-- A command of the arm, with the position at which the other arm is held.
abbrev pub pair : String → List ℤ → List ℤ → List Sent
pair arm hold command =
    if str_eq arm "left"
    then (left_command, command) ∷ (right_command, hold) ∷ []
    else (left_command, hold) ∷ (right_command, command) ∷ []

abbrev pub pairs : String → List ℤ → List (List ℤ) → List Sent
pairs arm hold [] = []
pairs arm hold (c ∷ cs) = pair arm hold c ++ pairs arm hold cs

-- Each joint is within its delta.
abbrev pub Within : List ℕ → List ℤ → List ℤ → Type 0
Within (d ∷ ds) (x ∷ xs) (y ∷ ys) = (distance x y ≤ d) × Within ds xs ys
Within _ _ _ = Unit

-- Each position is within the deltas of the one before it.
abbrev pub Steps : List ℕ → List ℤ → List (List ℤ) → Type 0
Steps ds last [] = Unit
Steps ds last (row ∷ rest) = Within ds row last × Steps ds row rest

exceeds-Within : (ds : List ℕ) (xs ys : List ℤ) → exceeds ds xs ys ≡ false → Within ds xs ys
exceeds-Within [] xs ys h = tt
exceeds-Within (d ∷ ds) [] ys h = tt
exceeds-Within (d ∷ ds) (x ∷ xs) [] h = tt
exceeds-Within (d ∷ ds) (x ∷ xs) (y ∷ ys) h = ground (arith, exceeds-Within ds xs ys)

-- What a method leaves when it has sent those commands.
pub record Sends (new : List Sent) (e : RosActionExecutor) (s : RosActionExecutor) : Type 0 where
  pub trace : sent s.trace ≡ sent e.trace ++ new
  pub config : s.config ≡ e.config

pub Sends-trans :
    (a b : List Sent) (e s t : RosActionExecutor) → Sends a e s → Sends b s t → Sends (a ++ b) e t
Sends-trans a b e s t h k = record {
  trace = k.trace ∙ ap (λ l. l ++ b) h.trace ∙ append_assoc (sent e.trace) a b;
  config = k.config ∙ h.config;
}

-- One row: it is sent, it is the last command afterwards, and it is near the one before.
abbrev pub Row : String → List ℤ → List ℤ → List ℤ → RosActionExecutor → RosActionExecutor → Type 0
Row arm hold last row e s =
    Sends (pair arm hold row) e s
    × (s.last_command ≡ some row)
    × Within e.config.max_row_delta row last

module _ (world : World) (median : List ℤ → ℤ) (blend : ℕ → ℕ → List ℤ → List ℤ → List ℤ) where
  -- The positions of the transition that are left.
  abbrev pub blends : ℕ → ℕ → ℕ → List ℤ → List ℤ → List (List ℤ)
  blends zero index steps last first = []
  blends (suc left) index steps last first =
      blend index steps last first ∷ blends left (suc index) steps last first

  pub publish_controlled-Sends :
      (arm : String) (command hold : List ℤ) (e : RosActionExecutor)
      → Post
          (λ _ s. Sends (pair arm hold command) e s × (s.last_command ≡ e.last_command))
          (publish_controlled world arm command hold e)
  unfolding publish_controlled
  publish_controlled-Sends arm command hold e = grind (arith, append_assoc)

  pub after_row-Sends :
      (skill : String) (row : List ℤ) (e : RosActionExecutor)
      → Post
          (λ _ s. Sends [] e s × (s.last_command ≡ some row))
          (after_row world median blend skill row e)
  unfolding after_row listen
  after_row-Sends skill row e = ground (arith, append-nil (sent e.trace))

  pub publish_row-Row :
      (skill arm : String) (hold last row : List ℤ) (e : RosActionExecutor)
      → e.last_command ≡ some last
      → Post
          (λ _ s. Row arm hold last row e s)
          (publish_row world median blend skill arm hold row e)
  unfolding publish_row
  publish_row-Row skill arm hold last row e h =
      let moved = publish_controlled-Sends arm row hold e in
      let s = (publish_controlled world arm row hold e).1 in
      let taken = after_row-Sends skill row s in
      ground (
        arith,
        exceeds-Within e.config.max_row_delta row last,
        append-nil (pair arm hold row),
        Sends-trans (pair arm hold row) [] e s (after_row world median blend skill row s).1,
      )

  pub transition-Sends :
      (left index steps : ℕ) (arm : String) (last first hold : List ℤ) (e : RosActionExecutor)
      → Post
          (λ _ s. Sends (pairs arm hold (blends left index steps last first)) e s)
          (transition world median blend left index steps arm last first hold e)
  unfolding transition
  transition-Sends zero index steps arm last first hold e =
      ground (arith, append-nil (sent e.trace))
  transition-Sends (suc left) index steps arm last first hold e =
      let c = blend index steps last first in
      let more = pairs arm hold (blends left (suc index) steps last first) in
      let next = transition world median blend left (suc index) steps arm last first hold in
      let all = pair arm hold c ++ more in
      bind-Post (λ _ s. Sends (pair arm hold c) e s × (s.last_command ≡ e.last_command))
        (λ _ s. Sends all e s) (publish_controlled world arm c hold) (λ _. next) e
        (publish_controlled-Sends arm c hold e)
        (λ _ s p.
          weaken-Post (λ _ t. Sends more s t) (λ _ t. Sends all e t) (next s)
            (transition-Sends left (suc index) steps arm last first hold s)
            (λ _ t k. Sends-trans (pair arm hold c) more e s t p.0 k))
