-- ===== src/Edge/ControlClient/Client/Pin.antt =====
-- One client talks to one instance of the server.
use oven_multiskill_runtime.Common.{
  String, Bool, ◌≡◌, ◌≢◌, refl, sym, subst, other, Option, none, some, List, [], ◌∷◌, Result, ok,
  err, eq_iff, arith,
}
use oven_multiskill_runtime.Value.{Value, Fields}
use oven_multiskill_runtime.Value.Compare.{Comparison}
use oven_multiskill_runtime.Edge.ControlClient.Client.{
  SshControlClient, Completed, instance_of, call,
}

pub record Attempt : Type 0 where
  pub command : String
  pub values : List Value
  pub completed : Completed

abbrev pub keep_accepted : Result Fields → List Fields → List Fields
keep_accepted (ok fs) rest = fs ∷ rest
keep_accepted (err e) rest = rest

-- Every response comes from the instance.
abbrev pub AllFrom : String → List Fields → Type 0
AllFrom id [] = Unit
AllFrom id (fs ∷ rest) = (instance_of fs ≡ ok id) × AllFrom id rest

-- All responses come from the instance that sent the first.
abbrev pub FromOne : List Fields → Type 0
FromOne [] = Unit
FromOne (fs ∷ rest) = (id : String) × (instance_of fs ≡ ok id) × AllFrom id rest

-- The pin, as the instance of a response.
abbrev pinned : Option String → Result String
pinned none = err other
pinned (some id) = ok id

-- A pin that was set is kept.
abbrev Keeps : Option String → Option String → Type 0
Keeps none o = Unit
Keeps (some id) o = o ≡ some id

-- What one call does to the pin.
abbrev Pins : SshControlClient → Result Fields × SshControlClient → Type 0
Pins s (ok fs, s') =
    (instance_of fs ≡ pinned s'.server_instance_id)
    × (s'.server_instance_id ≢ none)
    × Keeps s.server_instance_id s'.server_instance_id
Pins s (err e, s') = s' ≡ s

module _ (c : Comparison) (is_uuid : String → Bool) where
  -- The responses that the calls of one client return.
  unfoldable pub accepted : List Attempt → SshControlClient → List Fields
  accepted [] s = []
  accepted (a ∷ rest) s =
      let (r, s') = call c is_uuid a.command a.values a.completed s in
      keep_accepted r (accepted rest s')

  call-Pins :
      (a : Attempt) (s : SshControlClient)
      → Pins s (call c is_uuid a.command a.values a.completed s)
  unfolding call
  call-Pins a s = grind (arith, eq_iff)

  accepted-AllFrom :
      (id : String) (calls : List Attempt) (s : SshControlClient)
      → s.server_instance_id ≡ some id
      → AllFrom id (accepted calls s)
  unfolding accepted
  accepted-AllFrom id [] s h = tt
  accepted-AllFrom id (a ∷ rest) s h = ground (
    arith,
    call-Pins a s,
    accepted-AllFrom id rest (call c is_uuid a.command a.values a.completed s).1,
  )

  first-FromOne :
      (rest : List Attempt) (fs : Fields) (s : SshControlClient) (o : Option String)
      → s.server_instance_id ≡ o
      → instance_of fs ≡ pinned o
      → o ≢ none
      → FromOne (fs ∷ accepted rest s)
  first-FromOne rest fs s none e p n = absurd (n refl)
  first-FromOne rest fs s (some id) e p n = (id, p, accepted-AllFrom id rest s e)

  kept-FromOne :
      (rest : List Attempt) (s : SshControlClient) (p : Result Fields × SshControlClient)
      → Pins s p
      → FromOne (accepted rest s)
      → FromOne (keep_accepted p.0 (accepted rest p.1))
  kept-FromOne rest s (ok fs, s') h ih = first-FromOne rest fs s' s'.server_instance_id refl h.0 h.1
  kept-FromOne rest s (err e, s') h ih = subst (λ t. FromOne (accepted rest t)) (sym h) ih

-- Whatever processes a client runs, and whatever they answer, the responses that its calls return
-- all come from one instance of the server.
pub accepted-FromOne :
    (c : Comparison) (is_uuid : String → Bool) (calls : List Attempt)
    → FromOne (accepted c is_uuid calls (record { server_instance_id = none }))
unfolding accepted
accepted-FromOne c is_uuid [] = tt
accepted-FromOne c is_uuid (a ∷ rest) =
    let fresh : SshControlClient = record { server_instance_id = none } in
    kept-FromOne c is_uuid rest fresh (call c is_uuid a.command a.values a.completed fresh)
      (call-Pins c is_uuid a fresh) (accepted-FromOne c is_uuid rest)
