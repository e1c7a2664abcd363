-- ===== src/Edge/RosAction.antt =====
-- src/oven_runtime/edge/ros2_action.py: the state of the executor, its preflight, and the steps
-- that its methods share. The methods that move an arm are in Reset and Publish.
--
-- Messages arrive while the executor runs: before each use of the observation source, `listen` hands
-- the source those that have arrived. What ROS and the operating system answer is a function of the
-- events so far, the last one first.
pub mod Publish
pub mod Reset
mod Ready
pub mod Lock
mod Tests
use oven_multiskill_runtime.Common.{
  ℕ, String, Bool, true, false, Option, none, some, List, [], ◌∷◌, any, not, ◌&&◌, str_eq, ℤ,
  Raised, Result, ok, err, faulted, other, Action, pure, lift, gets, modify, raise_if, ◌>>=◌, ◌>>◌,
  if◌then◌else◌,
}
use oven_multiskill_runtime.Errors.{fault, state_rejected}
use oven_multiskill_runtime.Edge.Gate
use oven_multiskill_runtime.Edge.Gate.{OnlineJointGate}
use oven_multiskill_runtime.Edge.RosConfig.{RosBridgeConfig, lookup}
use oven_multiskill_runtime.Edge.RosObservation
use oven_multiskill_runtime.Edge.RosObservation.{Message, RosObservationSource, receive_all}
use oven_multiskill_runtime.Edge.RosObservation.Sample.{joint_snapshot, arm_snapshot}

-- The topics that the executor publishes on.
pub data Topic : Type 0 where
  left_command : Topic
  right_command : Topic

pub data Event : Type 0 where
  listens : Event
  waits_for_observations : Event
  takes_lock : Event
  releases_lock : Event
  lists_publishers : Topic → Event
  publishes : Topic → List ℤ → Event

-- A publisher on a topic, by the name and the namespace of its node.
pub record Endpoint : Type 0 where
  pub node_name : String
  pub node_namespace : String

-- How `flock` ends: `busy` is `BlockingIOError`.
pub data LockOutcome : Type 0 where
  locked : LockOutcome
  busy : LockOutcome
  lock_raised : Raised → LockOutcome

pub record World : Type 0 where
  -- The node's own name and namespace.
  pub own : Endpoint
  pub arrivals : List Event → List (Message × ℕ)
  pub rounds : List Event → List (List (Message × ℕ) × ℕ)
  pub lock : List Event → LockOutcome
  pub publishers_info : List Event → List Endpoint
  pub deliver : List Event → Result (Unit {0})

pub record RosActionExecutor : Type 0 where
  pub config : RosBridgeConfig
  pub observation : RosObservationSource
  pub active_skill : Option String
  pub published_rows : ℕ
  pub last_command : Option (List ℤ)
  pub has_published : Bool
  pub preflight_complete : Bool
  pub holds_lock : Bool
  pub closed : Bool
  pub trace : List Event

-- `__init__`, for a configuration that was validated.
unfoldable pub create : RosBridgeConfig → RosObservationSource → RosActionExecutor
create config observation = record {
  config = config;
  observation = observation;
  active_skill = none;
  published_rows = 0;
  last_command = none;
  has_published = false;
  preflight_complete = false;
  holds_lock = false;
  closed = false;
  trace = [];
}

abbrev pub Method : Type 0 → Type 0
Method A = Action RosActionExecutor A

abbrev pub self : Method RosActionExecutor
self e = (ok e, e)

abbrev pub note : Event → Method (Unit {0})
note x e = (ok tt, record e { trace = x ∷ e.trace })

abbrev pub ask : {A : Type 0} → Event → (List Event → A) → Method A
ask x answer e = (ok (answer (x ∷ e.trace)), record e { trace = x ∷ e.trace })

-- A method of the observation source, and one of its gate.
abbrev pub on_source : {A : Type 0} → Action RosObservationSource A → Method A
on_source m e = let (a, s) = m e.observation in (a, record e { observation = s })

abbrev pub on_gate : {A : Type 0} → Action OnlineJointGate A → Method A
on_gate m e =
    let (a, g) = m e.observation.gate in
    (a, record e { observation = record e.observation { gate = g } })

-- `mapping[key]`
abbrev pub item_of : {A : Type 0} → Option A → Result A
item_of none = err other
item_of (some v) = ok v

abbrev is_own : Endpoint → Endpoint → Bool
is_own own p = str_eq p.node_name own.node_name && str_eq p.node_namespace own.node_namespace

module _ (world : World) where
  -- Hands the source the messages that have arrived.
  unfoldable pub listen : Method (Unit {0})
  listen = do arrivals ← ask Event.listens world.arrivals; on_source (modify (receive_all arrivals))

  -- `self.observation.arm_snapshot(arm)`
  unfoldable pub snapshot_of : String → Method (List ℤ × List ℤ)
  unfolding listen
  snapshot_of arm = do listen; e ← self; lift (arm_snapshot arm e.observation)

  -- `_publish_pair`
  unfoldable pub publish_one : Topic → List ℤ → Method (Unit {0})
  publish_one topic values = do
    delivered ← ask (Event.publishes topic values) world.deliver
    lift delivered
    modify (λ e. record e { has_published = true })

  unfoldable pub publish_pair : List ℤ → List ℤ → Method (Unit {0})
  unfolding publish_one
  publish_pair left right = do publish_one left_command left; publish_one right_command right

  unfoldable pub publish_controlled : String → List ℤ → List ℤ → Method (Unit {0})
  unfolding publish_pair
  publish_controlled arm command other_hold =
      if str_eq arm "left"
      then publish_pair command other_hold
      else if str_eq arm "right"
      then publish_pair other_hold command
      else lift (err other)

  abbrev after_lock : LockOutcome → Method (Unit {0})
  after_lock locked = modify (λ e. record e { holds_lock = true })
  after_lock busy =
      lift
        (err (faulted (fault state_rejected "another oven action executor holds the process lock")))
  after_lock (lock_raised r) = lift (err r)

  unfoldable pub acquire_action_lock : Method (Unit {0})
  acquire_action_lock = do
    e ← self
    if e.holds_lock
        then pure tt
        else (do outcome ← ask Event.takes_lock world.lock; after_lock outcome)

  -- `_external_publishers_present`: the second topic is asked about if the first has no other node.
  unfoldable pub external_publishers_present : Method Bool
  external_publishers_present = do
    left ← ask (Event.lists_publishers left_command) world.publishers_info
    if any (λ p. not (is_own world.own p)) left then pure true else (do
      right ← ask (Event.lists_publishers right_command) world.publishers_info
      pure (any (λ p. not (is_own world.own p)) right))

  unfoldable pub preflight : Method (Unit {0})
  unfolding acquire_action_lock external_publishers_present
  preflight = do
    e ← self
    if e.preflight_complete then pure tt else (do
      rounds ← ask Event.waits_for_observations world.rounds
      on_source (RosObservation.preflight e.config rounds)
      acquire_action_lock
      external ← external_publishers_present
      raise_if external (fault state_rejected "another ROS action publisher is present")
      modify (λ e. record e { preflight_complete = true }))

  -- `begin_stage` after its preflight.
  unfoldable pub enter_stage : String → Method (Unit {0})
  unfolding snapshot_of
  enter_stage skill = do
    listen
    on_gate (Gate.begin skill)
    e ← self
    arm ← lift (item_of (lookup skill e.config.skill_arms))
    (controlled, hold) ← snapshot_of arm
    modify (λ e. record e {
      active_skill = some skill;
      published_rows = 0;
      last_command = some controlled;
    })

  unfoldable pub begin_stage : String → Method (Unit {0})
  unfolding preflight enter_stage
  begin_stage skill = do preflight; enter_stage skill

abbrev pub clear_stage : RosActionExecutor → RosActionExecutor
clear_stage e = record e { active_skill = none; last_command = none }

abbrev release_lock : Method (Unit {0})
release_lock = do note Event.releases_lock; modify (λ e. record e { holds_lock = false })

-- `close`: the node's own shutdown is ROS's.
unfoldable pub close : Method (Unit {0})
close = do
  e ← self
  if e.closed then pure tt else (do
    modify (λ e. record e { closed = true })
    if e.holds_lock then release_lock else pure tt)
