-- ===== src/Lib.antt =====
-- The oven multi-skill runtime: the checked part of its safety argument.
--
-- The runtime has two halves. A server on the inference machine owns one policy at a time and
-- answers authenticated inference requests. An edge process beside the robot runs the pipeline of
-- four skills: it asks the operator, resets the scene, drives the server through its control
-- channel, sends observations, publishes the actions, and stops safely when anything fails.
--
-- Parts and files
--   Common            Python's exceptions as values, methods as state passing, tests and lists.
--   Errors            src/oven_runtime/common/errors.py: the error codes, with their texts, and the
--                     fault.
--   State             src/oven_runtime/common/state.py: the states and the transition tables;
--                     State/Graph follows them over whole paths.
--   AuditSchema       src/oven_runtime/common/audit_schema.py: the evidence of a stage.
--   Value             the Python values that cross the wire, and Python's `==` of one with a scalar.
--   Hashing           src/oven_runtime/common/hashing.py: the bytes that are hashed.
--   Wire              src/oven_runtime/common/wire.py: frames, and arrays inside them.
--   Config            src/oven_runtime/common/config.py: the roots and paths below them.
--   Protocol          src/oven_runtime/common/protocol.py: the request and the response;
--                     Protocol/Parse is `InferenceRequest.parse` and the payload that the
--                     orchestrator's `_request` builds.
--   Server/Audit      src/oven_runtime/server/audit.py: `TrialAuditStore`, with the trial
--                     directories as values. `Server/Audit/Effects` has the laws the runtime uses.
--   Server/Backend    src/oven_runtime/server/backend.py: the data of the backend's interface.
--   Server/Runtime, Prepare, Trial, Session, Inference
--                     src/oven_runtime/server/runtime.py: `PolicyRuntime`. A record holds its
--                     attributes; each operation is a function of its name. `prepare_skill`,
--                     `begin_trial` and `infer`, which leave the condition lock on their way, are
--                     one function for each region under the lock: prepare_enter, drain_locked,
--                     prepare_timed_out, prepare_load, prepare_install; begin_trial,
--                     begin_trial_failed; infer_enter, infer_policy, infer_commit, infer_leave.
--   Server/Control    src/oven_runtime/server/control_protocol.py: the parser of control requests
--                     and `ControlDispatcher`, over any implementation of the operations.
--   Server/Frontend   src/oven_runtime/server/inference_server.py and control_server.py: what each
--                     makes of a frame.
--   Server/System     the regions of all threads in any order that the execution lock permits.
--   Edge/Contracts, Environment
--                     src/oven_runtime/edge/contracts.py: the data that the components exchange,
--                     and the components as functions of the calls made so far.
--   Edge/Validation   src/oven_runtime/edge/validation.py: both validators.
--   Edge/Audit        src/oven_runtime/edge/audit.py: `EdgeAuditStore`.
--   Edge/Plan, Orchestrator, Rollout, Stage, Run
--                     src/oven_runtime/edge/orchestrator.py: the plans and `PipelineOrchestrator`,
--                     whose `_rollout`, `_run_stage`, `run` and `_safe_stop` are rollout,
--                     run_stage, run and safe_stop.
--   Edge/Gate         src/oven_runtime/edge/joint_gate.py: `OnlineJointGate`; Edge/Gate/Profile is
--                     `JointGateProfile.arrays`, Edge/Gate/Windowed `WindowedJointGate`.
--   Edge/Approval, Checker
--                     src/oven_runtime/edge/approval.py: `ConsoleApprovalGate`, and
--                     src/oven_runtime/edge/checker.py: `TorchResnetChecker`.
--   Edge/Profile      src/oven_runtime/edge/profile.py: the readers of the fields and the checks of
--                     the server's part.
--   Edge/RosConfig    src/oven_runtime/edge/profile_types.py: the bridge's configuration.
--   Edge/RosObservation
--                     src/oven_runtime/edge/ros2_observation.py: `RosObservationSource`, which also
--                     feeds the gate; Sample makes the samples, Letterbox is `_convert_image`.
--   Edge/RosAction    src/oven_runtime/edge/ros2_action.py: `RosActionExecutor`; its `publish` and
--                     `stop` are in Publish, its `reset` in Reset.
--   Edge/ControlClient, InferenceClient
--                     src/oven_runtime/edge/control_client.py and inference_client.py: the requests
--                     and the checks of the responses; Edge/ControlClient/Exchange joins the client
--                     to the server's dispatcher.
-- The files below each of these, such as Server/Invariant and Edge/Run/Stop, hold the proofs; those
-- named Tests hold concrete runs.
--
-- How the code is read
-- A method is a function from the object's state to a result and the new state; what it wrote
-- before an exception stays written. An exception is a fault with its code, a `FileExistsError`,
-- another `OSError`, any other `Exception`, or an interrupt that `except Exception` does not catch.
-- Every write of a file may raise before or after its content is in place. Whatever the code asks
-- of others (the backend, the clock, UUIDs and tokens, the robot, the operator, NumPy's median and
-- `asarray`, ROS, the process lock, MessagePack, PyTorch, the digest) is an argument that may be
-- anything. Times, positions and scores are whole numbers of a fixed unit, so the rounding of
-- floats is not modelled; Python's integers are unbounded, and so are these. The rollout's fuel is
-- `max_chunks`, the length of the `range` in the code, so it is never cut short; the loops of the
-- preflight and of the reset run for as many rounds as their deadlines permit, which are given with
-- the messages that arrive meanwhile. The wait of `prepare_skill` is a sequence of regions, one for
-- each time that it wakes.
--
-- Not modelled: the details that the calls of `fault` give (a fault can have details, and the edge
-- drops them when it rebuilds a fault from a reply); the numeric diagnostics in a request's row;
-- `load_agilex_profile`, which puts the profile's records together; the composite backend, which
-- stands behind the backend's interface; the periods for which the executor sleeps between
-- commands; and the set-up of sockets, processes and command lines.
pub mod Common
pub mod Errors
pub mod State
pub mod AuditSchema
pub mod Value
pub mod Hashing
pub mod Wire
pub mod Config
pub mod Protocol
pub mod Server
pub mod Edge
