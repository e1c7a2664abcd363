-- ===== src/Edge.antt =====
-- The parts of the edge that runs the pipeline, src/oven_runtime/edge.
pub mod Contracts
pub mod Validation
pub mod Audit
pub mod Environment
pub mod Plan
pub mod Orchestrator
pub mod Rollout
pub mod Stage
pub mod Run
pub mod Gate
pub mod Approval
pub mod Checker
pub mod Profile
pub mod RosConfig
pub mod RosObservation
pub mod RosAction
pub mod ControlClient
pub mod InferenceClient
mod Tests
