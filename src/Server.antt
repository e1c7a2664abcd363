-- ===== src/Server.antt =====
-- The parts of the inference server, src/oven_runtime/server.
pub mod Audit
pub mod Backend
pub mod Runtime
pub mod Prepare
pub mod Session
pub mod Trial
pub mod Inference
pub mod System
pub mod Invariant
pub mod Safety
pub mod Control
pub mod Frontend
mod Tests
