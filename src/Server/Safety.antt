-- ===== src/Server/Safety.antt =====
-- What the inference server promises: who may reach the policy, and what a failure leaves.
pub mod Authentication
pub mod Failure
