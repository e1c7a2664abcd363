-- ===== src/Edge/ControlClient.antt =====
-- src/oven_runtime/edge/control_client.py: the requests that the edge makes of the control server,
-- the checks of the responses, and the pin on the server's instance.
pub mod Request
pub mod Response
pub mod Client
pub mod Exchange
mod Tests
