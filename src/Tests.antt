-- ===== src/Tests.antt =====
-- Concrete inputs: runs of the model, and the theorems at inputs that meet their hypotheses.
pub mod Rules
pub mod Firewall
mod Clients
mod Messages
pub mod Cookies
pub mod Applications
mod Thread
pub mod Filter
mod Lifecycle
mod Connection
mod Batch
mod Console
