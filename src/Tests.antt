-- ===== src/Tests.antt =====
-- Concrete values, and the theorems applied at them.
pub mod Value
mod Jobs
mod Work
mod Workers
mod Monitoring
mod Interleavings
mod Modules
mod Setup
mod Debug
pub mod Files
mod Started
pub mod Exchanges
mod Services
mod Messages
mod Dispatching
