-- ===== src/Examples.antt =====
-- Runs of the definitions at concrete inputs, by component.
mod Inputs
pub mod Webhook
pub mod Sources
pub mod Managing
pub mod Handling
pub mod Surviving
pub mod Queues
pub mod Clouds
pub mod Stopping
pub mod Delivering
