-- ===== src/Tests.antt =====
-- Tests of the definitions, and the theorems at concrete inputs.
pub mod Fixture
mod Logs
mod Devices
mod Budgets
pub mod Groups
mod Events
mod Relays
mod Tokens
mod Conversations
pub mod Deliveries
mod Withheld
mod Outgoing
