-- ===== src/Authorization.antt =====
-- crates/epochgrid-core/src/authorization.rs: the registry's record of who may use a group's subject,
-- changed by signed updates of the group's coordinator.
pub mod Policy
pub mod Members
pub mod Written
pub mod Applied
pub mod Generations
pub mod Refused
pub mod Relay
pub mod Retired
