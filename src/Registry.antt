-- ===== src/Registry.antt =====
-- crates/epochgrid-core/src/identity_model.rs: the authority's registry of users, enrollment tokens,
-- devices and group authorizations, and the admission of a device. The budgets of the tables are
-- `check_registry` of capacity.rs.
pub mod Tables
pub mod Admission
pub mod Revoke
pub mod Enroll
pub mod Invite
