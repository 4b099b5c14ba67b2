-- ===== src/Audit.antt =====
-- crates/epochgrid-core/src/audit.rs: the bounded audit log of the registry, its events, and the
-- append and repair of an event. Every caller of `append` is in a transaction of the registry.
pub mod Events
pub mod Log
pub mod Bounded
pub mod Repaired
