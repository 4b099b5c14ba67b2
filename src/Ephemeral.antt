-- ===== src/Ephemeral.antt =====
-- crates/epochgrid-core/src/ephemeral.rs: the events that are sent and never stored, the time in which
-- one is accepted, and the bounded state of who is typing.
pub mod Typing
pub mod Bounded
