-- ===== src/Conversation.antt =====
-- crates/epochgrid-core/src/relationships.rs: the application events of a group and what a conversation
-- shows of them.
pub mod Ordered
pub mod Event
pub mod RoundTrip
pub mod Projection
pub mod UpdateOrder
pub mod Same
pub mod Projected
