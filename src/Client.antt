-- ===== src/Client.antt =====
-- The store of a device as messages pass through it: groups.rs, delivery.rs, rekey.rs, messaging.rs,
-- epochs.rs, history.rs and receipts.rs of crates/epochgrid-core/src.
pub mod Tables
pub mod Library
pub mod Groups
pub mod Outbox
pub mod Rekey
pub mod Index
pub mod Messaging
pub mod Epochs
pub mod Sending
pub mod History
pub mod Transcript
pub mod Receipts
