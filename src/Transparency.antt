-- ===== src/Transparency.antt =====
-- crates/epochgrid-core/src/transparency.rs: signed snapshots of the registration log, the check of a
-- snapshot, the check that one snapshot extends a checkpoint, and the append by compare-and-swap.
mod Snapshots
pub mod Validity
pub mod Extension
pub mod Log
unfoldable pub use Snapshots.{
  leaf, root, signing_bytes, signed, validate, extends, decode, registration_eq,
  distinct_identities,
}
