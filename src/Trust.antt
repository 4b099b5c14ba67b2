-- ===== src/Trust.antt =====
-- crates/epochgrid-core/src/trust.rs: the devices that an installation has seen, pinned on first use,
-- their explicit verification, and the pinned directory with its last checkpoint.
pub mod Table
pub mod Operations
pub mod Carries
pub mod Pins
pub mod Runs
pub use Table.{TrustState, unverified, verified, changed, DeviceTrust, Directory, Tables}
unfoldable pub use Table.{device_trust, update_rows}
unfoldable pub use Operations.{
  hex_upper, fingerprint, normalise, observe_inner, observe_device, verify_device, pin_directory,
  accept_checkpoint, transparency_failure, clear_transparency_warning,
}
