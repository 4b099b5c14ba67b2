-- ===== src/Revocation.antt =====
-- crates/epochgrid-core/src/revocation.rs: signed revocation requests, the signed log of them, and the
-- revoked devices that a client keeps.
pub mod Requests
pub mod Logs
pub mod Validity
pub mod Local
pub mod Append
unfoldable pub use Requests.{request_bytes, signed_request, validate_request}
unfoldable pub use Logs.{root, checkpoint_bytes, signed, validate, validate_entries, keys}
