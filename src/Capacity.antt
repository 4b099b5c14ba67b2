-- ===== src/Capacity.antt =====
-- crates/epochgrid-core/src/capacity.rs: the capacity policy and its ranges, the high-water check of a
-- database, and the token bucket that limits requests.
mod Policy
pub mod Ranges
pub mod Bucket
pub mod Rate
pub use Policy.{Capacity}
unfoldable pub use Policy.{
  default, validate, in_range, in_broker_range, check_database, check_usage,
}
