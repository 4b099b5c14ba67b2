-- ===== src/Wire.antt =====
-- crates/epochgrid-core/src/wire.rs: the records and messages on the wire, the identifiers, and the
-- versioned and bounded envelope round postcard's encoding.
mod Messages
mod Libraries
mod Ids
mod Codec
pub mod RoundTrip
pub use Messages.*
pub use Libraries.*
pub use Ids.{is_id_byte}
unfoldable pub use Ids.{validate_id}
unfoldable pub use Codec.{max_wire, version, encode, decode}
