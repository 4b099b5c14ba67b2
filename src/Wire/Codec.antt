-- ===== src/Wire/Codec.antt =====
-- `encode` and `decode` of wire.rs: one version, a size limit both ways, and no trailing bytes.
use epochgrid.Base.{
  ℕ, Bytes, length, ltb, ◌==◌, nat_eq, not, Result, ok, context, ensure, ◌>>=◌, ◌>>◌, is_empty,
}
use epochgrid.Wire.Messages.{Body}
use epochgrid.Wire.Libraries.{Primitives}

abbrev pub max_wire : ℕ
max_wire = 65536

abbrev pub version : ℕ
version = 1

module _ (p : Primitives) where
  unfoldable pub encode : Body → Result Bytes
  encode body = do
    bytes ← context (p.envelope_bytes (record { version = version; body = body })) "encoding"
    ensure (not (ltb max_wire (length bytes))) "wire payload too large"
    ok bytes

  unfoldable pub decode : Bytes → Result Body
  decode bytes = do
    ensure (not (ltb max_wire (length bytes))) "wire payload too large"
    taken ← context (p.take_envelope bytes) "encoding"
    let (envelope, remaining) = taken
    ensure (is_empty remaining) "invalid wire encoding"
    ensure (envelope.version == version) "unsupported protocol version"
    ok envelope.body
