-- ===== src/Wire/RoundTrip.antt =====
-- `encode` and `decode` of wire.rs together.
use epochgrid.Base.{◌≡◌, Bytes, some, [], ok, arith}
use epochgrid.Wire.Messages.{Body}
use epochgrid.Wire.Libraries.{Primitives}
use epochgrid.Wire.Codec.{encode, decode, version}

module _ (p : Primitives) where
  -- A body that `encode` accepts is what `decode` returns for its bytes, provided that postcard
  -- takes what it wrote for the envelope back whole.
  pub decode-encode :
      (body : Body) (bytes : Bytes)
      → ((written : Bytes)
          → p.envelope_bytes (record { version = version; body = body }) ≡ some written
          → p.take_envelope written ≡ some (record { version = version; body = body }, []))
      → encode p body ≡ ok bytes
      → decode p bytes ≡ ok body
  unfolding encode decode
  decode-encode body bytes law h = ground (arith, law bytes)
