-- ===== src/Wire/Libraries.antt =====
-- The third-party code that the sources call, as parameters: postcard, SHA-256, NATS user keys
-- (nkeys), Base32 and what OpenMLS says of a KeyPackage. `none` is the library's error.
use epochgrid.Base.{ℕ, Option, Bool, Bytes, Text}
use epochgrid.Wire.Messages.{RegistrationPayload, Revocation, PolicyUpdate, Envelope}

-- `KeyPackageIn::validate` and what is read of the validated package.
pub record Package : Type 0 where
  pub suite_supported : Bool  -- `ciphersuite() == SUITE`
  pub credential : Option Bytes  -- `credential().tls_serialize_detached()`
  pub identity : Option Bytes  -- `BasicCredential::try_from(..)`, its identity

-- `KeyPackageIn::unverified_credential`.
pub record UnverifiedCredential : Type 0 where
  pub serialized : Option Bytes
  pub signature_key : Bytes

pub record Primitives : Type 0 where
  pub sha256 : Bytes → Option Bytes
  -- `KeyPair::from_public_key(key)` succeeds
  pub nkey_valid : Text → Bool
  -- `KeyPair::from_public_key(key)?.verify(message, signature)` succeeds
  pub nkey_verify : Text → Bytes → Bytes → Bool
  -- `postcard::to_allocvec`, at the types that the sources encode
  pub envelope_bytes : Envelope → Option Bytes
  pub payload_bytes : RegistrationPayload → Option Bytes
  pub checkpoint_bytes : ℕ → ℕ → Bytes → Text → Option Bytes
  pub request_bytes : ℕ → Text → Text → Text → Text → Option Bytes
  pub revocation_bytes : Revocation → Option Bytes
  pub policy_bytes : PolicyUpdate → Option Bytes
  pub fingerprint_bytes : ℕ → Text → Text → Text → Bytes → Bytes → Option Bytes
  pub relay_bytes : ℕ → Text → ℕ → Text → Text → ℕ → Bytes → Option Bytes
  -- `postcard::take_from_bytes::<Envelope>`: a value and the bytes behind it
  pub take_envelope : Bytes → Option (Envelope × Bytes)
  -- `MlsMessageIn::tls_deserialize_exact(..)` succeeds, and what it extracts is a Welcome
  pub is_welcome : Bytes → Bool
  -- `BASE32_NOPAD` of data_encoding
  pub base32_decode : Bytes → Option Bytes
  pub base32_encode : Bytes → Bytes
  -- `KeyPackageIn::tls_deserialize_exact(..)` and `validate`
  pub key_package : Bytes → Option Package
  -- `KeyPackageIn::tls_deserialize_exact(..)` and `unverified_credential`
  pub unverified_credential : Bytes → Option UnverifiedCredential

-- A key pair of nkeys: `sign` may fail where the pair holds no seed.
pub record KeyPair : Type 0 where
  pub public_key : Text
  pub sign : Bytes → Option Bytes
