-- ===== src/Identity.antt =====
-- crates/epochgrid-core/src/identity.rs: the checks of a device registration, and the endpoint key
-- of wire.rs under which the directory keeps it.
use epochgrid.Base.{
  ◌++◌, ◌∷◌, ltb, ◌==◌, nat_eq, bytes_eq, ◌&&◌, Text, text, Bytes, Result, ok, context, ensure,
  ◌>>=◌, ◌>>◌, starts_with,
}
use epochgrid.Wire.{RegistrationPayload, DeviceRegistration, Primitives, validate_id, version}

-- `RegistrationPayload::signing_bytes`
unfoldable pub signing_bytes : Primitives → RegistrationPayload → Result Bytes
signing_bytes p payload = do
  encoded ← context (p.payload_bytes payload) "encoding"
  ok (text "EpochGrid device registration v1" ++ (0 ∷ encoded))

-- `RegistrationPayload::key`
unfoldable pub key : RegistrationPayload → Text
key payload = text "users." ++ payload.user_id ++ text ".devices." ++ payload.device_id

-- `format!("{}/{}", user, device)`
unfoldable pub device_name : Text → Text → Text
device_name user device = user ++ text "/" ++ device

unfoldable pub verify_signature : Primitives → DeviceRegistration → Result (Unit {0})
unfolding signing_bytes validate_id
verify_signature p registration = do
  let payload = registration.payload
  validate_id payload.user_id
  validate_id payload.device_id
  ensure
      (payload.protocol_version == version && payload.generation == 1 && ltb 0 payload.created_at)
      "invalid registration version/generation/time"
  ensure (starts_with (text "U") payload.nats_public_key) "NATS user key required"
  message ← signing_bytes p payload
  ensure (p.nkey_verify payload.nats_public_key message registration.signature) "signature"

unfoldable pub verify : Primitives → DeviceRegistration → Result (Unit {0})
unfolding verify_signature device_name
verify p registration = do
  verify_signature p registration
  let payload = registration.payload
  mls ← context (p.key_package payload.mls_key_package) "invalid MLS KeyPackage"
  ensure mls.suite_supported "unsupported ciphersuite"
  credential ← context mls.credential "encoding"
  ensure (credential == payload.mls_credential) "credential mismatch"
  identity ← context mls.identity "invalid basic credential"
  ensure (identity == device_name payload.user_id payload.device_id) "MLS identity mismatch"
