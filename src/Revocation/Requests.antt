-- ===== src/Revocation/Requests.antt =====
-- `RevokeRequest` of revocation.rs.
use epochgrid.Base.{
  ◌++◌, ◌∷◌, [], List, any, ◌==◌, nat_eq, bytes_eq, ◌&&◌, ◌||◌, Bool, not, Text, text, Bytes,
  Result, ok, context, ensure, ◌>>=◌, ◌>>◌,
}
use epochgrid.Wire.{
  DeviceRegistration, RevokeRequest, Revocation, Snapshot, Primitives, KeyPair, validate_id,
}

-- The closures of `validate`: a registration of the endpoint that is revoked, one of the author.
abbrev pub is_endpoint : RevokeRequest → DeviceRegistration → Bool
is_endpoint r e =
    e.payload.user_id == r.user
    && e.payload.device_id == r.device
    && e.payload.nats_public_key == r.nkey

abbrev pub is_author : RevokeRequest → DeviceRegistration → Bool
is_author r e = e.payload.nats_public_key == r.author && e.payload.user_id == r.user

module _ (p : Primitives) where
  unfoldable pub request_bytes : RevokeRequest → Result Bytes
  request_bytes r = do
    encoded ← context (p.request_bytes r.version r.user r.device r.nkey r.author) "encoding"
    ok (text "EpochGrid device revocation v1" ++ (0 ∷ encoded))

  unfoldable pub signed_request : Text → Text → Text → KeyPair → Result RevokeRequest
  unfolding validate_id
  signed_request user device nkey pair = do
    validate_id user
    validate_id device
    let request : RevokeRequest = record {
      version = 1;
      user = user;
      device = device;
      nkey = nkey;
      author = pair.public_key;
      signature = [];
    }
    message ← request_bytes request
    signature ← context (pair.sign message) "signing"
    ok (record request { signature = signature })

  -- `RevokeRequest::validate`, against the registrations and the revocations before it.
  unfoldable pub validate_request : RevokeRequest → Snapshot → List Revocation → Result (Unit {0})
  validate_request r registrations previous = do
    validate_id r.user
    validate_id r.device
    ensure (r.version == 1) "unsupported revocation version"
    message ← request_bytes r
    ensure (p.nkey_verify r.author message r.signature) "signature"
    ensure (any (is_endpoint r) registrations.entries) "revocation endpoint/key not registered"
    ensure (not (any (λ e. e.request.nkey == r.author) previous))
        "revoked device cannot authorize revocation"
    ensure (r.author == registrations.checkpoint.signer || any (is_author r) registrations.entries)
        "only an active device of this user or the operator may revoke"
