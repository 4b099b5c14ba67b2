-- ===== src/Transparency/Snapshots.antt =====
-- `Checkpoint`, `Snapshot::signed`, `Snapshot::validate`, `Snapshot::extends` and `decode` of
-- transparency.rs.
use epochgrid.Base.{
  ◌++◌, List, [], ◌∷◌, length, take, any, leb, ◌==◌, nat_eq, bytes_eq, ◌&&◌, not, Text, text, Bytes,
  Result, ok, err, context, ensure, ◌>>=◌, ◌>>◌, starts_with, Eq, ℕ_discrete,
}
use epochgrid.Wire.{
  DeviceRegistration, Checkpoint, Snapshot, Body, Primitives, KeyPair, register, audit_log, encode,
}
use epochgrid.Wire
use epochgrid.Identity.{verify_signature, key}
use epochgrid.Merkle

instance abbrev pub registration_eq : Eq DeviceRegistration
registration_eq = record { dec = hlevel ℕ_discrete }

module _ (p : Primitives) where
  -- The bytes of one entry in the tree: its encoding as a `Register` body.
  unfoldable pub leaf : DeviceRegistration → Result Bytes
  leaf entry = encode p (register entry)

  unfoldable pub root : List DeviceRegistration → Result Bytes
  root entries = Merkle.root p leaf entries

  unfoldable pub signing_bytes : Checkpoint → Result Bytes
  signing_bytes cp = do
    encoded ← context (p.checkpoint_bytes cp.version cp.size cp.root cp.signer) "encoding"
    ok (text "EpochGrid transparency checkpoint v1" ++ (0 ∷ encoded))

  -- The loop of `validate`: each entry's signature, and the two sets `endpoints` and `keys`, into
  -- which nothing may be inserted twice.
  unfoldable pub distinct_identities :
      List Text → List Text → List DeviceRegistration → Result (Unit {0})
  distinct_identities endpoints keys [] = ok tt
  distinct_identities endpoints keys (entry ∷ rest) = do
    verify_signature p entry
    ensure
        (not (any (λ e. e == key entry.payload) endpoints)
          && not (any (λ k. k == entry.payload.nats_public_key) keys))
        "duplicate transparency identity"
    distinct_identities (key entry.payload ∷ endpoints) (entry.payload.nats_public_key ∷ keys) rest

  unfoldable pub validate : Snapshot → Result (Unit {0})
  validate snapshot = do
    let cp = snapshot.checkpoint
    ensure (leb (length snapshot.entries) 256) "transparency entry limit exceeded"
    envelope ← encode p (audit_log snapshot)
    ensure (cp.version == 1 && cp.size == length snapshot.entries)
        "invalid transparency version/size"
    ensure (starts_with (text "U") cp.signer) "transparency signer must be a user NKey"
    message ← signing_bytes cp
    ensure (p.nkey_verify cp.signer message cp.signature) "signature"
    computed ← root snapshot.entries
    ensure (computed == cp.root) "transparency root mismatch"
    distinct_identities [] [] snapshot.entries

  unfoldable pub signed : List DeviceRegistration → KeyPair → Result Snapshot
  signed entries pair = do
    computed ← root entries
    let unsigned : Checkpoint = record {
      version = 1;
      size = length entries;
      root = computed;
      signer = pair.public_key;
      signature = [];
    }
    message ← signing_bytes unsigned
    signature ← context (pair.sign message) "signing"
    let snapshot : Snapshot = record {
      checkpoint = record unsigned { signature = signature };
      entries = entries;
    }
    validate snapshot
    ok snapshot

  unfoldable pub extends : Snapshot → Checkpoint → Result (Unit {0})
  extends snapshot previous = do
    ensure (snapshot.checkpoint.signer == previous.signer)
        "TRANSPARENCY FAILURE: directory signer changed"
    ensure (leb previous.size (length snapshot.entries)) "TRANSPARENCY FAILURE: log truncated"
    computed ← root (take previous.size snapshot.entries)
    ensure (computed == previous.root) "TRANSPARENCY FAILURE: registration history rewritten"

  expect_log : Body → Result Snapshot
  expect_log (audit_log snapshot) = ok snapshot
  expect_log _ = err "transparency response missing or unsupported"

  unfoldable pub decode : Bytes → Result Snapshot
  unfolding expect_log
  decode bytes = do
    body ← Wire.decode p bytes
    snapshot ← expect_log body
    validate snapshot
    ok snapshot
