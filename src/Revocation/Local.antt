-- ===== src/Revocation/Local.antt =====
-- The revoked devices of a client: `accept_revocations`, `is_revoked` and `revoked_mls_key` of
-- revocation.rs. The row of `revocation_checkpoint` stands as the checkpoint that it encodes.
pub mod Kept
use epochgrid.Base.{
  ℕ, List, [], ◌∷◌, ◌++◌, length, take, any, find, leb, ◌==◌, bytes_eq, Bool, ◌&&◌, Text, Bytes,
  Option, none, some, Result, ok, err, context, ensure, ◌>>=◌, ◌>>◌, if◌then◌else◌, true, false,
}
use mathlib.Core.Option
use epochgrid.Wire.{Revocation, RevocationLog, Checkpoint, Snapshot, Primitives}
use epochgrid.Capacity.{Capacity}
use epochgrid.Store.{Sqlite, transaction}
use epochgrid.Revocation.Logs.{root, validate}

pub record RevokedDevice : Type 0 where
  pub nkey : Text
  pub user : Text
  pub device : Text
  pub mls_key : Bytes
  pub cutoff : ℕ

-- The tables `revoked_devices` and `revocation_checkpoint`.
pub record Revoked : Type 0 where
  pub devices : List RevokedDevice
  pub checkpoint : Option Checkpoint

unfoldable pub is_revoked : List RevokedDevice → Text → Bool
is_revoked devices nkey = any (λ d. d.nkey == nkey) devices

unfoldable pub revoked_mls_key : List RevokedDevice → Bytes → Option ℕ
revoked_mls_key devices key =
    Option.map (λ (d : RevokedDevice). d.cutoff) (find (λ d. d.mls_key == key) devices)

-- `INSERT OR IGNORE`, with `nkey` as the primary key.
unfoldable pub insert_or_ignore : RevokedDevice → List RevokedDevice → List RevokedDevice
insert_or_ignore d devices = if is_revoked devices d.nkey then devices else devices ++ d ∷ []

module _ (p : Primitives) where
  -- The row of one entry.
  unfoldable pub row : Snapshot → Revocation → Result RevokedDevice
  row registrations revoked = do
    registration ←
        context
          (find (λ r. r.payload.nats_public_key == revoked.request.nkey) registrations.entries)
          "revoked registration missing"
    credential ← context (p.unverified_credential registration.payload.mls_key_package) "encoding"
    ok (record {
      nkey = revoked.request.nkey;
      user = revoked.request.user;
      device = revoked.request.device;
      mls_key = credential.signature_key;
      cutoff = revoked.chat_cutoff;
    })

  unfoldable pub record_entries :
      Snapshot → List Revocation → List RevokedDevice → Result (List RevokedDevice)
  record_entries registrations [] devices = ok devices
  record_entries registrations (revoked ∷ rest) devices = do
    d ← row registrations revoked
    record_entries registrations rest (insert_or_ignore d devices)

  unfoldable pub extends : RevocationLog → Option Checkpoint → Result (Unit {0})
  extends log none = ok tt
  extends log (some previous) = do
    ensure (previous.signer == log.checkpoint.signer && leb previous.size (length log.entries))
        "REVOCATION FAILURE: signer changed or log truncated"
    computed ← root p (take previous.size log.entries)
    ensure (computed == previous.root) "REVOCATION FAILURE: history rewritten"

  unfoldable pub accept_inner : RevocationLog → Snapshot → Revoked → Result ((Unit {0}) × Revoked)
  accept_inner log registrations db = do
    extends log db.checkpoint
    devices ← record_entries registrations log.entries db.devices
    ok (tt, record { devices = devices; checkpoint = some log.checkpoint })

  module _ (sql : Sqlite Revoked) (capacity : Capacity) where
    unfoldable pub accept_revocations :
        RevocationLog → Snapshot → Revoked → Result (Unit {0}) × Revoked
    accept_revocations log registrations db = elim (validate p log registrations) [
      | err e ↦ (err e, db)
      | ok _ ↦ transaction sql capacity true (accept_inner log registrations) db
    ]
