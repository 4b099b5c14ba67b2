-- ===== src/Revocation/Logs.antt =====
-- `RevocationLog` of revocation.rs.
use epochgrid.Base.{
  ◌++◌, ◌∷◌, [], List, map, length, any, leb, ◌==◌, nat_eq, bytes_eq, ◌&&◌, not, Text, text, Bytes,
  Result, ok, context, ensure, ◌>>=◌, ◌>>◌, i64_max,
}
use epochgrid.Wire.{
  Revocation, RevocationLog, Checkpoint, Snapshot, Primitives, KeyPair, revocation_log, encode,
}
use epochgrid.Merkle
use epochgrid.Transparency
use epochgrid.Revocation.Requests.{validate_request}

module _ (p : Primitives) where
  abbrev pub leaf : Revocation → Result Bytes
  leaf entry = context (p.revocation_bytes entry) "encoding"

  unfoldable pub root : List Revocation → Result Bytes
  root entries = Merkle.root p leaf entries

  unfoldable pub checkpoint_bytes : Checkpoint → Result Bytes
  checkpoint_bytes cp = do
    encoded ← context (p.checkpoint_bytes cp.version cp.size cp.root cp.signer) "encoding"
    ok (text "EpochGrid revocation checkpoint v1" ++ (0 ∷ encoded))

  unfoldable pub signed : List Revocation → KeyPair → Result RevocationLog
  signed entries pair = do
    computed ← root entries
    let unsigned : Checkpoint = record {
      version = 1;
      size = length entries;
      root = computed;
      signer = pair.public_key;
      signature = [];
    }
    message ← checkpoint_bytes unsigned
    signature ← context (pair.sign message) "signing"
    let log : RevocationLog = record {
      checkpoint = record unsigned { signature = signature };
      entries = entries;
    }
    envelope ← encode p (revocation_log log)
    ok log

  -- The loop of `validate`: each entry against those before it, and the set `keys`.
  unfoldable pub validate_entries : Snapshot → List Revocation → List Revocation → Result (Unit {0})
  validate_entries registrations previous [] = ok tt
  validate_entries registrations previous (entry ∷ rest) = do
    validate_request p entry.request registrations previous
    ensure (not (any (λ e. e.request.nkey == entry.request.nkey) previous)) "duplicate revocation"
    ensure (leb entry.chat_cutoff i64_max) "invalid revocation CHAT cutoff"
    validate_entries registrations (previous ++ entry ∷ []) rest

  unfoldable pub validate : RevocationLog → Snapshot → Result (Unit {0})
  validate log registrations = do
    Transparency.validate p registrations
    ensure
        (leb (length log.entries) 256
          && log.checkpoint.size == length log.entries
          && log.checkpoint.version == 1)
        "invalid revocation log size/version"
    ensure (log.checkpoint.signer == registrations.checkpoint.signer)
        "revocation signer differs from directory"
    message ← checkpoint_bytes log.checkpoint
    ensure (p.nkey_verify log.checkpoint.signer message log.checkpoint.signature) "signature"
    computed ← root log.entries
    ensure (computed == log.checkpoint.root) "revocation root mismatch"
    envelope ← encode p (revocation_log log)
    validate_entries registrations [] log.entries

unfoldable pub keys : RevocationLog → List Text
keys log = map (λ r. r.request.nkey) log.entries
