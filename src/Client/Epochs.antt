-- ===== src/Client/Epochs.antt =====
-- epochs.rs: messages of epochs before this device joined, and the Commits that move a group on.
use epochgrid.Base.{
  ℕ, length, find, leb, ltb, ◌==◌, nat_eq, bytes_eq, Bool, true, false, Bytes, Text, Result, ok,
  err, context, ensure, ◌>>=◌, ◌>>◌, if◌then◌else◌,
}
use epochgrid.Wire.{max_wire}
use epochgrid.Client.Tables.{Tables, Group, insert_new}
use epochgrid.Client.Library.{Mls, ContentType, commit, Content, staged_commit, StagedCommit}
use epochgrid.Client.Groups.{group, load_group, save_group}
use epochgrid.Client.Rekey.{
  invalid_message, validate_commit_author, block_revoked_outbox, refresh_coordinator,
}
use epochgrid.Client.Messaging.{parse_frame, parse_message, process, is_known}

abbrev pub is_commit : ContentType → Bool
is_commit commit = true
is_commit _ = false

module _ (mls : Mls) where
  unfoldable pub before_join : Text → Bytes → Tables → Result Bool
  before_join name bytes t = do
    ensure (leb (length bytes) max_wire) invalid_message
    protocol ← parse_frame mls bytes
    descriptor ← group name t
    ensure (protocol.group_id == descriptor.mls_id) invalid_message
    joined ←
        context (find (λ (e : Text × ℕ). e.0 == descriptor.gid) t.join_epochs)
          "Query returned no rows"
    ok (ltb protocol.epoch joined.1)

  abbrev commit_of : Content → Result StagedCommit
  commit_of (staged_commit c) = ok c
  commit_of _ = err invalid_message

  apply_commit : Group → Bytes → ℕ → Tables → Result Tables
  apply_commit descriptor bytes sequence t = do
    g ← load_group descriptor t
    outcome ← process mls g bytes
    let (done, g') = outcome
    let advanced : Tables = record t { mls = save_group g' t.mls }
    index ← context done.sender invalid_message
    staged ← commit_of done.content
    validate_commit_author descriptor index staged sequence advanced
    blocked ← block_revoked_outbox advanced
    merged ← context (mls.merge_staged_commit g' staged) "persist MLS commit"
    refreshed ← refresh_coordinator merged (record blocked { mls = save_group merged blocked.mls })
    seen ← insert_new (λ b. b == bytes) bytes refreshed.received
    ok (record refreshed { received = seen })

  unfoldable pub process_handshake : Text → Bytes → ℕ → Tables → Result Tables
  unfolding apply_commit
  process_handshake name bytes sequence t = do
    descriptor ← group name t
    protocol ← parse_message mls descriptor bytes
    ensure (is_commit protocol.content_type) invalid_message
    if is_known bytes t then ok t else apply_commit descriptor bytes sequence t
