-- ===== src/Client/Messaging.antt =====
-- messaging.rs: an event is encrypted into the outbox and the transcript, and a ciphertext is
-- decrypted into the transcript, once.
use epochgrid.Base.{
  ℕ, ◌+◌, List, length, map, any, leb, ◌==◌, nat_eq, bytes_eq, ◌||◌, Bool, true, false, Bytes, Text,
  text, Option, none, some, Result, ok, err, context, ensure, ◌>>=◌, ◌>>◌, if◌then◌else◌,
}
use epochgrid.Wire.{Primitives, max_wire}
use epochgrid.Attachments.{ManifestCodec}
use epochgrid.Conversation.Event.{
  ApplicationEvent, EventCodec, wire, decode_event, transcript, root, max_application,
}
use epochgrid.Client.Tables.{Tables, Group, MlsGroup, Entry, Outgoing, largest, insert_new}
use epochgrid.Client.Library.{
  Mls, Protocol, ContentType, application, Processed, Content, application_message, processed,
  failure, invalid, Session,
}
use epochgrid.Client.Groups.{group, load_group, save_group, subject_of}
use epochgrid.Client.Outbox.{queue}
use epochgrid.Client.Rekey.{ensure_can_send, invalid_message}
use epochgrid.Client.Index.{index_receipt, index_application, index_attachment, own_name}

abbrev pub next_row : List Entry → ℕ
next_row rows = largest (map (λ (e : Entry). e.id) rows) + 1

-- The `INSERT INTO transcript`: a ciphertext stands once.
unfoldable pub insert_entry : Text → Bytes → Text → Bytes → Bool → Bool → Tables → Result Tables
insert_entry gid payload sender plaintext outgoing displayed t = do
  rows ←
      insert_new (λ (e : Entry). e.payload == payload)
        (record {
          id = next_row t.transcript;
          gid = gid;
          payload = payload;
          sender = some sender;
          plaintext = some plaintext;
          outgoing = outgoing;
          stream_sequence = none;
          displayed = displayed;
        })
        t.transcript
  ok (record t { transcript = rows })

-- `EXISTS(SELECT 1 FROM received .. UNION ALL SELECT 1 FROM outbox ..)`
abbrev pub is_known : Bytes → Tables → Bool
is_known bytes t =
    any (λ b. b == bytes) t.received || any (λ (o : Outgoing). o.payload == bytes) t.outbox

abbrev pub is_application : ContentType → Bool
is_application application = true
is_application _ = false

abbrev is_root_or_legacy : Option ApplicationEvent → Bool
is_root_or_legacy none = true
is_root_or_legacy (some e) = root e

abbrev content_of : Bytes → Option ApplicationEvent → Bytes
content_of plaintext none = plaintext
content_of plaintext (some e) = e.content

abbrev text_of : Bytes → Option ApplicationEvent → Bytes
text_of plaintext none = plaintext
text_of plaintext (some e) = transcript e

pub record DecryptedMessage : Type 0 where
  pub sender : Text
  pub plaintext : Bytes

-- An error of a check that reports an invalid message, whatever its own is.
abbrev pub or_invalid {ℓ} : {A : Type ℓ} → Result A → Result A
or_invalid (ok a) = ok a
or_invalid (err e) = err invalid_message

abbrev pub application_of : Content → Result Bytes
application_of (application_message bytes) = ok bytes
application_of _ = err invalid_message

module _ (mls : Mls) where
  -- The parts of a message whose frame is that of a private one.
  unfoldable pub parse_frame : Bytes → Result Protocol
  parse_frame bytes = do
    message ← context (mls.deserialize bytes) invalid_message
    ensure message.is_private invalid_message
    context message.protocol invalid_message

  -- Those of a message that is the group's.
  unfoldable pub parse_message : Group → Bytes → Result Protocol
  unfolding parse_frame
  parse_message descriptor bytes = do
    protocol ← parse_frame bytes
    ensure (protocol.group_id == descriptor.mls_id) invalid_message
    ok protocol

  unfoldable pub process : MlsGroup → Bytes → Result (Processed × MlsGroup)
  process g bytes = elim (mls.process_message g bytes) [
    | processed done g' ↦ ok (done, g')
    | failure ↦ err "MLS failure"
    | invalid ↦ err invalid_message
  ]

module _ (p : Primitives) (c : EventCodec) (mc : ManifestCodec) (mls : Mls) where
  -- `signer` is whether the device's signer can be read; `public_key` is that of its NATS key.
  unfoldable pub encrypt_event_inner :
      Session
      → Text
      → Result (Unit {0})
      → Text
      → ApplicationEvent
      → Tables
      → Result (Bytes × Tables)
  encrypt_event_inner s public_key signer name event t = do
    encoded ← wire c event
    descriptor ← group name t
    signed ← signer
    indexed ← if root event then index_attachment mc descriptor.gid event.content t else ok t
    g ← load_group descriptor indexed
    ensure_can_send public_key indexed g
    ensure (leb 2 (length g.members)) "invite a peer before sending messages"
    created ← context (mls.create_message g encoded) "encrypt MLS application"
    let (bytes, g') = created
    let advanced : Tables = record indexed { mls = save_group g' indexed.mls }
    queued ← queue s (subject_of descriptor (text "message")) bytes advanced
    let row = next_row queued.transcript
    written ← insert_entry descriptor.gid bytes (own_name t) (transcript event) true true queued
    receipted ← index_receipt p row descriptor.gid bytes written
    final ←
        index_application p c row descriptor.gid (own_name t) bytes (some event) (transcript event)
          receipted
    ok (bytes, final)

  -- What is written of a message that OpenMLS has decrypted.
  unfoldable pub record_message :
      Group → Bytes → Processed → Tables → Result (DecryptedMessage × Tables)
  record_message descriptor bytes done t = do
    sender ← context done.identity invalid_message
    received ← application_of done.content
    ensure (leb (length received) max_application) invalid_message
    event ← or_invalid (decode_event c received)
    indexed ←
        if is_root_or_legacy event
        then index_attachment mc descriptor.gid (content_of received event) t
        else ok t
    let plaintext = text_of received event
    seen ← insert_new (λ b. b == bytes) bytes indexed.received
    let noted : Tables = record indexed { received = seen }
    let row = next_row noted.transcript
    written ← insert_entry descriptor.gid bytes sender plaintext false false noted
    receipted ← index_receipt p row descriptor.gid bytes written
    final ← index_application p c row descriptor.gid sender bytes event plaintext receipted
    ok (record { sender = sender; plaintext = plaintext }, final)

  decrypt_new : Group → Bytes → Tables → Result (Option DecryptedMessage × Tables)
  unfolding process record_message
  decrypt_new descriptor bytes t = do
    g ← load_group descriptor t
    ensure g.is_active invalid_message
    outcome ← process mls g bytes
    let (done, g') = outcome
    recorded ← record_message descriptor bytes done (record t { mls = save_group g' t.mls })
    let (message, final) = recorded
    ok (some message, final)

  unfoldable pub decrypt_inner : Text → Bytes → Tables → Result (Option DecryptedMessage × Tables)
  unfolding parse_message decrypt_new
  decrypt_inner name bytes t = do
    ensure (leb (length bytes) max_wire) invalid_message
    descriptor ← group name t
    protocol ← parse_message mls descriptor bytes
    ensure (is_application protocol.content_type) invalid_message
    if is_known bytes t then ok (none, t) else decrypt_new descriptor bytes t
