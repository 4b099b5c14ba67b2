-- ===== src/Client/Index.antt =====
-- What is written beside a message of the transcript: `index_receipt` of receipts.rs,
-- `index_application` of relationships.rs, `index_attachment` of attachments.rs, and an application
-- event that is new.
pub mod Rest
use epochgrid.Base.{
  ℕ, ◌+◌, List, [], ◌∷◌, ◌++◌, find, map, any, retain, leb, ◌==◌, nat_eq, bytes_eq, ◌&&◌, ◌||◌,
  Bool, true, false, Bytes, Text, Option, none, some, Result, ok, err, context, ensure, ◌>>=◌, ◌>>◌,
  u64_max, if◌then◌else◌,
}
use mathlib.Core.Option
use epochgrid.Wire.{Primitives}
use epochgrid.Merkle.{hash}
use epochgrid.Identity.{device_name}
use epochgrid.Attachments.{ManifestCodec, Manifest, decode_manifest}
use epochgrid.Conversation.Event.{
  Relation, reply_to, replace, reaction, target_of, ApplicationEvent, EventCodec, wire,
  validate_event, id_text,
}
use epochgrid.Client.Tables.{
  Tables, Entry, ReceiptMessage, MessageEvent, Attachment, largest, insert_new,
}
use epochgrid.Client.Rekey.{invalid_message}

abbrev pub own_name : Tables → Text
own_name t = device_name t.registration.user_id t.registration.device_id

-- `INSERT OR IGNORE INTO receipt_messages`: one row to a transcript row, and to a reference in a group.
unfoldable pub index_receipt : Primitives → ℕ → Text → Bytes → Tables → Result Tables
index_receipt p id gid payload t = do
  reference ← hash p payload
  let present =
      any
        (λ (r : ReceiptMessage).
          r.transcript_id == id || (r.gid == gid && r.reference == reference))
        t.receipt_messages
  let row : ReceiptMessage = record { transcript_id = id; gid = gid; reference = reference }
  ok (if present then t else record t { receipt_messages = t.receipt_messages ++ row ∷ [] })

abbrev pub kind_of : Option Relation → ℕ
kind_of none = 0
kind_of (some (reply_to id)) = 1
kind_of (some (replace id)) = 2
kind_of (some (reaction target value add)) = 3

zeros16 : Bytes
zeros16 = 0 ∷ 0 ∷ 0 ∷ 0 ∷ 0 ∷ 0 ∷ 0 ∷ 0 ∷ 0 ∷ 0 ∷ 0 ∷ 0 ∷ 0 ∷ 0 ∷ 0 ∷ 0 ∷ []

module _ (p : Primitives) (c : EventCodec) where
  -- The identifier of a message and the event that is stored of it.
  identify :
      Text → Text → Bytes → Option ApplicationEvent → Bytes → Result (Bytes × ApplicationEvent)
  unfolding zeros16
  identify gid sender ciphertext (some event) plaintext = do
    encoded ← wire c event
    tuple ← context (c.application_id gid sender encoded) "encoding"
    id ← hash p tuple
    ok (id, event)
  identify gid sender ciphertext none plaintext = do
    tuple ← context (c.legacy_id gid ciphertext) "encoding"
    id ← hash p tuple
    ok (id, record { nonce = zeros16; counter = 0; content = plaintext; relation = none })

  -- `UPDATE transcript SET displayed=1 WHERE id=?1 AND EXISTS(..)`
  unfoldable pub is_shown : Text → Text → Tables → Bool
  is_shown gid id t =
      any
        (λ (e : MessageEvent).
          e.gid == gid
          && e.message_id == id
          && any (λ (r : Entry). r.id == e.transcript_id && r.displayed) t.transcript)
        t.message_events

  unfoldable pub mark_shown : ℕ → List Entry → List Entry
  mark_shown row [] = []
  mark_shown row (r ∷ rest) =
      (if r.id == row then record r { displayed = true } else r) ∷ mark_shown row rest

  unfoldable pub index_application :
      ℕ → Text → Text → Bytes → Option ApplicationEvent → Bytes → Tables → Result Tables
  unfolding identify is_shown mark_shown
  index_application row gid sender ciphertext event plaintext t = do
    identified ← identify gid sender ciphertext event plaintext
    let (id, e) = identified
    blob ← context (c.bytes_of e) "encoding"
    events ←
        insert_new (λ (o : MessageEvent). o.transcript_id == row)
          (record {
            transcript_id = row;
            gid = gid;
            message_id = id_text id;
            target = Option.map (λ r. id_text (target_of r)) e.relation;
            kind = kind_of e.relation;
            counter = e.counter;
            event = blob;
          })
          t.message_events
    let indexed : Tables = record t { message_events = events }
    let shown : Tables = record indexed { transcript = mark_shown row indexed.transcript }
    ok (if is_shown gid (id_text id) indexed then shown else indexed)

  -- `ApplicationEvent::new`: the counter behind the largest that this device has in the group. `nonce`
  -- is what the random source yields.
  own_counters : Text → Tables → List ℕ
  own_counters gid t =
      map (λ (e : MessageEvent). e.counter)
        (retain
          (λ (e : MessageEvent).
            e.gid == gid
            && any
                (λ (r : Entry).
                  r.id == e.transcript_id
                  && elim r.sender [ none ↦ false | some s ↦ s == own_name t ])
                t.transcript)
          t.message_events)

  unfoldable pub new_event :
      Option Bytes → Text → Bytes → Option Relation → Tables → Result ApplicationEvent
  unfolding own_counters
  new_event nonce gid content relation t = do
    ensure (leb (largest (own_counters gid t) + 1) u64_max) "application counter exhausted"
    random ← context nonce "message randomness"
    let event : ApplicationEvent = record {
      nonce = random;
      counter = largest (own_counters gid t) + 1;
      content = content;
      relation = relation;
    }
    validate_event event
    ok event

module _ (mc : ManifestCodec) where
  same_manifest : Bytes → Option Attachment → Bool
  same_manifest bytes none = true
  same_manifest bytes (some a) = a.manifest == bytes

  store_manifest : Text → Bytes → Manifest → Tables → Result Tables
  unfolding same_manifest
  store_manifest gid bytes m t = do
    let previous = find (λ (a : Attachment). a.gid == gid && a.object_id == m.id) t.attachments
    ensure (same_manifest bytes previous) invalid_message
    let row : Attachment = record { gid = gid; object_id = m.id; manifest = bytes }
    let added : Tables = record t { attachments = t.attachments ++ row ∷ [] }
    ok (elim previous [ some a ↦ t | none ↦ added ])

  index_decoded : Text → Bytes → Result (Option Manifest) → Tables → Result Tables
  unfolding store_manifest
  index_decoded gid bytes (err e) t = err invalid_message
  index_decoded gid bytes (ok none) t = ok t
  index_decoded gid bytes (ok (some m)) t = store_manifest gid bytes m t

  unfoldable pub index_attachment : Text → Bytes → Tables → Result Tables
  unfolding index_decoded
  index_attachment gid bytes t = index_decoded gid bytes (decode_manifest mc bytes) t
