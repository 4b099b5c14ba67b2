-- ===== src/Client/History.antt =====
-- history.rs: the ciphertexts of the CHAT stream that are staged, and their processing in the order of
-- the stream.
pub mod Progress
pub mod Staging
pub mod Processed
use epochgrid.Base.{
  ℕ, zero, suc, ◌+◌, List, [], ◌∷◌, ◌++◌, length, find, map, any, retain, leb, ltb, ◌==◌, nat_eq,
  bytes_eq, ◌&&◌, ◌||◌, not, Bool, true, false, Bytes, Text, text, Option, none, some, Result, ok,
  err, context, ensure, ◌>>=◌, ◌>>◌, if◌then◌else◌, i64_max, String,
}
use package.text.Mathlib.Text.{◌==◌ as str_eq}
use epochgrid.Wire.{Primitives, max_wire}
use epochgrid.Capacity.{Capacity, check_database}
use epochgrid.Store.{Sqlite, transaction}
use epochgrid.Attachments.{ManifestCodec}
use epochgrid.Conversation.Event.{EventCodec}
use epochgrid.Client.Tables.{Tables, Group, Entry, Outgoing, MessageEvent}
use epochgrid.Client.Library.{Mls}
use epochgrid.Client.Groups.{group, subject_of}
use epochgrid.Client.Rekey.{invalid_message}
use epochgrid.Client.Messaging.{decrypt_inner, next_row, DecryptedMessage}
use epochgrid.Client.Epochs.{before_join, process_handshake}

pub data DeliveryState : Type 0 where
  pending done rejected : DeliveryState

-- A row of `chat_deliveries`; `done` is 'processed'.
pub record Delivery : Type 0 where
  pub sequence : ℕ
  pub subject : Text
  pub payload : Bytes
  pub state : DeliveryState

-- The store: the staged deliveries and the other tables.
pub record Store : Type 0 where
  pub deliveries : List Delivery
  pub tables : Tables

abbrev pub is_pending : DeliveryState → Bool
is_pending pending = true
is_pending _ = false

-- The rows in the order of their sequence, which is the primary key.
unfoldable pub insert_delivery : Delivery → List Delivery → List Delivery
insert_delivery d [] = d ∷ []
insert_delivery d (e ∷ rest) =
    let later = insert_delivery d rest in
    if ltb d.sequence e.sequence then d ∷ e ∷ rest else e ∷ later

unfoldable pub stage_row :
    Sqlite Store
    → Capacity
    → ℕ
    → Text
    → Bytes
    → Option Delivery
    → Store
    → Result ((Unit {0}) × Store)
stage_row sql capacity sequence subject payload (some old) s = do
  ensure (old.subject == subject && old.payload == payload)
      "CHAT sequence changed: possible stream reset; refusing to overwrite local history"
  ok (tt, s)
stage_row sql capacity sequence subject payload none s = do
  check_database capacity false (sql.page_count s) (sql.page_size s)
  let row : Delivery = record {
    sequence = sequence;
    subject = subject;
    payload = payload;
    state = pending;
  }
  ok (tt, record s { deliveries = insert_delivery row s.deliveries })

abbrev pub at : ℕ → List Delivery → Option Delivery
at sequence rows = find (λ (d : Delivery). d.sequence == sequence) rows

unfoldable pub stage_chat :
    Sqlite Store → Capacity → ℕ → Text → Bytes → Store → Result (Unit {0}) × Store
unfolding stage_row
stage_chat sql capacity sequence subject payload s =
    if not (ltb 0 sequence && leb sequence i64_max)
    then (err "invalid CHAT sequence", s)
    else if not (leb (length payload) max_wire && leb (length subject) 256)
    then (err "invalid CHAT delivery size", s)
    else transaction sql capacity false
        (λ (s' : Store).
          stage_row sql capacity sequence subject payload (at sequence s'.deliveries) s')
        s

-- `UPDATE chat_deliveries SET state=.. WHERE sequence=?1`
unfoldable pub set_state : ℕ → DeliveryState → List Delivery → List Delivery
set_state sequence state [] = []
set_state sequence state (d ∷ rest) =
    (if d.sequence == sequence then record d { state = state } else d)
    ∷ set_state sequence state rest

abbrev pub is_of : Group → Delivery → Bool
is_of g d =
    d.subject == subject_of g (text "message") || d.subject == subject_of g (text "handshake")

abbrev pub next_pending : Group → List Delivery → Option Delivery
next_pending g rows = find (λ (d : Delivery). is_of g d && is_pending d.state) rows

-- `CASE WHEN stream_sequence IS NULL OR stream_sequence>?1 THEN ?1 ELSE stream_sequence END`
abbrev pub earliest : ℕ → Option ℕ → ℕ
earliest sequence none = sequence
earliest sequence (some old) = if ltb sequence old then sequence else old

unfoldable pub set_sequence : ℕ → Text → Bytes → List Entry → List Entry
set_sequence sequence gid payload [] = []
set_sequence sequence gid payload (e ∷ rest) =
    (if e.gid == gid && e.payload == payload
      then record e { stream_sequence = some (earliest sequence e.stream_sequence) }
      else e)
    ∷ set_sequence sequence gid payload rest

-- `stream_sequence INTEGER UNIQUE`: another row has the place that a row would get.
unfoldable pub is_taken : ℕ → Text → Bytes → List Entry → Bool
is_taken sequence gid payload rows =
    any
      (λ (e : Entry).
        e.gid == gid
        && e.payload == payload
        && any
            (λ (o : Entry). not (o.payload == payload) && elim o.stream_sequence [
              | none ↦ false
              | some place ↦ place == earliest sequence e.stream_sequence
            ])
            rows)
      rows

-- `INSERT OR IGNORE INTO transcript(gid,payload,outgoing)`: the row of a message whose plaintext is
-- not there, and whether it was inserted.
unfoldable pub insert_gap : Text → Bytes → Tables → Bool × Tables
insert_gap gid payload t =
    let row : Entry = record {
      id = next_row t.transcript;
      gid = gid;
      payload = payload;
      sender = none;
      plaintext = none;
      outgoing = any (λ (o : Outgoing). o.payload == payload) t.outbox;
      stream_sequence = none;
      displayed = false;
    } in
    if any (λ (e : Entry). e.payload == payload) t.transcript
    then (false, t)
    else (true, record t { transcript = t.transcript ++ row ∷ [] })

pub record SyncReport : Type 0 where
  pub staged : ℕ
  pub decrypted : ℕ
  pub rejected : ℕ
  pub unavailable : ℕ

abbrev pub count_of : Bool → ℕ
count_of true = 1
count_of false = 0

abbrev pub is_decrypted : Option DecryptedMessage → Bool
is_decrypted none = false
is_decrypted (some m) = true

abbrev pub add_row : Bool × Bool → SyncReport → SyncReport
add_row (d, u) r = record r {
  decrypted = r.decrypted + count_of d;
  unavailable = r.unavailable + count_of u;
}

module _ (p : Primitives) (c : EventCodec) (mc : ManifestCodec) (mls : Mls) where
  -- A Commit, or a message of an epoch before this device joined.
  handshake : Text → Bool → Delivery → Tables → Result ((Bool × Bool) × Tables)
  handshake name true d t = ok ((false, false), t)
  handshake name false d t = do
    after ← process_handshake mls name d.payload d.sequence t
    ok ((false, false), after)

  chat : Text → Group → Delivery → Tables → Result ((Bool × Bool) × Tables)
  chat name g d t = do
    decrypted ← decrypt_inner p c mc mls name d.payload t
    let (message, after) = decrypted
    let (inserted, filled) = insert_gap g.gid d.payload after
    ensure (not (is_taken d.sequence g.gid d.payload filled.transcript)) "UNIQUE constraint failed"
    ok (
      (is_decrypted message, inserted),
      record filled { transcript = set_sequence d.sequence g.gid d.payload filled.transcript },
    )

  -- What is done of a delivery to the other tables.
  unfoldable pub process_row : Text → Group → Delivery → Tables → Result ((Bool × Bool) × Tables)
  unfolding handshake chat
  process_row name g d t = do
    before ← before_join mls name d.payload t
    if before || d.subject == subject_of g (text "handshake")
        then handshake name before d t
        else chat name g d t

  -- The transaction of a row.
  unfoldable pub process_delivery : Text → Group → Delivery → Store → Result ((Bool × Bool) × Store)
  process_delivery name g d s = do
    finished ← process_row name g d s.tables
    let (flags, tables) = finished
    ok (flags, record { deliveries = set_state d.sequence done s.deliveries; tables = tables })

  module _ (sql : Sqlite Store) (capacity : Capacity) where
    -- The loop of `process_history`, on fuel.
    unfoldable pub process_loop : ℕ → Text → Group → SyncReport → Store → Result SyncReport × Store
    process_loop zero name g report s = (err "out of fuel", s)
    process_loop (suc fuel) name g report s = elim (next_pending g s.deliveries) [
      | none ↦ (ok report, s)
      | some d ↦
          let (result, s') = transaction sql capacity false (process_delivery name g d) s in
          elim result [
            | ok flags ↦ process_loop fuel name g (add_row flags report) s'
            | err e ↦ elim (str_eq e invalid_message) [
              | true ↦
                  process_loop fuel name g (record report { rejected = report.rejected + 1 })
                    (record s' { deliveries = set_state d.sequence rejected s'.deliveries })
              | false ↦ (err e, s')
            ]
          ]
    ]

    unfoldable pub process_history : Text → Store → Result SyncReport × Store
    unfolding process_loop
    process_history name s = elim (group name s.tables) [
      | err e ↦ (err e, s)
      | ok g ↦
          process_loop (suc (length s.deliveries)) name g
            (record { staged = 0; decrypted = 0; rejected = 0; unavailable = 0 }) s
    ]
