-- ===== src/Client/Transcript.antt =====
-- The transcript as it is read: the queries of history.rs, what is marked as displayed, and the
-- listing of a conversation in relationships.rs.
use epochgrid.Base.{
  ℕ, List, [], ◌∷◌, length, any, all, find, map, retain, leb, ltb, ◌==◌, nat_eq, bytes_eq, ◌&&◌,
  ◌||◌, not, Bool, true, false, Bytes, Text, Option, none, some, Result, ok, err, context, ensure,
  ◌>>=◌, ◌>>◌, starts_with, if◌then◌else◌,
}
use mathlib.Core.Option
use epochgrid.Base.Hex.{is_hex_lower}
use epochgrid.Attachments.{ManifestCodec}
use epochgrid.Conversation.Event.{EventCodec, parse_id}
use epochgrid.Conversation.Projection.{Joined, join, application, projected, sequence_leb}
use epochgrid.Client.Tables.{Tables, Entry, MessageEvent}
use epochgrid.Client.Groups.{group}
use epochgrid.Client.History.{Store, Delivery, DeliveryState, rejected, is_of}

pub record HistoryEntry : Type 0 where
  pub id : ℕ
  pub sequence : Option ℕ
  pub sender : Option Text
  pub plaintext : Option Bytes
  pub outgoing : Bool

entry : Entry → HistoryEntry
entry e = record {
  id = e.id;
  sequence = e.stream_sequence;
  sender = e.sender;
  plaintext = e.plaintext;
  outgoing = e.outgoing;
}

-- `ORDER BY stream_sequence IS NULL,stream_sequence,id`
insert_entry_row : Entry → List Entry → List Entry
insert_entry_row a [] = a ∷ []
insert_entry_row a (b ∷ rest) =
    let later = insert_entry_row a rest in
    if sequence_leb a.stream_sequence a.id b.stream_sequence b.id then a ∷ b ∷ rest else b ∷ later

order_entries : List Entry → List Entry
unfolding insert_entry_row
order_entries [] = []
order_entries (a ∷ rest) = insert_entry_row a (order_entries rest)

-- The last rows in that order, which are the first in the opposite one.
take_last : ℕ → List Entry → List Entry
take_last limit [] = []
take_last limit (a ∷ rest) =
    let later = take_last limit rest in if leb (length (a ∷ rest)) limit then a ∷ rest else later

-- `?2 IS NULL OR stream_sequence < ?2`
is_before : Option ℕ → Option ℕ → Bool
is_before none place = true
is_before (some n) none = false
is_before (some n) (some place) = ltb place n

unfoldable pub history : Text → ℕ → Option ℕ → Tables → Result (List HistoryEntry)
unfolding entry order_entries take_last is_before
history name limit before t = do
  ensure (leb 1 limit && leb limit 1000) "history limit must be 1–1000"
  g ← group name t
  let rows =
      retain (λ (e : Entry). e.gid == g.gid && is_before before e.stream_sequence) t.transcript
  ok (map entry (take_last limit (order_entries rows)))

has_text : Option Bytes → Bool
has_text none = false
has_text (some b) = true

is_unread : Text → Entry → Bool
unfolding has_text
is_unread gid e = e.gid == gid && not e.outgoing && has_text e.plaintext && not e.displayed

first_of : List Entry → Option HistoryEntry
unfolding entry
first_of [] = none
first_of (e ∷ rest) = some (entry e)

unfoldable pub unread : Text → Tables → Result (Option HistoryEntry)
unfolding is_unread order_entries first_of
unread name t = do
  g ← group name t
  ok (first_of (order_entries (retain (is_unread g.gid) t.transcript)))

unfoldable pub unread_count : Text → Tables → Result ℕ
unfolding is_unread
unread_count name t = do g ← group name t; ok (length (retain (is_unread g.gid) t.transcript))

-- Two rows of the transcript that hold one message.
is_copy : List MessageEvent → ℕ → ℕ → Bool
is_copy events id row =
    any
      (λ (original : MessageEvent).
        original.transcript_id == id
        && any
            (λ (other : MessageEvent).
              other.transcript_id == row
              && original.gid == other.gid
              && original.message_id == other.message_id)
            events)
      events

unfoldable pub mark_displayed : ℕ → Tables → Tables
unfolding is_copy
mark_displayed id t = record t {
  transcript =
      map
        (λ (e : Entry).
          if not e.displayed && (e.id == id || is_copy t.message_events id e.id)
          then record e { displayed = true }
          else e)
        t.transcript;
}

is_rejected : DeliveryState → Bool
is_rejected rejected = true
is_rejected _ = false

unfoldable pub rejected_history : Text → Store → Result ℕ
unfolding is_rejected
rejected_history name s = do
  g ← group name s.tables
  ok (length (retain (λ (d : Delivery). is_of g d && is_rejected d.state) s.deliveries))

unfoldable pub application_id : ℕ → Tables → Option Text
application_id row t =
    Option.map (λ (e : MessageEvent). e.message_id)
      (find (λ (e : MessageEvent). e.transcript_id == row) t.message_events)

-- `SELECT DISTINCT message_id .. LIKE ..`; an identifier has no upper case.
matching : Text → Text → List MessageEvent → List Text
matching gid start [] = []
matching gid start (e ∷ rest) =
    let later = matching gid start rest in
    if e.gid == gid && starts_with start e.message_id && not (any (λ id. id == e.message_id) later)
    then e.message_id ∷ later
    else later

only_id : List Text → Result Bytes
only_id (id ∷ []) = parse_id id
only_id _ = err "unknown or ambiguous message ID"

unfoldable pub resolve_message : Text → Text → Tables → Result Bytes
unfolding matching only_id
resolve_message name start t = do
  ensure (leb 8 (length start) && leb (length start) 64 && all is_hex_lower start)
      "use at least eight lowercase hexadecimal ID characters"
  g ← group name t
  only_id (matching g.gid start t.message_events)

pub record ConversationEntry : Type 0 where
  pub entry : HistoryEntry
  pub message_id : Option Text

module _ (c : EventCodec) (mc : ManifestCodec) where
  -- A row of the history: left out where it is not the first copy of its message.
  show_entry : List Joined → HistoryEntry → Option Text → Result (Option ConversationEntry)
  show_entry rows e none = ok (some (record { entry = e; message_id = none }))
  show_entry rows e (some id) = do
    bytes ← parse_id id
    found ← application c rows bytes
    event ← context found "event index missing"
    if event.row == e.id
        then (do
          shown ← projected c mc rows event
          ok (some (record { entry = record e { plaintext = some shown }; message_id = some id })))
        else ok none

  show_all : List Joined → Tables → List HistoryEntry → Result (List ConversationEntry)
  unfolding show_entry
  show_all rows t [] = ok []
  show_all rows t (e ∷ rest) = do
    first ← show_entry rows e (application_id e.id t)
    later ← show_all rows t rest
    ok (elim first [ none ↦ later | some shown ↦ shown ∷ later ])

  unfoldable pub conversation : Text → ℕ → Option ℕ → Tables → Result (List ConversationEntry)
  unfolding show_all
  conversation name limit before t = do
    g ← group name t
    entries ← history name limit before t
    show_all (join g.gid t.transcript t.message_events) t entries
