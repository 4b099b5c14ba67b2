-- ===== src/Client/Receipts.antt =====
-- receipts.rs: which messages a device asks about, what it claims of a message that it has received,
-- and the claims of other devices about its own messages.
pub mod Claims
use epochgrid.Base.{
  ℕ, List, [], ◌∷◌, ◌++◌, take, find, map, any, retain, leb, ltb, ◌==◌, nat_eq, bytes_eq, ◌&&◌,
  ◌||◌, not, Bool, true, false, Bytes, Text, text, Option, none, some, Result, ok, err, context,
  ensure, ◌>>=◌, ◌>>◌, if◌then◌else◌,
}
use epochgrid.Ephemeral.Typing.{
  ReceiptState, delivered, read, EphemeralEvent, typing_started, typing_stopped, receipt_request,
  receipt, AuthenticatedEvent,
}
use epochgrid.Conversation.Ordered.{text_leb}
use epochgrid.Client.Tables.{Tables, Group, MlsGroup, Entry, ReceiptMessage, DeviceReceipt}
use epochgrid.Client.Groups.{group, load_group}
use epochgrid.Client.Rekey.{ensure_can_send}

abbrev pub entry_at : ℕ → List Entry → Option Entry
entry_at id rows = find (λ (e : Entry). e.id == id) rows

-- `receipt_messages r JOIN transcript t ON t.id=r.transcript_id`
unfoldable pub receipt_join : List ReceiptMessage → List Entry → List (ReceiptMessage × Entry)
receipt_join [] rows = []
receipt_join (r ∷ rest) rows = elim (entry_at r.transcript_id rows) [
  | none ↦ receipt_join rest rows
  | some e ↦ (r, e) ∷ receipt_join rest rows
]

abbrev is_text : Option Text → Text → Bool
is_text none t = false
is_text (some s) t = s == t

abbrev is_there {ℓ} : {A : Type ℓ} → Option A → Bool
is_there none = false
is_there (some a) = true

-- `ORDER BY t.id DESC`
insert_desc : ReceiptMessage × Entry → List (ReceiptMessage × Entry) → List (ReceiptMessage × Entry)
insert_desc a [] = a ∷ []
insert_desc a (b ∷ rest) =
    let later = insert_desc a rest in if leb b.1.id a.1.id then a ∷ b ∷ rest else b ∷ later

order_desc : List (ReceiptMessage × Entry) → List (ReceiptMessage × Entry)
unfolding insert_desc
order_desc [] = []
order_desc (a ∷ rest) = insert_desc a (order_desc rest)

unfoldable pub receipt_requests : Text → ℕ → Tables → Result (List EphemeralEvent)
unfolding order_desc receipt_join
receipt_requests name limit t = do
  ensure (leb 1 limit && leb limit 100) "receipt request limit must be 1–100"
  g ← group name t
  let sent =
      retain
        (λ (j : ReceiptMessage × Entry).
          j.0.gid == g.gid && j.1.outgoing && is_there j.1.stream_sequence)
        (receipt_join t.receipt_messages t.transcript)
  ok (
      map (λ (j : ReceiptMessage × Entry). receipt_request j.0.reference)
        (take limit (order_desc sent)))

-- A message that was received from the sender and decrypted.
abbrev pub is_received : Text → Bytes → Text → ReceiptMessage × Entry → Bool
is_received gid message sender (r, e) =
    r.gid == gid
    && r.reference == message
    && not e.outgoing
    && is_there e.plaintext
    && is_text e.sender sender

abbrev pub is_own : Text → Bytes → ReceiptMessage × Entry → Bool
is_own gid message (r, e) = r.gid == gid && r.reference == message && e.outgoing

abbrev pub code : ReceiptState → ℕ
code delivered = 0
code read = 1

-- `INSERT .. ON CONFLICT(transcript_id,device) DO UPDATE .. WHERE excluded.state > device_receipts.state`
unfoldable pub claim : ℕ → Text → ℕ → List DeviceReceipt → List DeviceReceipt
claim id device state [] = record { transcript_id = id; device = device; state = state } ∷ []
claim id device state (r ∷ rest) =
    let later = claim id device state rest in
    if r.transcript_id == id && r.device == device
    then (if ltb r.state state then record r { state = state } else r) ∷ rest
    else r ∷ later

answer : Bytes → Option (ReceiptMessage × Entry) → Option EphemeralEvent
answer message none = none
answer message (some (r, e)) = some (receipt message (if e.displayed then read else delivered))

unfoldable pub accept_claim :
    Text → ReceiptState → Option (ReceiptMessage × Entry) → Tables → Tables
accept_claim sender state none t = t
accept_claim sender state (some (r, e)) t = record t {
  device_receipts = claim e.id sender (code state) t.device_receipts;
}

unfoldable pub process_event :
    Text → AuthenticatedEvent → EphemeralEvent → Tables → Option EphemeralEvent × Tables
unfolding answer accept_claim receipt_join claim
process_event gid event (receipt_request message) t = (
  answer message
      (find (is_received gid message event.sender) (receipt_join t.receipt_messages t.transcript)),
  t,
)
process_event gid event (receipt message state) t = (
  none,
  accept_claim event.sender state
      (find (is_own gid message) (receipt_join t.receipt_messages t.transcript)) t,
)
process_event gid event typing_started t = (none, t)
process_event gid event typing_stopped t = (none, t)

-- `public_key` is that of the device's NATS key, and `now` the clock.
unfoldable pub process_receipt :
    Text → ℕ → Text → AuthenticatedEvent → Tables → Result (Option EphemeralEvent × Tables)
unfolding process_event
process_receipt public_key now name event t = do
  g ← group name t
  m ← load_group g t
  ensure_can_send public_key t m
  ensure (ltb now event.expires) "expired receipt event"
  ensure (event.gid == g.gid && event.epoch == m.epoch) "receipt group or epoch changed"
  ok (process_event g.gid event event.event t)

pub data Submission : Type 0 where
  submitted server_accepted : Submission

pub record MessageStatus : Type 0 where
  pub submission : Submission
  pub devices : List (Text × ReceiptState)

state_of_code : ℕ → ReceiptState
state_of_code n = if n == 1 then read else delivered

-- `ORDER BY device`
insert_device : DeviceReceipt → List DeviceReceipt → List DeviceReceipt
insert_device a [] = a ∷ []
insert_device a (b ∷ rest) =
    let later = insert_device a rest in
    if text_leb a.device b.device then a ∷ b ∷ rest else b ∷ later

order_devices : List DeviceReceipt → List DeviceReceipt
unfolding insert_device
order_devices [] = []
order_devices (a ∷ rest) = insert_device a (order_devices rest)

unfoldable pub message_status : ℕ → Tables → Result MessageStatus
unfolding state_of_code order_devices
message_status id t = do
  e ← context (find (λ (e : Entry). e.id == id && e.outgoing) t.transcript) "Query returned no rows"
  ok (record {
    submission = if is_there e.stream_sequence then server_accepted else submitted;
    devices =
        map (λ (r : DeviceReceipt). (r.device, state_of_code r.state))
          (order_devices (retain (λ (r : DeviceReceipt). r.transcript_id == id) t.device_receipts));
  })

-- `summary`
abbrev shown : ReceiptState → Text
shown delivered = text "delivered"
shown read = text "read"

summary_of : List (Text × ReceiptState) → Text
summary_of [] = []
summary_of ((device, state) ∷ rest) =
    text "; " ++ device ++ text ": " ++ shown state ++ summary_of rest

unfoldable pub summary : MessageStatus → Text
unfolding summary_of
summary s =
    elim s.submission [ submitted ↦ text "submitted" | server_accepted ↦ text "server accepted" ]
    ++ summary_of s.devices
