-- ===== src/Client/Tables.antt =====
-- The tables of a device's store that messages pass through: those of identity.rs, receipts.rs,
-- relationships.rs, attachments.rs and revocation.rs. An `INTEGER PRIMARY KEY` that SQLite chooses is
-- one more than the largest there.
use epochgrid.Base.{
  ℕ, List, [], ◌∷◌, ◌++◌, max, any, bytes_eq, Bool, Text, Bytes, Option, Result, ok, ensure, ◌>>◌,
  not,
}
use epochgrid.Wire.{RegistrationPayload}
use epochgrid.Revocation.Local.{RevokedDevice}

-- groups.rs, `Group`, a row of `groups`.
pub record Group : Type 0 where
  pub name : Text
  pub gid : Text
  pub mls_id : Bytes

-- A row of `outbox`.
pub record Outgoing : Type 0 where
  pub id : ℕ
  pub subject : Text
  pub payload : Bytes
  pub sent : Bool

-- A row of `transcript`.
pub record Entry : Type 0 where
  pub id : ℕ
  pub gid : Text
  pub payload : Bytes
  pub sender : Option Text
  pub plaintext : Option Bytes
  pub outgoing : Bool
  pub stream_sequence : Option ℕ
  pub displayed : Bool

-- A row of `receipt_messages`.
pub record ReceiptMessage : Type 0 where
  pub transcript_id : ℕ
  pub gid : Text
  pub reference : Bytes

-- A row of `device_receipts`; the states 0 and 1 are delivered and read.
pub record DeviceReceipt : Type 0 where
  pub transcript_id : ℕ
  pub device : Text
  pub state : ℕ

-- A row of `message_events`.
pub record MessageEvent : Type 0 where
  pub transcript_id : ℕ
  pub gid : Text
  pub message_id : Text
  pub target : Option Text
  pub kind : ℕ
  pub counter : ℕ
  pub event : Bytes

-- A row of `attachments`.
pub record Attachment : Type 0 where
  pub gid : Text
  pub object_id : Text
  pub manifest : Bytes

-- A row of `group_coordinators`.
pub record Coordinator : Type 0 where
  pub gid : Text
  pub mls_key : Bytes

-- A leaf of a group's tree: its index, its signature key, its credential, and the text of the
-- credential's identity where it is a basic one.
pub record Leaf : Type 0 where
  pub index : ℕ
  pub signature_key : Bytes
  pub credential : Bytes
  pub identity : Option Text

-- What OpenMLS keeps of a group in the store. `ratchets` is all of it that the program does not read.
pub record MlsGroup : Type 0 where
  pub group_id : Bytes
  pub epoch : ℕ
  pub is_active : Bool
  pub own_leaf_index : ℕ
  pub members : List Leaf
  pub ratchets : Bytes

pub record Tables : Type 0 where
  pub registration : RegistrationPayload
  pub groups : List Group
  pub join_epochs : List (Text × ℕ)
  pub mls : List MlsGroup
  pub outbox : List Outgoing
  pub blocked : List ℕ
  pub received : List Bytes
  pub transcript : List Entry
  pub receipt_messages : List ReceiptMessage
  pub device_receipts : List DeviceReceipt
  pub message_events : List MessageEvent
  pub attachments : List Attachment
  pub coordinators : List Coordinator
  pub revoked : List RevokedDevice

abbrev pub largest : List ℕ → ℕ
largest [] = 0
largest (n ∷ rest) = max n (largest rest)

-- An `INSERT` under a key that no row may have yet.
abbrev pub insert_new {ℓ} : {A : Type ℓ} → (A → Bool) → A → List A → Result (List A)
insert_new same row rows = do
  ensure (not (any same rows)) "UNIQUE constraint failed"
  ok (rows ++ row ∷ [])
