-- ===== src/Client/Library.antt =====
-- OpenMLS and postcard as messaging.rs, epochs.rs, rekey.rs and authorization/delivery.rs call them,
-- and the session in which the store's methods run.
use epochgrid.Base.{ℕ, List, Bool, Bytes, Text, Option}
use epochgrid.Capacity.{Capacity}
use epochgrid.Store.{Sqlite}
use epochgrid.Client.Tables.{Tables, MlsGroup}

pub data ContentType : Type 0 where
  application proposal commit : ContentType

-- `ProtocolMessage`
pub record Protocol : Type 0 where
  pub group_id : Bytes
  pub epoch : ℕ
  pub content_type : ContentType

-- `MlsMessageIn`: whether its wire format is PrivateMessage, and `try_into_protocol_message`.
pub record MlsMessage : Type 0 where
  pub is_private : Bool
  pub protocol : Option Protocol

-- `StagedCommit`: the key and the credential of the new leaf of its update path, and its proposals.
pub record StagedCommit : Type 0 where
  pub update_path_leaf : Option (Bytes × Bytes)
  pub queued_proposals : ℕ
  pub add_proposals : ℕ
  pub removed : List ℕ
  pub staged : Bytes

pub data Content : Type 0 where
  application_message : Bytes → Content
  staged_commit : StagedCommit → Content
  other_content : Content

-- `ProcessedMessage`: the leaf of a sender that is a member, the identity of its credential where
-- that is a basic one in UTF-8, and the content.
pub record Processed : Type 0 where
  pub sender : Option ℕ
  pub identity : Option Text
  pub content : Content

-- `process_message`: a message with the group as it is stored behind it; a failure of storage, of the
-- library or of the group's state; or a message that is not valid.
pub data Outcome : Type 0 where
  processed : Processed → MlsGroup → Outcome
  failure invalid : Outcome

pub record Mls : Type 0 where
  pub deserialize : Bytes → Option MlsMessage
  pub process_message : MlsGroup → Bytes → Outcome
  pub merge_staged_commit : MlsGroup → StagedCommit → Option MlsGroup
  pub merge_pending_commit : MlsGroup → Option MlsGroup
  -- the group of this device alone, under an identifier
  pub new_group : Bytes → Option MlsGroup
  -- the ciphertext, and the group behind it
  pub create_message : MlsGroup → Bytes → Option (Bytes × MlsGroup)
  -- the Commit, whether there is a Welcome, and the group with the pending Commit
  pub remove_members : MlsGroup → List ℕ → Option (Bytes × Bool × MlsGroup)
  -- postcard's encoding of an `Intent`: the group, its epoch and its leaves
  pub intent_bytes : Text → MlsGroup → Option Bytes

-- A store in a call: SQLite, the budgets, whether the recovery budget is open, and whether SQLite is
-- in autocommit mode, which it is outside a transaction.
pub record Session : Type 0 where
  pub sqlite : Sqlite Tables
  pub capacity : Capacity
  pub recovery_budget : Bool
  pub is_autocommit : Bool
