-- ===== src/Wire/Messages.antt =====
-- The data types of wire.rs, and those of the other modules that it carries: transparency.rs,
-- revocation.rs, authorization.rs and authorization/delivery.rs.
use epochgrid.Base.{ℕ, List, Option, Bytes, Text}

pub record RegistrationPayload : Type 0 where
  pub protocol_version : ℕ
  pub user_id : Text
  pub device_id : Text
  pub nats_public_key : Text
  pub mls_credential : Bytes
  pub mls_key_package : Bytes
  pub generation : ℕ
  pub created_at : ℕ  -- an `i64`, of which only `> 0` is asked; a negative value stands as 0

pub record DeviceRegistration : Type 0 where
  pub payload : RegistrationPayload
  pub signature : Bytes

pub record Checkpoint : Type 0 where
  pub version : ℕ
  pub size : ℕ
  pub root : Bytes
  pub signer : Text
  pub signature : Bytes

pub record Snapshot : Type 0 where
  pub checkpoint : Checkpoint
  pub entries : List DeviceRegistration

pub record RevokeRequest : Type 0 where
  pub version : ℕ
  pub user : Text
  pub device : Text
  pub nkey : Text
  pub author : Text
  pub signature : Bytes

pub record Revocation : Type 0 where
  pub request : RevokeRequest
  pub chat_cutoff : ℕ

pub record RevocationLog : Type 0 where
  pub checkpoint : Checkpoint
  pub entries : List Revocation

pub record Member : Type 0 where
  pub nkey : Text
  pub leaf : ℕ

pub record PolicyUpdate : Type 0 where
  pub version : ℕ
  pub gid : Text
  pub expected_generation : ℕ
  pub epoch : ℕ
  pub signer : Text
  pub members : List Member

pub record SignedPolicy : Type 0 where
  pub update : PolicyUpdate
  pub signature : Bytes

pub record PolicyState : Type 0 where
  pub generation : ℕ
  pub epoch : ℕ
  pub coordinator : Text
  pub members : List Member

pub record WelcomeRelay : Type 0 where
  pub version : ℕ
  pub gid : Text
  pub epoch : ℕ
  pub recipient : Text
  pub sender : Text
  pub id : ℕ  -- an `i64`, of which only `> 0` is asked
  pub payload : Bytes
  pub signature : Bytes

pub data Body : Type 0 where
  register : DeviceRegistration → Body
  registered rejected : Body
  lookup : Text → Text → Body
  found : DeviceRegistration → Body
  not_found : Body
  claim_key_package : Text → Text → Text → Body
  welcome : Bytes → Body
  list_devices : Text → Body
  devices : List DeviceRegistration → Body
  audit : Body
  audit_log : Snapshot → Body
  registration_audit revocation_audit : Body
  revocation_log : RevocationLog → Body
  revoke : RevokeRequest → Body
  revoked : Body
  enroll : Text → DeviceRegistration → Body
  group_policy : SignedPolicy → Body
  policy_applied : ℕ → Body
  policy_query : Text → Body
  policy_state : Option PolicyState → Body
  relay_welcome : WelcomeRelay → Body
  welcome_relayed : Body

pub record Envelope : Type 0 where
  pub version : ℕ
  pub body : Body
