-- ===== src/Audit/Events.antt =====
-- `Event` of audit.rs and the opaque references in it.
use epochgrid.Base.{
  ℕ, Bool, Text, Option, none, length, all, leb, ◌==◌, nat_eq, ◌&&◌, ◌||◌, is_ascii_digit, Result,
  ok, ensure, ◌>>◌,
}

pub data Kind : Type 0 where
  token_issued device_enrolled device_activated device_revoked policy_committed policy_rejected :
      Kind
  admission response_constructed reconciliation registration_publication : Kind
  revocation_publication authority_started worker_session_started worker_session_ended : Kind
  admission_gate observation_loss storage_recovered export prune retention_changed : Kind
  denial_summary : Kind

pub data Stage : Type 0 where
  committed_stage intent_stage result_stage observation_stage : Stage

pub data Outcome : Type 0 where
  succeeded failed unknown denied : Outcome

pub data Actor : Type 0 where
  local_operator verified_device bound_worker authority unverified_actor : Actor

pub data Reason : Type 0 where
  verified_reason rejected_reason external_effect local_artifact explicit_prune : Reason
  coverage_uncertain idempotent_retry : Reason

pub record Event : Type 0 where
  pub kind : Kind
  pub stage : Stage
  pub outcome : Outcome
  pub reason : Reason
  pub actor : Actor
  pub count : ℕ
  pub actor_reference : Option Text
  pub target_reference : Option Text
  pub generation : Option ℕ
  pub window_seconds : Option ℕ
  pub sequence_boundary : Option ℕ

-- `Event::committed`
unfoldable pub committed : Kind → Event
committed kind = record {
  kind = kind;
  stage = committed_stage;
  outcome = succeeded;
  reason = verified_reason;
  actor = authority;
  count = 1;
  actor_reference = none;
  target_reference = none;
  generation = none;
  window_seconds = none;
  sequence_boundary = none;
}

-- A lowercase hexadecimal digit, as `Reference::try_from` and `validate_gid` ask for.
abbrev pub is_hex_byte : ℕ → Bool
is_hex_byte b = is_ascii_digit b || leb b'a' b && leb b b'f'

-- `Reference::try_from`
unfoldable pub reference_of : Text → Result Text
reference_of value = do
  ensure (length value == 32 && all is_hex_byte value) "invalid audit reference"
  ok value
