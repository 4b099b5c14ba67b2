-- ===== src/Audit/Log.antt =====
-- The tables `audit_state` and `audit_events`, and `info`, `append` and `repair`.
use epochgrid.Base.{
  ℕ, ◌+◌, ◌-◌, List, [], ◌∷◌, ◌++◌, length, leb, ltb, ◌==◌, nat_eq, ◌&&◌, ◌||◌, not, Bool, Text,
  Option, Result, ok, err, context, ensure, ◌>>=◌, ◌>>◌, if◌then◌else◌, true, i64_max,
}
use epochgrid.Audit.Events.{Event, reference_of}

abbrev pub max_events : ℕ
max_events = 100000

abbrev pub max_bytes : ℕ
max_bytes = 33554432

abbrev pub reserve_events : ℕ
reserve_events = 1024

abbrev pub reserve_bytes : ℕ
reserve_bytes = 2097152

abbrev pub max_event_bytes : ℕ
max_event_bytes = 2048

pub record AuditLog : Type 0 where
  pub schema : ℕ  -- `MAX(version)` of `auth_migrations`
  pub store_id : Text
  pub next_sequence : ℕ
  pub retained_from : ℕ
  pub events : ℕ
  pub bytes : ℕ
  pub gaps : Bool
  pub policy_version : ℕ
  pub prune_through : ℕ
  pub pending : ℕ  -- the rows of `audit_pending`
  pub degraded : Bool
  pub log : List (ℕ × Text)

pub record Info : Type 0 where
  pub store_id : Text
  pub retained_from : ℕ
  pub upper_sequence : ℕ
  pub events : ℕ
  pub bytes : ℕ
  pub known_coverage_gaps : Bool
  pub policy_version : ℕ
  pub prune_through : ℕ
  pub unresolved_effects : ℕ
  pub degraded : Bool

pub record Record : Type 0 where
  pub version : ℕ
  pub store_id : Text
  pub sequence : ℕ
  pub process_instance : Text
  pub operation : Text
  pub wall_seconds : Option ℕ
  pub event : Event

-- What one call finds around it: OpenMLS's randomness (`opaque`, `instance`), the wall clock, the
-- random reference of an inserted row, and serde_json.
pub record Surroundings : Type 0 where
  pub operation : Result Text
  pub process_instance : Result Text
  pub wall_seconds : Option ℕ
  pub fresh_reference : Text
  pub json : Record → Option Text
  -- whether `SAVEPOINT audit_repair` succeeds, and the `UPDATE` behind a failed append
  pub savepoint : Bool
  pub marks : Bool

-- `next_sequence-1` is read as a `u64`, which a negative number is not.
unfoldable pub info : AuditLog → Result Info
info a = do
  ensure (a.schema == 3) "unsupported audit schema"
  ensure (ltb 0 a.next_sequence) "integer out of range"
  store ← reference_of a.store_id
  let upper : ℕ = a.next_sequence - 1
  ensure
      (ltb 0 a.retained_from
        && leb a.retained_from (upper + 1)
        && ltb upper i64_max
        && leb a.events max_events
        && leb a.bytes max_bytes
        && ltb 0 a.policy_version
        && leb a.prune_through upper
        && leb a.pending 256)
      "invalid audit metadata"
  ok (record {
    store_id = a.store_id;
    retained_from = a.retained_from;
    upper_sequence = upper;
    events = a.events;
    bytes = a.bytes;
    known_coverage_gaps = a.gaps;
    policy_version = a.policy_version;
    prune_through = a.prune_through;
    unresolved_effects = a.pending;
    degraded = a.degraded;
  })

abbrev pub degrade : AuditLog → AuditLog
degrade a = record a { gaps = true; degraded = true }

module _ (around : Surroundings) where
  -- The row that is written.
  unfoldable pub payload_of : Info → ℕ → Text → Event → Result Text
  payload_of state sequence operation event = do
    instance_id ← around.process_instance
    context
        (around.json (record {
          version = 1;
          store_id = state.store_id;
          sequence = sequence;
          process_instance = instance_id;
          operation = operation;
          wall_seconds = around.wall_seconds;
          event = event;
        }))
        "json"

  unfoldable pub append_operation : Event → Bool → Text → AuditLog → Result (ℕ × AuditLog)
  append_operation event reserve operation a = do
    checked ← reference_of operation
    state ← info a
    ensure (reserve || not state.degraded) "audit storage requires recovery"
    let sequence : ℕ = state.upper_sequence + 1
    ensure (ltb sequence i64_max) "audit sequence exhausted"
    payload ← payload_of state sequence operation event
    ensure (leb (length payload) max_event_bytes) "audit event exceeds limit"
    ensure
        (ltb state.events (max_events - (if reserve then 0 else reserve_events))
          && leb (state.bytes + length payload)
              (max_bytes - (if reserve then 0 else reserve_bytes)))
        "audit capacity exhausted"
    let after : AuditLog = record a {
      next_sequence = sequence + 1;
      events = a.events + 1;
      bytes = a.bytes + length payload;
      log = a.log ++ (sequence, payload) ∷ [];
    }
    ok (sequence, after)

  unfoldable pub append : Event → Bool → AuditLog → Result (ℕ × AuditLog)
  append event reserve a = do
    operation ← around.operation
    append_operation event reserve operation a

  unfoldable pub mark_gap : AuditLog → AuditLog
  mark_gap a = if around.marks then degrade a else a

  -- `fits` is `check_database` of the registry with that log. What was done behind a savepoint is
  -- undone by `ROLLBACK TO`.
  unfoldable pub repair : (AuditLog → Result (Unit {0})) → Event → AuditLog → AuditLog
  unfolding mark_gap
  repair fits event a = if not around.savepoint then a else elim (append event true a) [
    | err e ↦ mark_gap a
    | ok done ↦ elim (fits done.1) [ err e ↦ mark_gap a | ok _ ↦ done.1 ]
  ]
