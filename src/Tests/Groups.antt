-- ===== src/Tests/Groups.antt =====
-- The registry: its audit log, the policy updates of a group and a revocation, at a registry of one
-- user with two devices.
use epochgrid.Base.{
  ℕ, List, [], ◌∷◌, any, true, false, Text, text, Bytes, none, some, Result, ok, err, String, ◌≡◌,
  refl, arith, ◌⊎◌, ℕ_discrete, bytes_discrete,
}
use epochgrid.Wire.{PolicyUpdate, SignedPolicy, Member, validate_id}
use epochgrid.Wire
use epochgrid.Identity.{verify_signature, signing_bytes}
use epochgrid.Capacity.{default, check_database}
use epochgrid.Capacity.Bucket.{new, allow, refill}
use epochgrid.Store.{Sqlite}
use epochgrid.Audit.Events.{committed, device_revoked, reference_of}
use epochgrid.Audit.Log.{
  AuditLog, Record, Surroundings, info, payload_of, append_operation, append, repair,
}
use epochgrid.Audit.Bounded.{IsSound, Grown, append-IsSound}
use epochgrid.Audit.Repaired.{Repaired, repair-IsSound}
use epochgrid.Registry.Tables.{Registry, Device, check_registry, maximum, within}
use epochgrid.Registry.Admission.{authorize, user_id_of}
use epochgrid.Registry.Revoke.{
  is_active, revoke, revoke_active, check_and_commit, audit_revocation, revoke_rows, revoke_device,
  without_key, successor, lowest, reference_or_none,
}
use epochgrid.Registry.Revoke.Led.{Removed, revoke_lem}
use epochgrid.Authorization.Policy.{
  AuthRegistry, apply_policy_inner, policy_bytes, policy_checks, charge, policy_transaction,
  policy_action, check_members, check_current, answer_policy, replace_policy, record_policy,
  write_policy, insert_members, insert_member, upsert_group, reducing, device_reference,
  group_reference, settle, validate_gid,
}
use epochgrid.Authorization.Applied.{Applied, apply_policy_inner_lem}
use epochgrid.Authorization.Generations.{Grows, updates, updates-Grows}
use epochgrid.Tests.Fixture.{fixture}

abbrev pub sql : Sqlite Registry
sql = record { page_count = λ s. 1; page_size = λ s. 4096; commits = λ s. true }

abbrev pub reference : Text
reference = text "aaaaaaaaaaaaaaaaaaaaaaaaaaaaaaaa"

abbrev pub around : Surroundings
around = record {
  operation = ok (text "bbbbbbbbbbbbbbbbbbbbbbbbbbbbbbbb");
  process_instance = ok (text "cccccccccccccccccccccccccccccccc");
  wall_seconds = none;
  fresh_reference = text "dddddddddddddddddddddddddddddddd";
  json = λ (r : Record). some (r.sequence ∷ []);
  savepoint = true;
  marks = true;
}

abbrev empty_audit : AuditLog
empty_audit = record {
  schema = 3;
  store_id = reference;
  next_sequence = 1;
  retained_from = 1;
  events = 0;
  bytes = 0;
  gaps = false;
  policy_version = 1;
  prune_through = 0;
  pending = 0;
  degraded = false;
  log = [];
}

empty_IsSound : IsSound empty_audit
empty_IsSound = record {
  numbered = tt;
  newest = refl;
  events_count = refl;
  bytes_count = refl;
  few = omega arith;
  small = omega arith;
}

abbrev one_audit : AuditLog
one_audit = record empty_audit { next_sequence = 2; events = 1; bytes = 1; log = (1, 1 ∷ []) ∷ [] }

one_appended : append around (committed device_revoked) false empty_audit ≡ ok (1, one_audit)
unfolding append append_operation reference_of info payload_of committed ℕ_discrete
one_appended = refl

append-IsSound_example : Grown empty_audit false 1 one_audit × IsSound one_audit
append-IsSound_example =
    append-IsSound around (committed device_revoked) false empty_audit 1 one_audit empty_IsSound
      one_appended

abbrev fits : AuditLog → Result (Unit {0})
fits a = ok tt

repair-IsSound_example :
    IsSound (repair around fits (committed device_revoked) empty_audit)
    × Repaired around fits
        (committed device_revoked)
        empty_audit
        (repair around fits (committed device_revoked) empty_audit)
repair-IsSound_example =
    repair-IsSound around fits (committed device_revoked) empty_audit empty_IsSound

abbrev pub device : Text → Text → Bytes → Device
device key name registration = record {
  nkey = key;
  user_id = text "egusr-aaaaaaaaaaaaaaaa";
  device_id = name;
  registration = registration;
  ready = true;
  revoked = false;
  authorization_generation = 1;
  audit_ref = reference;
}

abbrev pub registry : Registry
registry = record {
  users = record { id = text "egusr-aaaaaaaaaaaaaaaa"; enabled = true; audit_ref = reference } ∷ [];
  bindings = [];
  tokens = [];
  devices =
      device (text "UA") (text "laptop") (1 ∷ 0 ∷ 0 ∷ [])
      ∷ device (text "UP") (text "phone") (1 ∷ 0 ∷ 1 ∷ [])
      ∷ [];
  groups = [];
  members = [];
  audit = empty_audit;
}

abbrev pub self : AuthRegistry
self = record { db = registry; principal_rates = [] }

abbrev pub founding : SignedPolicy
founding = record {
  update = record {
    version = 1;
    gid = reference;
    expected_generation = 0;
    epoch = 0;
    signer = text "UA";
    members = record { nkey = text "UA"; leaf = 0 } ∷ [];
  };
  signature = 1 ∷ [];
}

abbrev adding : SignedPolicy
adding = record founding {
  update = record founding.update {
    expected_generation = 1;
    epoch = 1;
    members = record { nkey = text "UA"; leaf = 0 } ∷ record { nkey = text "UP"; leaf = 1 } ∷ [];
  };
}

founded : (apply_policy_inner fixture sql default around 0 founding self).0 ≡ ok 1
unfolding apply_policy_inner policy_checks validate_gid policy_bytes authorize user_id_of
    verify_signature validate_id signing_bytes Wire.decode charge new allow refill
    policy_transaction policy_action check_members check_current answer_policy replace_policy
    reducing record_policy write_policy insert_members insert_member upsert_group device_reference
    group_reference reference_of append append_operation info payload_of committed check_registry
    maximum within check_database default settle ℕ_discrete bytes_discrete
founded = refl

apply_policy_inner_lem_example :
    ((e : String) × ((apply_policy_inner fixture sql default around 0 founding self).0 ≡ err e)
      × ((apply_policy_inner fixture sql default around 0 founding self).1.db ≡ registry))
    ⊎ (record {
      g : ℕ;
      bytes : Bytes;
      encoded : fixture.policy_bytes founding.update ≡ some bytes;
      message : Bytes;
      result : (apply_policy_inner fixture sql default around 0 founding self).0 ≡ ok g;
      authentic :
          (policy_bytes fixture sql default founding.update ≡ ok message)
          × (fixture.nkey_verify (text "UA") message (1 ∷ []) ≡ true);
      applied :
          Applied fixture sql default founding.update bytes registry g
            (apply_policy_inner fixture sql default around 0 founding self).1.db;
    })
apply_policy_inner_lem_example = apply_policy_inner_lem fixture sql default around 0 founding self

abbrev session : List (Surroundings × ℕ × SignedPolicy)
session = (around, 0, founding) ∷ (around, 1, founding) ∷ (around, 2, adding) ∷ []

updates-Grows_example : Grows registry (updates fixture sql default session self).db
updates-Grows_example = updates-Grows fixture sql default session self

abbrev pub two_members : Registry
two_members = record registry {
  groups =
      record {
        gid = reference;
        generation = 2;
        epoch = 1;
        coordinator = text "UA";
        last_update = [];
        audit_ref = reference;
      }
      ∷ [];
  members =
      record { gid = reference; nkey = text "UA"; leaf = 0 }
      ∷ record { gid = reference; nkey = text "UP"; leaf = 1 }
      ∷ [];
}

revoke_lem_example :
    ((e : String) × (revoke sql default around (text "UA") two_members ≡ (err e, two_members)))
    ⊎ (record {
      db' : Registry;
      result : revoke sql default around (text "UA") two_members ≡ (ok tt, db');
      refused : authorize fixture db' (text "UA") ≡ err "device not admitted";
      removed :
          any (is_active (text "UA")) two_members.devices ≡ true
          → Removed (text "UA") two_members db';
      idle : any (is_active (text "UA")) two_members.devices ≡ false → db' ≡ two_members;
    })
revoke_lem_example = revoke_lem sql default fixture around (text "UA") two_members

-- The other member becomes the coordinator.
handed_over :
    (revoke sql default around (text "UA") two_members).1.groups
    ≡ record {
      gid = reference;
      generation = 3;
      epoch = 1;
      coordinator = text "UP";
      last_update = [];
      audit_ref = reference;
    }
      ∷ []
unfolding revoke revoke_active check_and_commit audit_revocation revoke_rows revoke_device
    without_key successor lowest reference_or_none reference_of repair append append_operation info
    payload_of committed check_database default ℕ_discrete bytes_discrete
handed_over = refl
