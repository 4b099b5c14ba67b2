-- ===== src/Tests/Devices.antt =====
-- Trust and revocation: the theorems at the fixture's devices.
use epochgrid.Base.{
  List, [], ◌∷◌, ◌++◌, all, length, take, true, Text, text, none, some, ok, err, ◌≡◌, ◌≢◌, refl,
  ◌⊎◌, ◌↔◌, String, ℕ_discrete, bytes_discrete,
}
use epochgrid.Wire.{validate_id, encode}
use epochgrid.Identity.{verify_signature, signing_bytes, key}
use epochgrid.Merkle
use epochgrid.Merkle.Binding.{Collision}
use epochgrid.Transparency
use epochgrid.Capacity.{default, check_database}
use epochgrid.Store.{Sqlite, transaction}
use epochgrid.Trust.Table.{
  DeviceTrust, Tables, device_trust, unverified, verified, changed, trust_state_eq,
}
use epochgrid.Trust.Operations.{
  hex_upper, fingerprint, normalise, observe_inner, report, observe_device, verify_device,
  is_ascii_hexdigit,
}
use epochgrid.Trust.Carries.{Carries}
use epochgrid.Trust.Runs.{
  Operation, observe, verify, pin, run, run-Carries, Trusted, Unchanged, observe_device-Trusted,
  verify_device_iff,
}
use epochgrid.Revocation
use epochgrid.Revocation.Requests.{request_bytes, validate_request}
use epochgrid.Revocation.Logs.{checkpoint_bytes, validate, validate_entries}
use epochgrid.Revocation.Local.{
  extends, Revoked, is_revoked, accept_revocations, accept_inner, record_entries, row,
  insert_or_ignore,
}
use epochgrid.Revocation.Local.Kept.{Accepted, accept_revocations_lem, accept_revocations-prefix}
use epochgrid.Revocation.Validity.{IsValid, validate-IsValid}
use epochgrid.Tests.Fixture.{fixture, alice_laptop, lost_log, two_log, pad, fixture_WritesApart}

abbrev store : {S : Type 0} → Sqlite S
store = record { page_count = λ s. 1; page_size = λ s. 4096; commits = λ s. true }

abbrev no_rows : Tables
no_rows = record { devices = []; directory = none; alert = none }

abbrev alice_print : Text
alice_print = hex_upper (pad (text "EpochGrid device fingerprint v1" ++ (0 ∷ text "UA")))

abbrev alice_row : Tables
alice_row = record no_rows {
  devices =
      record {
        user = text "alice";
        device = text "laptop";
        fingerprint = alice_print;
        latest_fingerprint = alice_print;
        state = unverified;
      }
      ∷ [];
}

alice_observed : observe_device fixture store default alice_laptop no_rows ≡ (ok tt, alice_row)
unfolding observe_device fingerprint verify_signature signing_bytes key Merkle.hash hex_upper
    observe_inner device_trust transaction check_database default report ℕ_discrete bytes_discrete
alice_observed = refl

observe_device-Trusted_example :
    (print : Text) × (fingerprint fixture alice_laptop ≡ ok print)
    × Unchanged no_rows alice_row (text "alice") (text "laptop") print
    × Trusted alice_row.devices (text "alice") (text "laptop") print
observe_device-Trusted_example =
    observe_device-Trusted fixture store default alice_laptop no_rows alice_row alice_observed

abbrev session : List Operation
session =
    pin (text "UD")
    ∷ observe alice_laptop
    ∷ verify (text "alice") (text "laptop") alice_print
    ∷ observe (record alice_laptop {
      payload = record alice_laptop.payload { nats_public_key = text "UX" };
    })
    ∷ verify (text "alice") (text "laptop") alice_print
    ∷ []

run-Carries_example : Carries no_rows (run fixture store default session no_rows)
run-Carries_example = run-Carries fixture store default session no_rows

verify_device_iff_example :
    (((verify_device (text "alice") (text "laptop") alice_print alice_row).0 ≡ ok tt) ↔ (record {
      row : DeviceTrust;
      found : device_trust (text "alice") (text "laptop") alice_row.devices ≡ some row;
      complete : length (normalise alice_print) ≡ 64;
      digits : all is_ascii_hexdigit (normalise alice_print) ≡ true;
      unchanged : row.state ≢ changed;
      same : row.fingerprint ≡ normalise alice_print;
    }))
    × ((row : DeviceTrust)
        → device_trust (text "alice") (text "laptop") alice_row.devices ≡ some row
        → (verify_device (text "alice") (text "laptop") alice_print alice_row).0 ≡ ok tt
        → device_trust
            (text "alice")
            (text "laptop")
            (verify_device (text "alice") (text "laptop") alice_print alice_row).1.devices
          ≡ some (record row { state = verified }))
verify_device_iff_example = verify_device_iff (text "alice") (text "laptop") alice_print alice_row

alice_verified : (verify_device (text "alice") (text "laptop") alice_print alice_row).0 ≡ ok tt
unfolding verify_device normalise hex_upper device_trust ℕ_discrete bytes_discrete
alice_verified = refl

lost_valid : validate fixture lost_log two_log ≡ ok tt
unfolding validate validate_entries validate_request request_bytes checkpoint_bytes Revocation.root
    validate_id Transparency.validate encode Transparency.root Merkle.root Merkle.hash_leaf
    Transparency.leaf Merkle.hash_node Merkle.split_at Merkle.next_power_of_two
    Transparency.signing_bytes Transparency.distinct_identities verify_signature key ℕ_discrete
    bytes_discrete
lost_valid = refl

lost_IsValid : IsValid fixture two_log lost_log
lost_IsValid = validate-IsValid fixture two_log lost_log lost_valid

validate-IsValid_example : IsValid fixture two_log lost_log
validate-IsValid_example = validate-IsValid fixture two_log lost_log lost_valid

abbrev none_revoked : Revoked
none_revoked = record { devices = []; checkpoint = none }

abbrev bob_revoked : Revoked
bob_revoked = record {
  devices =
      record {
        nkey = text "UB";
        user = text "bob";
        device = text "phone";
        mls_key = text "bob/phone";
        cutoff = 7;
      }
      ∷ [];
  checkpoint = some lost_log.checkpoint;
}

accept_revocations_lem_example :
    ((e : String) × (accept_revocations fixture store default lost_log two_log none_revoked
        ≡ (err e, none_revoked)))
    ⊎ (record {
      db' : Revoked;
      result :
          accept_revocations fixture store default lost_log two_log none_revoked ≡ (ok tt, db');
      valid : validate fixture lost_log two_log ≡ ok tt;
      accepted : Accepted fixture lost_log none_revoked db';
    })
accept_revocations_lem_example =
    accept_revocations_lem fixture store default lost_log two_log none_revoked

accepted_again :
    accept_revocations fixture store default lost_log two_log bob_revoked ≡ (ok tt, bob_revoked)
unfolding accept_revocations validate validate_entries validate_request request_bytes
    checkpoint_bytes Revocation.root validate_id Transparency.validate encode Transparency.root
    Merkle.root Merkle.hash_leaf Transparency.leaf Merkle.hash_node Merkle.split_at
    Merkle.next_power_of_two Transparency.signing_bytes Transparency.distinct_identities
    verify_signature key extends is_revoked ℕ_discrete bytes_discrete transaction accept_inner
    record_entries row check_database default insert_or_ignore
accepted_again = refl

accept_revocations-prefix_example : Collision fixture ⊎ (take 1 lost_log.entries ≡ lost_log.entries)
accept_revocations-prefix_example =
    accept_revocations-prefix fixture store default fixture_WritesApart lost_log lost_log two_log
      two_log bob_revoked bob_revoked lost_IsValid refl accepted_again
