-- ===== src/Tests/Relays.antt =====
-- Published revocations, refused updates, relayed Welcomes and invitations at concrete inputs.
use epochgrid.Base.{
  List, [], ◌∷◌, true, Text, text, Bytes, some, ok, err, String, ◌≡◌, refl, ◌⊎◌, ℕ_discrete,
  bytes_discrete,
}
use epochgrid.Wire.{RevocationLog, WelcomeRelay, validate_id, encode}
use epochgrid.Wire
use epochgrid.Identity.{verify_signature, signing_bytes, key}
use epochgrid.Merkle
use epochgrid.Transparency
use epochgrid.Transparency.Log.{Bucket}
use epochgrid.Capacity.{default}
use epochgrid.Capacity.Bucket.{new, allow, refill}
use epochgrid.Registry.Tables.{Registry}
use epochgrid.Registry.Admission.{authorize, user_id_of}
use epochgrid.Registry.Invite.{Randomness, invite_action, invite}
use epochgrid.Registry.Invite.Issued.{Issued, invite_lem}
use epochgrid.Authorization.Policy.{
  AuthRegistry, apply_policy_inner, policy_checks, validate_gid, policy_bytes, charge,
  policy_transaction, policy_action, check_members, check_current, settle,
}
use epochgrid.Authorization.Refused.{
  is_reported, report_refusal, apply_policy, Reported, apply_policy_refused,
}
use epochgrid.Authorization.Retired.{
  Operation, revoking, activating, enrolling, applying, Retired, operate, revoked_forever,
}
use epochgrid.Authorization.Relay.{
  policy_state, members_of, insert_by_leaf, relay_message, validate_relay, Permitted,
  validate_relay-Permitted,
}
use epochgrid.Revocation
use epochgrid.Revocation.Requests.{request_bytes, validate_request}
use epochgrid.Revocation.Logs.{checkpoint_bytes, validate, validate_entries}
use epochgrid.Revocation.Append.{
  attempt, after_read, try_update, rounds, append, Covers, append-Covers,
}
use epochgrid.Tests.Fixture.{fixture, anna_laptop, directory_key, bob_lost, lost_log, two_log}
use epochgrid.Tests.Groups.{sql, reference, around, registry, self, founding, two_members, device}

-- A bucket that holds one revocation log.
abbrev holding : Bucket Bytes
holding = record { entry = λ w. (ok (some (w, 1)), w); update = λ bytes revision w. (true, bytes) }

returned :
    (append fixture two_log directory_key bob_lost.request 9 holding (1 ∷ 14 ∷ 1 ∷ [])).0
    ≡ ok lost_log
unfolding append rounds after_read attempt try_update Wire.decode validate validate_entries
    validate_request request_bytes checkpoint_bytes Revocation.root validate_id
    Transparency.validate encode Transparency.root Merkle.root Merkle.hash_leaf Transparency.leaf
    Merkle.hash_node Merkle.split_at Merkle.next_power_of_two Transparency.signing_bytes
    Transparency.distinct_identities verify_signature key ℕ_discrete bytes_discrete
returned = refl

append-Covers_example : Covers fixture two_log directory_key bob_lost.request 9 lost_log
append-Covers_example =
    append-Covers fixture two_log directory_key bob_lost.request 9 holding (1 ∷ 14 ∷ 1 ∷ [])
      lost_log returned

abbrev running : AuthRegistry
running = record self { db = two_members }

stale :
    (apply_policy fixture sql default around around 0 founding running).0
    ≡ err "stale policy generation"
unfolding apply_policy report_refusal is_reported apply_policy_inner policy_checks validate_gid
    policy_bytes authorize user_id_of verify_signature validate_id signing_bytes Wire.decode charge
    new allow refill policy_transaction policy_action check_members check_current settle ℕ_discrete
    bytes_discrete
stale = refl

apply_policy_refused_example :
    ((apply_policy fixture sql default around around 0 founding running).1.db ≡ record two_members {
      audit = (apply_policy fixture sql default around around 0 founding running).1.db.audit;
    })
    × Reported fixture sql default around founding two_members
        (apply_policy fixture sql default around around 0 founding running).1.db
apply_policy_refused_example =
    apply_policy_refused fixture sql default around around 0 founding running
      "stale policy generation" stale

abbrev relay : WelcomeRelay
relay = record {
  version = 1;
  gid = reference;
  epoch = 1;
  recipient = text "UP";
  sender = text "UA";
  id = 1;
  payload = 1 ∷ 7 ∷ [];
  signature = 1 ∷ [];
}

relayed :
    validate_relay fixture relay two_members
    ≡ ok (text "epochgrid.v1.user.egusr-aaaaaaaaaaaaaaaa.phone.inbox")
unfolding validate_relay relay_message policy_state members_of insert_by_leaf validate_gid authorize
    user_id_of verify_signature validate_id signing_bytes Wire.decode ℕ_discrete bytes_discrete
relayed = refl

validate_relay-Permitted_example :
    Permitted fixture relay two_members
      (text "epochgrid.v1.user.egusr-aaaaaaaaaaaaaaaa.phone.inbox")
validate_relay-Permitted_example =
    validate_relay-Permitted fixture relay two_members
      (text "epochgrid.v1.user.egusr-aaaaaaaaaaaaaaaa.phone.inbox") relayed

abbrev random : Randomness
random = record { user_bytes = ok (text "bbbbbbbbbbbbbbbb"); secret_bytes = ok (text "SECRET") }

invite_lem_example :
    ((e : String) × (invite fixture sql default around random 50 (text "bob") 60 registry
        ≡ (err e, registry)))
    ⊎ (record {
      token : Text;
      db' : Registry;
      result :
          invite fixture sql default around random 50 (text "bob") 60 registry ≡ (ok token, db');
      issued : Issued fixture sql default 50 token registry db';
    })
invite_lem_example = invite_lem fixture sql default around random 50 (text "bob") 60 registry

-- A lifetime of more than an hour is refused.
too_long :
    (invite fixture sql default around random 50 (text "bob") 3601 registry).0
    ≡ err "enrollment lifetime must be 1–3600 seconds"
unfolding invite invite_action validate_id ℕ_discrete
too_long = refl

-- Anna's laptop, revoked.
abbrev without_laptop : AuthRegistry
without_laptop = record self {
  db = record registry {
    devices =
        record (device (text "UA") (text "laptop") (1 ∷ 0 ∷ 0 ∷ [])) { revoked = true }
        ∷ device (text "UP") (text "phone") (1 ∷ 0 ∷ 1 ∷ [])
        ∷ [];
  };
}

laptop_gone : Retired (text "UA") without_laptop.db.devices
unfolding ℕ_discrete bytes_discrete
laptop_gone = record { gone = refl; inactive = refl }

abbrev attempts : List Operation
attempts =
    activating around (text "UA")
    ∷ applying around around 0 founding
    ∷ enrolling around 7 (text "EG1.x.y") anna_laptop
    ∷ revoking around (text "UP")
    ∷ []

revoked_forever_example :
    Retired (text "UA") (operate fixture sql default attempts without_laptop).db.devices
    × (authorize fixture (operate fixture sql default attempts without_laptop).db (text "UA")
        ≡ err "device not admitted")
revoked_forever_example =
    revoked_forever fixture sql default (text "UA") attempts without_laptop laptop_gone
