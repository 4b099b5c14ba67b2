-- ===== src/Tests/Fixture.antt =====
-- Concrete third-party code and data for the tests: an encoding that knows the snapshots below, a
-- digest that keeps the first 32 bytes, and signatures that are the byte 1.
use mathlib.Core.List.{[]}
use epochgrid.Base.{
  ℕ, suc, zero, ◌∷◌, ◌++◌, take, length, text, Bytes, Option, none, some, ◌==◌, bytes_eq,
  bytes_discrete, nat_eq, Eq, refl, true, ℕ_discrete, if◌then◌else◌, ok, ◌≡◌, arith,
}
use epochgrid.Wire
use epochgrid.Transparency.Extension.{TakesBack}
use epochgrid.Revocation.Local.Kept.{WritesApart}
use epochgrid.Wire.{
  welcome, DeviceRegistration, Checkpoint, Snapshot, Body, Envelope, Primitives, KeyPair, register,
  version, audit_log, revocation_log, encode, RevocationLog, Revocation, registered,
}

abbrev pub zeros : ℕ → Bytes
zeros zero = []
zeros (suc n) = 0 ∷ zeros n

abbrev pub pad : Bytes → Bytes
pad bytes = take 32 (bytes ++ zeros 32)

abbrev pub alice_laptop : DeviceRegistration
alice_laptop = record {
  payload = record {
    protocol_version = 1;
    user_id = text "alice";
    device_id = text "laptop";
    nats_public_key = text "UA";
    mls_credential = 5 ∷ [];
    mls_key_package = text "alice/laptop";
    generation = 1;
    created_at = 1;
  };
  signature = 1 ∷ [];
}

abbrev pub bob_phone : DeviceRegistration
bob_phone = record {
  payload = record alice_laptop.payload {
    user_id = text "bob";
    device_id = text "phone";
    nats_public_key = text "UB";
    mls_key_package = text "bob/phone";
  };
  signature = 1 ∷ [];
}

-- Two devices of a user whose name is canonical.
abbrev pub anna_laptop : DeviceRegistration
anna_laptop = record {
  payload = record alice_laptop.payload {
    user_id = text "egusr-aaaaaaaaaaaaaaaa";
    nats_public_key = text "UA";
    mls_key_package = text "egusr-aaaaaaaaaaaaaaaa/laptop";
  };
  signature = 1 ∷ [];
}

abbrev pub anna_phone : DeviceRegistration
anna_phone = record {
  payload = record anna_laptop.payload {
    device_id = text "phone";
    nats_public_key = text "UP";
    mls_key_package = text "egusr-aaaaaaaaaaaaaaaa/phone";
  };
  signature = 1 ∷ [];
}

abbrev pub checkpoint : ℕ → Bytes → Checkpoint
checkpoint size root = record {
  version = 1;
  size = size;
  root = root;
  signer = text "UD";
  signature = 1 ∷ [];
}

abbrev pub empty_log : Snapshot
empty_log = record { checkpoint = checkpoint 0 (pad []); entries = [] }

abbrev pub leaf_bytes : DeviceRegistration → Bytes
leaf_bytes r = 1 ∷ 0 ∷ r.payload.device_id

abbrev pub one_log : Snapshot
one_log = record {
  checkpoint = checkpoint 1 (pad (0 ∷ leaf_bytes alice_laptop));
  entries = alice_laptop ∷ [];
}

abbrev pub two_log : Snapshot
two_log = record {
  checkpoint =
      checkpoint 2 (pad (1 ∷ pad (0 ∷ leaf_bytes alice_laptop) ++ pad (0 ∷ leaf_bytes bob_phone)));
  entries = alice_laptop ∷ bob_phone ∷ [];
}

-- Bob's phone revoked by the directory.
abbrev pub bob_lost : Revocation
bob_lost = record {
  request = record {
    version = 1;
    user = text "bob";
    device = text "phone";
    nkey = text "UB";
    author = text "UD";
    signature = 1 ∷ [];
  };
  chat_cutoff = 7;
}

abbrev pub lost_log : RevocationLog
lost_log = record { checkpoint = checkpoint 1 (pad (0 ∷ text "UB")); entries = bob_lost ∷ [] }

instance abbrev pub snapshot_eq : Eq Snapshot
snapshot_eq = record { dec = hlevel ℕ_discrete }

instance abbrev pub registered_eq : Eq DeviceRegistration
registered_eq = record { dec = hlevel ℕ_discrete }

instance abbrev pub revocation_eq : Eq Revocation
revocation_eq = record { dec = hlevel ℕ_discrete }

abbrev pub write_log : Snapshot → Option Bytes
write_log s =
    if s == empty_log
    then some (1 ∷ 11 ∷ 0 ∷ [])
    else if s == one_log
    then some (1 ∷ 11 ∷ 1 ∷ [])
    else if s == two_log
    then some (1 ∷ 11 ∷ 2 ∷ [])
    else none

-- The encoding knows four registrations and one revocation.
abbrev pub write_registration : DeviceRegistration → Option Bytes
write_registration r =
    if r == alice_laptop
    then some (leaf_bytes alice_laptop)
    else if r == bob_phone
    then some (leaf_bytes bob_phone)
    else if r == anna_laptop
    then some (1 ∷ 0 ∷ 0 ∷ [])
    else if r == anna_phone
    then some (1 ∷ 0 ∷ 1 ∷ [])
    else none

abbrev pub write_revocation : Revocation → Option Bytes
write_revocation r = if r == bob_lost then some (text "UB") else none

abbrev pub write_body : Body → Option Bytes
write_body (register r) = write_registration r
write_body (audit_log s) = write_log s
write_body (revocation_log l) = some (1 ∷ 14 ∷ length l.entries ∷ [])
write_body _ = some (1 ∷ 1 ∷ [])

abbrev pub envelope : Body → Envelope
envelope body = record { version = 1; body = body }

abbrev pub read_envelope : Bytes → Option (Envelope × Bytes)
read_envelope bytes =
    if bytes == 1 ∷ 11 ∷ 0 ∷ []
    then some (envelope (audit_log empty_log), [])
    else if bytes == 1 ∷ 11 ∷ 1 ∷ []
    then some (envelope (audit_log one_log), [])
    else if bytes == 1 ∷ 11 ∷ 2 ∷ []
    then some (envelope (audit_log two_log), [])
    else if bytes == 1 ∷ 0 ∷ 0 ∷ []
    then some (envelope (register anna_laptop), [])
    else if bytes == 1 ∷ 0 ∷ 1 ∷ []
    then some (envelope (register anna_phone), [])
    else if bytes == leaf_bytes alice_laptop
    then some (envelope (register alice_laptop), [])
    else if bytes == leaf_bytes bob_phone
    then some (envelope (register bob_phone), [])
    else if bytes == 1 ∷ 14 ∷ 1 ∷ []
    then some (envelope (revocation_log lost_log), [])
    else if bytes == 1 ∷ 7 ∷ []
    then some (envelope (welcome (9 ∷ [])), [])
    else if bytes == 1 ∷ 1 ∷ []
    then some (envelope registered, [])
    else none

abbrev pub fixture : Primitives
fixture = record {
  sha256 = λ bytes. some (pad bytes);
  nkey_valid = λ key. true;
  nkey_verify = λ key message signature. signature == 1 ∷ [];
  envelope_bytes = λ e. write_body e.body;
  payload_bytes = λ payload. some [];
  checkpoint_bytes = λ version size root signer. some (size ∷ []);
  request_bytes = λ version user device nkey author. some nkey;
  revocation_bytes = write_revocation;
  policy_bytes = λ update. some (update.expected_generation ∷ update.epoch ∷ update.gid);
  fingerprint_bytes = λ version user device nkey credential key. some nkey;
  relay_bytes = λ version gid epoch recipient sender id payload. some payload;
  take_envelope = read_envelope;
  is_welcome = λ bytes. true;
  base32_decode = λ digits. some (take 16 digits);
  base32_encode = λ bytes. bytes;
  key_package = λ bytes.
      some (record { suite_supported = true; credential = some (5 ∷ []); identity = some bytes });
  unverified_credential =
      λ bytes. some (record { serialized = some (5 ∷ []); signature_key = bytes });
}

abbrev pub directory_key : KeyPair
directory_key = record { public_key = text "UD"; sign = λ message. some (1 ∷ []) }

reads_back :
    (Wire.decode fixture (1 ∷ 11 ∷ 0 ∷ []) ≡ ok (audit_log empty_log))
    × (Wire.decode fixture (1 ∷ 11 ∷ 1 ∷ []) ≡ ok (audit_log one_log))
    × (Wire.decode fixture (1 ∷ 11 ∷ 2 ∷ []) ≡ ok (audit_log two_log))
unfolding Wire.decode bytes_discrete ℕ_discrete
reads_back = (refl, refl, refl)

-- The fixture's encoding takes back what it writes for a log.
pub fixture_law :
    (s : Snapshot) (bytes : Bytes)
    → encode fixture (audit_log s) ≡ ok bytes
    → Wire.decode fixture bytes ≡ ok (audit_log s)
unfolding encode
fixture_law s bytes h = elim (snapshot_eq.dec s empty_log) [
  | yes e ↦ (let b : bytes ≡ 1 ∷ 11 ∷ 0 ∷ [] = ground arith in cc (b, e, reads_back.0))
  | no n ↦ elim (snapshot_eq.dec s one_log) [
    | yes e ↦ (let b : bytes ≡ 1 ∷ 11 ∷ 1 ∷ [] = ground arith in cc (b, e, reads_back.1))
    | no m ↦ elim (snapshot_eq.dec s two_log) [
      | yes e ↦ (let b : bytes ≡ 1 ∷ 11 ∷ 2 ∷ [] = ground arith in cc (b, e, reads_back.2))
      | no k ↦ absurd (ground arith)
    ]
  ]
]

taken_back :
    (read_envelope (leaf_bytes alice_laptop) ≡ some (envelope (register alice_laptop), []))
    × (read_envelope (leaf_bytes bob_phone) ≡ some (envelope (register bob_phone), []))
    × (read_envelope (1 ∷ 0 ∷ 0 ∷ []) ≡ some (envelope (register anna_laptop), []))
    × (read_envelope (1 ∷ 0 ∷ 1 ∷ []) ≡ some (envelope (register anna_phone), []))
unfolding bytes_discrete ℕ_discrete
taken_back = (refl, refl, refl, refl)

pub fixture_TakesBack : TakesBack fixture
fixture_TakesBack r written h = elim (registered_eq.dec r alice_laptop) [
  | yes e ↦ (let b : written ≡ leaf_bytes alice_laptop = ground arith in rw (b, e) taken_back.0)
  | no n ↦ elim (registered_eq.dec r bob_phone) [
    | yes e ↦ (let b : written ≡ leaf_bytes bob_phone = ground arith in rw (b, e) taken_back.1)
    | no m ↦ elim (registered_eq.dec r anna_laptop) [
      | yes e ↦ (let b : written ≡ 1 ∷ 0 ∷ 0 ∷ [] = ground arith in rw (b, e) taken_back.2)
      | no k ↦ elim (registered_eq.dec r anna_phone) [
        | yes e ↦ (let b : written ≡ 1 ∷ 0 ∷ 1 ∷ [] = ground arith in rw (b, e) taken_back.3)
        | no j ↦ absurd (ground arith)
      ]
    ]
  ]
]

pub fixture_WritesApart : WritesApart fixture
fixture_WritesApart a b bytes h k = elim (revocation_eq.dec a bob_lost) [
  | no n ↦ absurd (ground arith)
  | yes e ↦ elim (revocation_eq.dec b bob_lost) [ no n ↦ absurd (ground arith) | yes f ↦ cc (e, f) ]
]
