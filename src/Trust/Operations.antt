-- ===== src/Trust/Operations.antt =====
-- The operations of trust.rs.
use epochgrid.Base.{
  ℕ, ◌+◌, ◌-◌, ◌/◌, ◌%◌, [], ◌∷◌, ◌++◌, map, length, all, retain, ltb, leb, ◌==◌, nat_eq, bytes_eq,
  ◌&&◌, ◌||◌, not, Bool, true, false, Text, text, Bytes, Option, none, some, Result, ok, err,
  ensure, context, ◌>>=◌, ◌>>◌, starts_with, is_ascii_digit, is_ascii_lowercase, if◌then◌else◌,
}
use epochgrid.Base.Exec
use epochgrid.Base.Exec.{Exec, lift, continue, for_each}
use epochgrid.Wire.{DeviceRegistration, Checkpoint, Snapshot, Primitives}
use epochgrid.Identity.{verify_signature}
use epochgrid.Merkle.{hash}
use epochgrid.Transparency
use epochgrid.Capacity.{Capacity}
use epochgrid.Store.{Sqlite, transaction}
use epochgrid.Trust.Table.{
  unverified, verified, changed, trust_state_eq, DeviceTrust, Directory, Tables, device_trust,
  update_rows,
}

abbrev hex_digit : ℕ → ℕ
hex_digit d = if ltb d 10 then b'0' + d else b'A' + (d - 10)

-- `format!("{b:02X}")` of each byte
unfoldable pub hex_upper : Bytes → Text
hex_upper [] = []
hex_upper (b ∷ bytes) = hex_digit (b / 16) ∷ hex_digit (b % 16) ∷ hex_upper bytes

-- `fingerprint(registration)`
unfoldable pub fingerprint : Primitives → DeviceRegistration → Result Text
fingerprint p registration = do
  verify_signature p registration
  let payload = registration.payload
  credential ← context (p.unverified_credential payload.mls_key_package) "encoding"
  serialized ← context credential.serialized "encoding"
  ensure (serialized == payload.mls_credential) "fingerprint credential mismatch"
  encoded ←
      context
        (p.fingerprint_bytes payload.protocol_version payload.user_id payload.device_id
          payload.nats_public_key payload.mls_credential credential.signature_key)
        "encoding"
  digest ← hash p (text "EpochGrid device fingerprint v1" ++ (0 ∷ encoded))
  ok (hex_upper digest)

abbrev pub mark_changed : Text → DeviceTrust → DeviceTrust
mark_changed print r = record r { latest_fingerprint = print; state = changed }

abbrev pub new_row : Text → Text → Text → DeviceTrust
new_row user device print = record {
  user = user;
  device = device;
  fingerprint = print;
  latest_fingerprint = print;
  state = unverified;
}

abbrev pub mark_verified : DeviceTrust → DeviceTrust
mark_verified r = record r { state = verified }

-- The table once the observation is recorded, and whether the device has changed.
unfoldable pub observe_inner : Text → Text → Text → Tables → Result (Bool × Tables)
observe_inner user device print t = elim (device_trust user device t.devices) [
  | some previous ↦
      if previous.state == changed && previous.fingerprint == print
      then ok (true, t)
      else if not (previous.fingerprint == print) || previous.state == changed
      then ok (true, record t { devices = update_rows user device (mark_changed print) t.devices })
      else ok (false, t)
  | none ↦
      if ltb (length t.devices) 256
      then ok (false, record t { devices = t.devices ++ new_row user device print ∷ [] })
      else err "capacity exhausted: retained trust bindings"
]

abbrev is_ascii_whitespace : ℕ → Bool
is_ascii_whitespace c = c == 32 || c == 9 || c == 10 || c == 12 || c == 13

abbrev to_ascii_uppercase : ℕ → ℕ
to_ascii_uppercase c = if is_ascii_lowercase c then c - 32 else c

abbrev pub is_ascii_hexdigit : ℕ → Bool
is_ascii_hexdigit c = is_ascii_digit c || leb b'a' c && leb c b'f' || leb b'A' c && leb c b'F'

-- The fingerprint that the user supplies, without its spaces and in capitals.
unfoldable pub normalise : Text → Text
normalise expected = map to_ascii_uppercase (retain (λ c. not (is_ascii_whitespace c)) expected)

unfoldable pub verify_checks : Text → Option DeviceTrust → Result (Unit {0})
verify_checks expected row = do
  ensure (length expected == 64 && all is_ascii_hexdigit expected)
      "supply the complete 64-digit fingerprint from an independent channel"
  observed ← context row "device not observed; look it up first"
  ensure (not (observed.state == changed)) "changed identity is blocked"
  ensure (observed.fingerprint == expected) "fingerprint does not match observed device"

unfoldable pub verify_device : Text → Text → Text → Exec Tables (Unit {0})
unfolding verify_checks
verify_device user device supplied t =
    continue (verify_checks (normalise supplied) (device_trust user device t.devices))
      (λ _ s. (ok tt, record s { devices = update_rows user device mark_verified s.devices })) t

unfoldable pub transparency_failure : Text → Exec Tables (Unit {0})
transparency_failure message t = (ok tt, record t { alert = some message })

unfoldable pub clear_transparency_warning : Exec Tables (Unit {0})
clear_transparency_warning t = (ok tt, record t { alert = none })

module _ (p : Primitives) (sql : Sqlite Tables) (capacity : Capacity) where
  unfoldable pub report : Bool → Exec Tables (Unit {0})
  report is_changed = lift (ensure (not is_changed) "DEVICE IDENTITY CHANGED")

  -- The change is committed before it is reported as an error.
  unfoldable pub observe_print : DeviceRegistration → Text → Exec Tables (Unit {0})
  unfolding report
  observe_print registration print =
      Exec.◌>>=◌
        (transaction sql capacity true
          (observe_inner registration.payload.user_id registration.payload.device_id print))
        report

  unfoldable pub observe_device : DeviceRegistration → Exec Tables (Unit {0})
  unfolding observe_print
  observe_device registration =
      Exec.◌>>=◌ (lift (fingerprint p registration)) (observe_print registration)

  unfoldable pub pin_checks : Text → Option Directory → Result (Unit {0})
  pin_checks signer directory = do
    ensure (starts_with (text "U") signer) "directory user NKey required"
    ensure (p.nkey_valid signer) "invalid key"
    ensure (elim directory [ none ↦ true | some d ↦ d.signer == signer ])
        "directory key already pinned; refusing replacement"

  -- `INSERT OR IGNORE`
  unfoldable pub pin_if_absent : Text → Option Directory → Option Directory
  pin_if_absent signer none = some (record { signer = signer; checkpoint = none })
  pin_if_absent signer (some d) = some d

  unfoldable pub pin_directory : Text → Exec Tables (Unit {0})
  unfolding pin_checks pin_if_absent
  pin_directory signer t =
      continue (pin_checks signer t.directory)
        (λ _ s. (ok tt, record s { directory = pin_if_absent signer s.directory })) t

  -- `snapshot.extends` where a checkpoint is stored.
  abbrev pub extends_stored : Snapshot → Option Directory → Result (Unit {0})
  extends_stored snapshot none = ok tt
  extends_stored snapshot (some d) = elim d.checkpoint [
    | none ↦ ok tt
    | some previous ↦ Transparency.extends p snapshot previous
  ]

  abbrev pub store_checkpoint : Checkpoint → Tables → Tables
  store_checkpoint cp t = record t {
    directory = elim t.directory [
      | none ↦ none
      | some d ↦ some (record d { checkpoint = some cp })
    ];
  }

  unfoldable pub accept_extension : Snapshot → Exec Tables (Unit {0})
  accept_extension snapshot t =
      continue (extends_stored snapshot t.directory)
        (λ _ s. (ok tt, store_checkpoint snapshot.checkpoint s)) t

  unfoldable pub accept_observed : Snapshot → Exec Tables (Unit {0})
  unfolding accept_extension
  accept_observed snapshot =
      Exec.◌>>=◌ (for_each observe_device snapshot.entries) (λ _. accept_extension snapshot)

  unfoldable pub accept_valid : Snapshot → Exec Tables (Unit {0})
  unfolding accept_observed
  accept_valid snapshot =
      Exec.◌>>=◌ (pin_directory snapshot.checkpoint.signer) (λ _. accept_observed snapshot)

  unfoldable pub accept_checkpoint : Snapshot → Exec Tables (Unit {0})
  unfolding accept_valid
  accept_checkpoint snapshot =
      Exec.◌>>=◌ (lift (Transparency.validate p snapshot)) (λ _. accept_valid snapshot)
