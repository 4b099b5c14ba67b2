-- ===== src/Registry/Admission.antt =====
-- `UserId` and `authorize` of identity_model.rs.
use epochgrid.Base.{
  ℕ, ◌+◌, ◌-◌, List, map, length, drop, find, any, ltb, ◌==◌, nat_eq, bytes_eq, ◌&&◌, not, Bool,
  Text, text, Result, ok, err, context, ensure, ◌>>=◌, ◌>>◌, starts_with, is_ascii_lowercase, leb,
  if◌then◌else◌,
}
use epochgrid.Wire.{DeviceRegistration, Body, Primitives, register}
use epochgrid.Wire
use epochgrid.Identity.{verify_signature}
use epochgrid.Registry.Tables.{User, Device, Registry}

abbrev upper_ascii : ℕ → ℕ
upper_ascii c = if is_ascii_lowercase c then c - 32 else c

abbrev pub lower_ascii : ℕ → ℕ
lower_ascii c = if leb b'A' c && leb c b'Z' then c + 32 else c

pub record DeviceAuthorization : Type 0 where
  pub user : Text
  pub device : Text
  pub nkey : Text
  pub generation : ℕ

abbrev pub expect_registration : Body → Result DeviceRegistration
expect_registration (register r) = ok r
expect_registration _ = err "invalid admission registration"

-- The row that `authorize` selects: a device that is ready and not revoked, of an enabled user.
abbrev pub is_admitted : List User → Text → Device → Bool
is_admitted users key d =
    d.nkey == key
    && d.ready
    && not d.revoked
    && any (λ (u : User). u.id == d.user_id && u.enabled) users

module _ (p : Primitives) where
  -- `UserId::try_from`
  unfoldable pub user_id_of : Text → Result Text
  user_id_of value = do
    ensure (starts_with (text "egusr-") value) "canonical EpochGrid UserId required"
    let suffix : Text = drop 6 value
    bytes ← context (p.base32_decode (map upper_ascii suffix)) "base32"
    ensure (length bytes == 16 && map lower_ascii (p.base32_encode bytes) == suffix)
        "invalid canonical UserId"
    ok value

  unfoldable pub authorize : Registry → Text → Result DeviceAuthorization
  authorize db key = do
    row ← context (find (is_admitted db.users key) db.devices) "device not admitted"
    body ← Wire.decode p row.registration
    registration ← expect_registration body
    verify_signature p registration
    ensure
        (registration.payload.nats_public_key == key
          && registration.payload.user_id == row.user_id
          && registration.payload.device_id == row.device_id)
        "admission registration binding mismatch"
    ensure (ltb 0 row.authorization_generation) "invalid authorization generation"
    user ← user_id_of row.user_id
    ok (record {
      user = user;
      device = row.device_id;
      nkey = key;
      generation = row.authorization_generation;
    })
