-- ===== src/Registry/Enroll.antt =====
-- `token_user`, `LocalIdentityProvider::authenticate`, `resolve` and `enroll` of identity_model.rs.
pub mod Spending
pub mod Steps
pub mod Once
use epochgrid.Base.{
  ℕ, ◌+◌, List, [], ◌∷◌, ◌++◌, map, length, find, any, ltb, leb, ◌==◌, nat_eq, bytes_eq, ◌&&◌, ◌||◌,
  not, Bool, true, false, Text, text, Bytes, Option, none, some, Result, ok, err, context, ensure,
  ◌>>=◌, ◌>>◌, if◌then◌else◌,
}
use epochgrid.Wire.{DeviceRegistration, Primitives, register, encode}
use epochgrid.Identity.{verify}
use epochgrid.Merkle.{hash}
use epochgrid.Capacity.{Capacity, check_database}
use epochgrid.Store.{Sqlite}
use epochgrid.Audit.Events.{
  Event, committed, device_enrolled, verified_device, result_stage, idempotent_retry, reference_of,
}
use epochgrid.Audit.Log.{AuditLog, Surroundings, append}
use epochgrid.Registry.Tables.{Registry, User, Token, IdentityBinding, Device, check_registry}
use epochgrid.Registry.Admission.{user_id_of}
use epochgrid.Registry.Revoke.{is_active}

-- `token.split('.')`
unfoldable pub split : Text → List Text
split [] = [] ∷ []
split (c ∷ rest) = elim (split rest) [
  | [] ↦ []
  | word ∷ words ↦ if c == b'.' then [] ∷ word ∷ words else (c ∷ word) ∷ words
]

abbrev pub is_enabled : List User → Text → Bool
is_enabled users id = any (λ (u : User). u.id == id && u.enabled) users

abbrev pub is_open : List User → ℕ → Bytes → Text → Token → Bool
is_open users now digest user t =
    t.digest == digest
    && t.user_id == user
    && ltb now t.expires
    && (elim t.used_key [ none ↦ true | some k ↦ false ])
    && is_enabled users t.user_id

abbrev pub is_local : Text → IdentityBinding → Bool
is_local user b = b.user_id == user && b.provider == text "local"

abbrev pub is_token : Bytes → Token → Bool
is_token digest t = t.digest == digest

-- `SELECT used_key .. WHERE digest=?1`
unfoldable pub used_by : Bytes → List Token → Option Text
used_by digest tokens = elim (find (is_token digest) tokens) [ none ↦ none | some t ↦ t.used_key ]

-- The rows that the update of `enrollment_tokens` finds, and what it sets.
abbrev pub is_consumable : List User → ℕ → Bytes → Token → Bool
is_consumable users now digest t =
    t.digest == digest
    && (elim t.used_key [ none ↦ true | some k ↦ false ])
    && ltb now t.expires
    && is_enabled users t.user_id

abbrev pub consume : List User → ℕ → Bytes → Text → Token → Token
consume users now digest key t =
    if is_consumable users now digest t then record t { used_key = some key } else t

unfoldable pub count_if : (Token → Bool) → List Token → ℕ
count_if p [] = 0
count_if p (t ∷ rest) = let n = count_if p rest in if p t then 1 + n else n

module _ (p : Primitives) where
  expect_fields : List Text → Result Text
  expect_fields (tag ∷ user ∷ secret ∷ []) = do
    ensure (tag == text "EG1" && length secret == 52) "invalid enrollment token"
    user_id_of p user
  expect_fields _ = err "invalid enrollment token"

  unfoldable pub token_user : Text → Result Text
  unfolding expect_fields split
  token_user token = do
    ensure (leb (length token) 256) "oversized enrollment token"
    expect_fields (split token)

  -- The subject of the provider `local`.
  unfoldable pub authenticate : ℕ → Registry → Text → Result Text
  authenticate now db credential = do
    user ← token_user credential
    digest ← hash p credential
    token ←
        context (find (is_open db.users now digest user) db.tokens)
          "invalid or expired enrollment credential"
    binding ←
        context (find (is_local token.user_id) db.bindings)
          "invalid or expired enrollment credential"
    ok binding.subject

  unfoldable pub resolve : Registry → Text → Text → Result Text
  resolve db provider subject = do
    binding ←
        context
          (find (λ (b : IdentityBinding). b.provider == provider && b.subject == subject)
            db.bindings)
          "no row"
    user_id_of p binding.user_id

  module _ (sql : Sqlite Registry) (capacity : Capacity) where
    -- `audit_event`, in a transaction of its own.
    unfoldable pub audit_event : Surroundings → Event → Registry → Result (Unit {0}) × Registry
    audit_event around event db = elim (append around event false db.audit) [
      | err e ↦ (err e, db)
      | ok done ↦
          let after : Registry = record db { audit = done.1 } in
          elim (check_database capacity false (sql.page_count after) (sql.page_size after)) [
            | err e ↦ (err e, db)
            | ok _ ↦ if sql.commits after then (ok tt, after) else (err "commit", db)
          ]
    ]

    -- The retry of an enrollment whose answer was lost, up to its audit event.
    unfoldable pub retry_checks : Text → Text → Bytes → Registry → Result Event
    retry_checks key previous encoded db = do
      ensure (previous == key) "enrollment token already consumed"
      d ←
          context
            (find (λ (d : Device). is_active key d && is_enabled db.users d.user_id) db.devices)
            "no row"
      ensure (d.registration == encoded) "enrollment retry changed device binding"
      target ← reference_of d.audit_ref
      ok (record (committed device_enrolled) {
        stage = result_stage;
        reason = idempotent_retry;
        actor = verified_device;
        actor_reference = some target;
      })

    unfoldable pub retry :
        Surroundings → Text → Text → Bytes → Registry → Result (Unit {0}) × Registry
    unfolding retry_checks audit_event
    retry around key previous encoded db = elim (retry_checks key previous encoded db) [
      | err e ↦ (err e, db)
      | ok event ↦ audit_event around event db
    ]

    -- `INSERT INTO devices`, with the key and the pair of user and device unique.
    unfoldable pub insert_device : Device → List Device → Result (List Device)
    insert_device d devices = do
      ensure
          (not (
            any
              (λ (e : Device).
                e.nkey == d.nkey || (e.user_id == d.user_id && e.device_id == d.device_id))
              devices))
          "constraint"
      ok (devices ++ d ∷ [])

    -- The inserted row, with the defaults of its columns.
    abbrev pub new_device : Surroundings → Text → DeviceRegistration → Bytes → Device
    new_device around user registration encoded = record {
      nkey = registration.payload.nats_public_key;
      user_id = user;
      device_id = registration.payload.device_id;
      registration = encoded;
      ready = false;
      revoked = false;
      authorization_generation = 1;
      audit_ref = around.fresh_reference;
    }

    -- The transaction of a first enrollment.
    unfoldable pub enroll_action :
        Surroundings → ℕ → Text → Bytes → DeviceRegistration → Bytes → Registry → Result Registry
    unfolding count_if insert_device
    enroll_action around now user digest registration encoded db = do
      let key = registration.payload.nats_public_key
      ensure (count_if (is_consumable db.users now digest) db.tokens == 1)
          "enrollment token expired or consumed"
      devices ← insert_device (new_device around user registration encoded) db.devices
      target ← reference_of around.fresh_reference
      done ←
          append around
            (record (committed device_enrolled) {
              actor = verified_device;
              actor_reference = some target;
              target_reference = some target;
            })
            false db.audit
      let after : Registry = record db {
        tokens = map (consume db.users now digest key) db.tokens;
        devices = devices;
        audit = done.1;
      }
      check_registry sql capacity after
      check_database capacity false (sql.page_count after) (sql.page_size after)
      ok after

    -- The user, the digest and the encoding, behind the checks that read no table.
    unfoldable pub enroll_checks : Text → DeviceRegistration → Result (Text × Bytes × Bytes)
    enroll_checks token registration = do
      verify p registration
      user ← token_user token
      ensure (registration.payload.user_id == user && registration.payload.generation == 1)
          "enrollment identity mismatch"
      digest ← hash p token
      encoded ← encode p (register registration)
      ok (user, digest, encoded)

    unfoldable pub provider_checks : ℕ → Text → Text → Registry → Result (Unit {0})
    provider_checks now token user db = do
      subject ← authenticate now db token
      resolved ← resolve db (text "local") subject
      ensure (resolved == user) "provider binding mismatch"

    unfoldable pub first_enrollment :
        Surroundings
        → ℕ
        → Text
        → Text
        → Bytes
        → DeviceRegistration
        → Bytes
        → Registry
        → Result (Unit {0}) × Registry
    unfolding enroll_action provider_checks
    first_enrollment around now token user digest registration encoded db =
        elim (provider_checks now token user db) [
          | err e ↦ (err e, db)
          | ok _ ↦ elim (enroll_action around now user digest registration encoded db) [
            | err e ↦ (err e, db)
            | ok after ↦ if sql.commits after then (ok tt, after) else (err "commit", db)
          ]
        ]

    unfoldable pub enroll_token :
        Surroundings
        → ℕ
        → Text
        → DeviceRegistration
        → Text × Bytes × Bytes
        → Registry
        → Result (Unit {0}) × Registry
    unfolding retry first_enrollment used_by
    enroll_token around now token registration (user, digest, encoded) db =
        elim (used_by digest db.tokens) [
          | some previous ↦ retry around registration.payload.nats_public_key previous encoded db
          | none ↦ first_enrollment around now token user digest registration encoded db
        ]

    unfoldable pub enroll :
        Surroundings → ℕ → Text → DeviceRegistration → Registry → Result (Unit {0}) × Registry
    unfolding enroll_checks enroll_token
    enroll around now token registration db = elim (enroll_checks token registration) [
      | err e ↦ (err e, db)
      | ok checked ↦ enroll_token around now token registration checked db
    ]
