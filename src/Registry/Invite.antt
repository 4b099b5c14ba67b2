-- ===== src/Registry/Invite.antt =====
-- `invite` and `enrollment_admission` of identity_model.rs.
pub mod Issued
use epochgrid.Base.{
  ℕ, ◌+◌, List, [], ◌∷◌, ◌++◌, map, any, find, leb, ltb, ◌==◌, nat_eq, bytes_eq, ◌&&◌, ◌||◌, not,
  Bool, true, false, Text, text, Bytes, Option, none, some, Result, ok, err, String, context,
  ensure, ◌>>=◌, ◌>>◌, if◌then◌else◌, ◌≡◌, ◌≤◌, refl, ap, ◌∙◌, arith, ◌⊎◌, inl, inr, Bool-cases,
  Result-cases, >>=-eq-ok,
}
use epochgrid.Wire.{Primitives, validate_id}
use epochgrid.Merkle.{hash}
use epochgrid.Capacity.{Capacity, check_database}
use epochgrid.Store.{Sqlite}
use epochgrid.Audit.Events.{Event, committed, token_issued, local_operator, reference_of}
use epochgrid.Audit.Log.{Surroundings, append}
use epochgrid.Registry.Tables.{Registry, User, Token, IdentityBinding, Device, check_registry}
use epochgrid.Registry.Admission.{lower_ascii}
use epochgrid.Registry.Revoke.{is_active}
use epochgrid.Registry.Enroll.{is_enabled, is_token, token_user, authenticate, resolve}

-- The random bytes of one invitation.
pub record Randomness : Type 0 where
  pub user_bytes : Result Bytes
  pub secret_bytes : Result Bytes

abbrev pub is_handle : Text → IdentityBinding → Bool
is_handle handle b = b.provider == text "local" && b.subject == handle

abbrev pub is_user : Text → User → Bool
is_user id u = u.id == id

module _ (p : Primitives) where
  -- The user of the handle, with the rows that are inserted where it has none.
  unfoldable pub find_or_create :
      Surroundings → Randomness → Text → Registry → Result (Text × Registry)
  find_or_create around random handle db = elim (find (is_handle handle) db.bindings) [
    | some b ↦ ok (b.user_id, db)
    | none ↦ do
      bytes ← random.user_bytes
      let id : Text = text "egusr-" ++ map lower_ascii (p.base32_encode bytes)
      ensure (not (any (is_user id) db.users)) "constraint"
      let created : Registry = record db {
        users =
            db.users ++ record { id = id; enabled = true; audit_ref = around.fresh_reference } ∷ [];
        bindings =
            db.bindings ++ record { provider = text "local"; subject = handle; user_id = id } ∷ [];
      }
      ok (id, created)
  ]

  unfoldable pub token_text : Randomness → Text → Result Text
  token_text random user = do
    bytes ← random.secret_bytes
    ok (text "EG1." ++ user ++ text "." ++ p.base32_encode bytes)

  unfoldable pub insert_token : Token → Registry → Result Registry
  insert_token t db = do
    ensure (not (any (is_token t.digest) db.tokens)) "constraint"
    ok (record db { tokens = db.tokens ++ t ∷ [] })

  module _ (sql : Sqlite Registry) (capacity : Capacity) where
    -- The audit event and the budgets, behind the rows.
    unfoldable pub record_issue : Surroundings → Text → Text → Registry → Result (Text × Registry)
    record_issue around token audit_ref db = do
      target ← reference_of audit_ref
      done ←
          append around
            (record (committed token_issued) {
              actor = local_operator;
              target_reference = some target;
            })
            false db.audit
      let after : Registry = record db { audit = done.1 }
      check_registry sql capacity after
      check_database capacity false (sql.page_count after) (sql.page_size after)
      ok (token, after)

    unfoldable pub issue :
        Surroundings → Randomness → ℕ → Text → Text → Registry → Result (Text × Registry)
    unfolding token_text insert_token record_issue
    issue around random expires user audit_ref db = do
      token ← token_text random user
      digest ← hash p token
      issued ←
          insert_token
            (record { digest = digest; user_id = user; expires = expires; used_key = none }) db
      record_issue around token audit_ref issued

    unfoldable pub invite_action :
        Surroundings → Randomness → ℕ → Text → ℕ → Registry → Result (Text × Registry)
    unfolding find_or_create issue
    invite_action around random now handle ttl db = do
      validate_id handle
      ensure (leb 1 ttl && leb ttl 3600) "enrollment lifetime must be 1–3600 seconds"
      found ← find_or_create around random handle db
      row ← context (find (is_user found.0) found.1.users) "no row"
      ensure row.enabled "user disabled"
      issue around random (now + ttl) found.0 row.audit_ref found.1

    unfoldable pub invite :
        Surroundings → Randomness → ℕ → Text → ℕ → Registry → Result Text × Registry
    unfolding invite_action
    invite around random now handle ttl db = elim (invite_action around random now handle ttl db) [
      | err e ↦ (err e, db)
      | ok done ↦ if sql.commits done.1 then (ok done.0, done.1) else (err "commit", db)
    ]

  -- The token was spent on this key, by a device that is not revoked, of an enabled user.
  abbrev pub is_spent : Registry → ℕ → Bytes → Text → Text → Token → Bool
  is_spent db now digest key user t =
      t.digest == digest
      && (elim t.used_key [ none ↦ false | some k ↦ k == key ])
      && t.user_id == user
      && ltb now t.expires
      && any (λ (d : Device). is_active key d && is_enabled db.users d.user_id) db.devices

  unfoldable pub retry_admission : ℕ → Text → Text → Registry → Result Text
  retry_admission now token key db = do
    user ← token_user p token
    digest ← hash p token
    ensure (any (is_spent db now digest key user) db.tokens) "enrollment credential not admitted"
    ok user

  unfoldable pub enrollment_admission : ℕ → Text → Text → Registry → Result Text
  unfolding retry_admission
  enrollment_admission now token key db = elim (authenticate p now db token) [
    | ok subject ↦ resolve p db (text "local") subject
    | err e ↦ retry_admission now token key db
  ]
