-- ===== src/Registry/Tables.antt =====
-- The tables of the registry, and `check_registry` of capacity.rs.
use epochgrid.Base.{
  ℕ, ◌+◌, List, [], ◌∷◌, length, max, map, retain, leb, ◌==◌, nat_eq, bytes_eq, ◌&&◌, not, Bool,
  true, Text, Bytes, Option, Result, ensure, ◌>>◌, ok,
}
use epochgrid.Capacity.{Capacity, check_database}
use epochgrid.Audit.Log.{AuditLog}
use epochgrid.Store.{Sqlite}

pub record User : Type 0 where
  pub id : Text
  pub enabled : Bool
  pub audit_ref : Text

pub record Token : Type 0 where
  pub digest : Bytes
  pub user_id : Text
  pub expires : ℕ
  pub used_key : Option Text

pub record IdentityBinding : Type 0 where
  pub provider : Text
  pub subject : Text
  pub user_id : Text

pub record Device : Type 0 where
  pub nkey : Text
  pub user_id : Text
  pub device_id : Text
  pub registration : Bytes
  pub ready : Bool
  pub revoked : Bool
  pub authorization_generation : ℕ
  pub audit_ref : Text

-- A row of `authorization_groups`.
pub record GroupRow : Type 0 where
  pub gid : Text
  pub generation : ℕ
  pub epoch : ℕ
  pub coordinator : Text
  pub last_update : Bytes
  pub audit_ref : Text

-- A row of `authorization_members`.
pub record Edge : Type 0 where
  pub gid : Text
  pub nkey : Text
  pub leaf : ℕ

pub record Registry : Type 0 where
  pub users : List User
  pub bindings : List IdentityBinding
  pub tokens : List Token
  pub devices : List Device
  pub groups : List GroupRow
  pub members : List Edge
  pub audit : AuditLog

abbrev pub is_edge : Text → Text → Edge → Bool
is_edge gid nkey e = e.gid == gid && e.nkey == nkey

abbrev pub is_group : Text → GroupRow → Bool
is_group gid g = g.gid == gid

-- `authorization_generation=authorization_generation+1`
abbrev pub bump : Device → Device
bump d = record d { authorization_generation = d.authorization_generation + 1 }

abbrev pub registration_bytes : ℕ
registration_bytes = 1536

-- `COALESCE(MAX(n),0)`
unfoldable pub maximum : List ℕ → ℕ
maximum [] = 0
maximum (n ∷ rest) = max n (maximum rest)

-- `COUNT(*) .. WHERE revoked=0 GROUP BY user_id`, a count for each row.
abbrev pub active_per_user : List Device → List ℕ
active_per_user devices =
    let active = retain (λ (d : Device). not d.revoked) devices in
    map (λ (d : Device). length (retain (λ (e : Device). e.user_id == d.user_id) active)) active

abbrev pub groups_per_key : List Edge → List ℕ
groups_per_key members =
    map (λ (m : Edge). length (retain (λ (e : Edge). e.nkey == m.nkey) members)) members

unfoldable pub within : List (ℕ × ℕ) → Result (Unit {0})
within [] = ok tt
within ((count, limit) ∷ rest) = do
  ensure (leb count limit)
      "capacity exhausted: registry; increase declared limits within representation ceilings"
  within rest

unfoldable pub check_registry : Sqlite Registry → Capacity → Registry → Result (Unit {0})
unfolding maximum within
check_registry sql c db = do
  within (
      (length db.users, c.retained_users)
      ∷ (length db.devices, c.retained_devices)
      ∷ (length db.tokens, c.retained_tokens)
      ∷ (length db.groups, c.retained_groups)
      ∷ (length db.members, c.membership_edges)
      ∷ (maximum (active_per_user db.devices), c.devices_per_user)
      ∷ (maximum (groups_per_key db.members), c.groups_per_device)
      ∷ (maximum (map (λ (d : Device). length d.registration) db.devices), registration_bytes)
      ∷ [])
  check_database c true (sql.page_count db) (sql.page_size db)
