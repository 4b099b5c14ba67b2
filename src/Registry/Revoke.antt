-- ===== src/Registry/Revoke.antt =====
-- `AuthRegistry::revoke` and `activate` of identity_model.rs.
pub mod Rows
pub mod Led
use epochgrid.Base.{
  ℕ, ◌+◌, List, [], ◌∷◌, map, any, find, retain, ltb, ◌==◌, nat_eq, bytes_eq, ◌&&◌, not, Bool, true,
  false, Text, Option, none, some, Result, ok, err, context, ensure, ◌>>=◌, ◌>>◌, if◌then◌else◌,
}
use epochgrid.Capacity.{Capacity, check_database}
use epochgrid.Store.{Sqlite}
use epochgrid.Audit.Events.{Event, committed, device_revoked, device_activated, reference_of}
use epochgrid.Audit.Log.{AuditLog, Surroundings, append, repair}
use epochgrid.Registry.Tables.{Registry, Device, GroupRow, Edge, is_edge, bump}

abbrev pub is_active : Text → Device → Bool
is_active key d = d.nkey == key && not d.revoked

-- `gid IN (SELECT gid FROM authorization_members WHERE nkey=?1)`
abbrev pub holds_key : Text → List Edge → Text → Bool
holds_key key members gid = any (is_edge gid key) members

-- `nkey IN (SELECT m.nkey FROM authorization_members m WHERE m.gid IN ..)`
abbrev pub meets_key : Text → List Edge → Text → Bool
meets_key key members nkey =
    any (λ (m : Edge). m.nkey == nkey && holds_key key members m.gid) members

-- `ORDER BY leaf LIMIT 1`
unfoldable pub lowest : List Edge → Option Edge
lowest [] = none
lowest (e ∷ rest) = elim (lowest rest) [
  | none ↦ some e
  | some f ↦ if ltb f.leaf e.leaf then some f else some e
]

-- `COALESCE(.., '')`
abbrev pub key_or_empty : Option Edge → Text
key_or_empty none = []
key_or_empty (some e) = e.nkey

unfoldable pub successor : Text → List Edge → Text
unfolding lowest
successor gid members = key_or_empty (lowest (retain (λ (e : Edge). e.gid == gid) members))

-- The second statement, and the fourth, on one row: `before` and `after` are the members before and
-- after the third.
abbrev pub advance : Text → List Edge → GroupRow → GroupRow
advance key before g =
    if holds_key key before g.gid
    then record g { generation = g.generation + 1; last_update = [] }
    else g

abbrev pub reassign : Text → List Edge → GroupRow → GroupRow
reassign key after g =
    if g.coordinator == key then record g { coordinator = successor g.gid after } else g

unfoldable pub without_key : Text → List Edge → List Edge
without_key key members = retain (λ (e : Edge). not (e.nkey == key)) members

unfoldable pub revoke_device : Text → Device → Device
revoke_device key d = if is_active key d then record (bump d) { revoked = true } else d

-- The five updates.
unfoldable pub revoke_rows : Text → Registry → Registry
unfolding without_key revoke_device successor
revoke_rows key db = record db {
  devices =
      map (revoke_device key)
        (map (λ (d : Device). if meets_key key db.members d.nkey then bump d else d) db.devices);
  groups = map (reassign key (without_key key db.members)) (map (advance key db.members) db.groups);
  members = without_key key db.members;
}

unfoldable pub reference_or_none : Registry → Text → Option Text
reference_or_none db key = elim (find (λ (d : Device). d.nkey == key) db.devices) [
  | none ↦ none
  | some d ↦ elim (reference_of d.audit_ref) [ ok t ↦ some t | err e ↦ none ]
]

module _ (sql : Sqlite Registry) (capacity : Capacity) where
  unfoldable pub audit_revocation : Surroundings → Text → Registry → Registry
  unfolding reference_or_none
  audit_revocation around key db = record db {
    audit =
        repair around
          (λ log.
            (let db' : Registry = record db { audit = log } in
              check_database capacity true (sql.page_count db') (sql.page_size db')))
          (record (committed device_revoked) { target_reference = reference_or_none db key })
          db.audit;
  }

  -- `tx.commit()`
  abbrev pub commit : Registry → Registry → Result (Unit {0}) × Registry
  commit before after = if sql.commits after then (ok tt, after) else (err "commit", before)

  unfoldable pub check_and_commit : Registry → Registry → Result (Unit {0}) × Registry
  check_and_commit before after =
      elim (check_database capacity true (sql.page_count after) (sql.page_size after)) [
        | err e ↦ (err e, before)
        | ok _ ↦ commit before after
      ]

  unfoldable pub revoke_active : Surroundings → Text → Registry → Result (Unit {0}) × Registry
  unfolding audit_revocation revoke_rows check_and_commit
  revoke_active around key db =
      check_and_commit db (audit_revocation around key (revoke_rows key db))

  unfoldable pub revoke : Surroundings → Text → Registry → Result (Unit {0}) × Registry
  unfolding revoke_active
  revoke around key db =
      if any (is_active key) db.devices then revoke_active around key db else commit db db

  -- `activate`: the device becomes ready once, with an event that is not repaired.
  unfoldable pub activate_action : Surroundings → Text → Registry → Result Registry
  activate_action around key db = do
    d ← context (find (is_active key) db.devices) "no row"
    if d.ready then ok db else (do
      let ready : Registry = record db {
        devices =
            map (λ (e : Device). if e.nkey == key then record e { ready = true } else e) db.devices;
      }
      target ← reference_of d.audit_ref
      done ←
          append around (record (committed device_activated) { target_reference = some target })
            false db.audit
      let after : Registry = record ready { audit = done.1 }
      check_database capacity false (sql.page_count after) (sql.page_size after)
      ok after)

  unfoldable pub activate : Surroundings → Text → Registry → Result (Unit {0}) × Registry
  unfolding activate_action
  activate around key db = elim (activate_action around key db) [
    | err e ↦ (err e, db)
    | ok after ↦ commit db after
  ]
