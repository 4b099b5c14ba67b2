-- ===== src/Registry/Revoke/Led.antt =====
-- The outcomes of `revoke` of identity_model.rs, and the coordinators of the groups.
use epochgrid.Base.{
  suc, List, [], ◌∷◌, any, find, nat_eq, bytes_eq, true, false, Text, some, ok, err, String, ◌≡◌,
  ◌≢◌, refl, arith, ◌⊎◌, inl, inr, Bool-cases, Result-cases,
}
use epochgrid.Wire.{Primitives}
use epochgrid.Capacity.{Capacity, check_database}
use epochgrid.Store.{Sqlite}
use epochgrid.Audit.Log.{Surroundings}
use epochgrid.Registry.Tables.{Registry, GroupRow, is_edge, is_group}
use epochgrid.Registry.Admission.{authorize}
use epochgrid.Registry.Revoke.{
  is_active, revoke_rows, audit_revocation, check_and_commit, revoke_active, revoke,
}
use epochgrid.Registry.Revoke.Rows.{
  Led, without_key-any, without_key-none, revoked_row, find-revoked_row, revoked_device-find,
  inactive-find, find-none-authorize, revoke_rows-Led,
}

-- A group in which the key was a member, behind the updates.
pub record Advanced (key : Text) (gid : Text) (g : GroupRow) (db' : Registry) : Type 0 where
  pub row : GroupRow
  pub found : find (is_group gid) db'.groups ≡ some row
  pub next : row.generation ≡ suc g.generation
  pub epoch_same : row.epoch ≡ g.epoch
  pub forgotten : row.last_update ≡ []

-- What is left behind the revocation of an active device.
pub record Removed (key : Text) (db db' : Registry) : Type 0 where
  pub gone : (gid : Text) → any (is_edge gid key) db'.members ≡ false
  pub others :
      (gid other : Text)
      → other ≢ key
      → any (is_edge gid other) db'.members ≡ any (is_edge gid other) db.members
  pub led : Led db → Led db'
  pub advanced :
      (gid : Text) (g : GroupRow)
      → find (is_group gid) db.groups ≡ some g
      → any (is_edge gid key) db.members ≡ true
      → Advanced key gid g db'

revoke_rows-find :
    (key : Text) (db : Registry) (gid : Text) (g : GroupRow)
    → find (is_group gid) db.groups ≡ some g
    → find (is_group gid) (revoke_rows key db).groups ≡ some (revoked_row key db.members g)
unfolding revoke_rows
revoke_rows-find key db gid g h = (find-revoked_row key db.members gid db.groups).1 g h

find-gid :
    (gid : Text) (groups : List GroupRow) (g : GroupRow)
    → find (is_group gid) groups ≡ some g
    → g.gid ≡ gid
find-gid gid [] g h = absurd (ground arith)
find-gid gid (r ∷ groups) g h = ground (arith, find-gid gid groups g)

revoke_rows-Removed : (key : Text) (db : Registry) → Removed key db (revoke_rows key db)
revoke_rows-Removed key db = record {
  gone = λ gid. unfold revoke_rows in without_key-none gid key db.members;
  others = λ gid other n. unfold revoke_rows in without_key-any gid key other db.members n;
  led = revoke_rows-Led key db;
  advanced = λ gid g h e.
      let at = find-gid gid db.groups g h in
      record {
        row = revoked_row key db.members g;
        found = revoke_rows-find key db gid g h;
        next = ground (arith, e, at);
        epoch_same = ground (arith, e, at);
        forgotten = ground (arith, e, at);
      };
}

module _ (sql : Sqlite Registry) (capacity : Capacity) where
  pub audit_revocation-same :
      (around : Surroundings) (key : Text) (db : Registry)
      → audit_revocation sql capacity around key db
        ≡ record db { audit = (audit_revocation sql capacity around key db).audit }
  unfolding audit_revocation
  audit_revocation-same around key db = refl

  check_and_commit-cases :
      (before after : Registry)
      → ((e : String) × (check_and_commit sql capacity before after ≡ (err e, before)))
        ⊎ (check_and_commit sql capacity before after ≡ (ok tt, after))
  unfolding check_and_commit
  check_and_commit-cases before after =
      elim (Result-cases
        (check_database capacity true (sql.page_count after) (sql.page_size after))) [
          | inr (m, k) ↦ inl (m, rw (k, check_and_commit))
          | inl (u, k) ↦ elim (Bool-cases (sql.commits after)) [
            | inl c ↦ inr (rw (k, check_and_commit, c))
            | inr c ↦ inl ("commit", rw (k, check_and_commit, c))
          ]
        ]

  pub revoke-cases :
      (around : Surroundings) (key : Text) (db : Registry)
      → ((e : String) × (revoke sql capacity around key db ≡ (err e, db)))
        ⊎ (((any (is_active key) db.devices ≡ false)
              × (revoke sql capacity around key db ≡ (ok tt, db)))
            ⊎ ((any (is_active key) db.devices ≡ true)
                × (revoke sql capacity around key db
                    ≡ (ok tt, audit_revocation sql capacity around key (revoke_rows key db)))))
  unfolding revoke revoke_active
  revoke-cases around key db = elim (Bool-cases (any (is_active key) db.devices)) [
    | inr e ↦ elim (Bool-cases (sql.commits db)) [
      | inl c ↦ inr (inl (e, rw (e, c)))
      | inr c ↦ inl ("commit", rw (e, c))
    ]
    | inl e ↦
        elim (check_and_commit-cases db
          (audit_revocation sql capacity around key (revoke_rows key db))) [
            | inl (m, k) ↦ inl (m, rw e k)
            | inr k ↦ inr (inr (e, rw e k))
          ]
  ]

  -- A revocation either fails and leaves every table, or succeeds: then the device is not admitted any
  -- more, and if it was active before, it is a member of no group and no other member is lost, each
  -- group that it was in is one generation further at the same epoch, with no update that could be
  -- retried, and where every group had a coordinator among its members or none, it still has.
  pub revoke_lem :
      (p : Primitives) (around : Surroundings) (key : Text) (db : Registry)
      → ((e : String) × (revoke sql capacity around key db ≡ (err e, db))) ⊎ (record {
        db' : Registry;
        result : revoke sql capacity around key db ≡ (ok tt, db');
        refused : authorize p db' key ≡ err "device not admitted";
        removed : any (is_active key) db.devices ≡ true → Removed key db db';
        idle : any (is_active key) db.devices ≡ false → db' ≡ db;
      })
  revoke_lem p around key db = elim (revoke-cases around key db) [
    | inl x ↦ inl x
    | inr (inl (e, r)) ↦ inr (record {
      db' = db;
      result = r;
      refused = find-none-authorize p db key (inactive-find db.users key db.devices e);
      removed = λ a. absurd (ground arith);
      idle = λ a. refl;
    })
    | inr (inr (e, r)) ↦
        let rows = revoke_rows key db in
        inr (record {
          db' = audit_revocation sql capacity around key rows;
          result = r;
          refused = find-none-authorize p _ key (
              rw (audit_revocation-same around key rows)
                (unfold revoke_rows in revoked_device-find db.users key _));
          removed = λ a.
              (let x = revoke_rows-Removed key db in
                rw (audit_revocation-same around key rows) (record {
                  gone = x.gone;
                  others = x.others;
                  led = λ l. unfold Led in x.led l;
                  advanced = λ gid g h m.
                      (let y = x.advanced gid g h m in
                        record {
                          row = y.row;
                          found = y.found;
                          next = y.next;
                          epoch_same = y.epoch_same;
                          forgotten = y.forgotten;
                        });
                }));
          idle = λ a. absurd (ground arith);
        })
  ]
