-- ===== src/Authorization/Written.antt =====
-- What an update that changes the tables has shown, and what it leaves.
use epochgrid.Base.{
  ℕ, ◌+◌, ◌<◌, List, [], ◌∷◌, ◌++◌, map, any, find, retain, ◌==◌, nat_eq, bytes_eq, not, Bool, true,
  Text, Bytes, Option, none, some, ok, ◌≡◌, ◌≢◌, refl, arith, All, Unique, Result-cases, inl, inr,
}
use epochgrid.Wire.{Member, PolicyUpdate, Primitives}
use epochgrid.Capacity.{Capacity}
use epochgrid.Store.{Sqlite}
use epochgrid.Audit.Log.{Surroundings}
use epochgrid.Registry.Tables.{Device, bump, Registry, GroupRow, Edge, check_registry, is_group}
use epochgrid.Authorization.Policy.{
  check_current, replace_policy, reducing, write_policy, record_policy, check_members,
}
use epochgrid.Authorization.Members.{
  Authorized, Ascending, key_of, edge_of, check_members_lem, record_policy-same, write_policy-same,
  write_policy-any, write_policy-members, write_policy-groups, find-upsert_group,
  find-upsert_group_other,
}

-- The group that an update may follow.
pub data Follows (update : PolicyUpdate) : Option GroupRow → Type 0 where
  founds :
      update.expected_generation ≡ 0
      → update.epoch ≡ 0
      → (m : Member) → update.members ≡ m ∷ []
      → m.nkey ≡ update.signer
      → m.leaf ≡ 0
      → Follows update none
  follows :
      (g : GroupRow)
      → g.generation ≡ update.expected_generation
      → g.coordinator ≡ update.signer
      → g.epoch < update.epoch
      → Follows update (some g)

pub check_current-Follows :
    (update : PolicyUpdate) (bytes : Bytes) (o : Option GroupRow)
    → check_current update bytes o ≡ ok none
    → Follows update o
unfolding check_current
check_current-Follows update bytes (some g) h =
    follows g (ground arith) (ground arith) (ground arith)
check_current-Follows update bytes none h = single update.members refl
  where
    single : (ms : List Member) → update.members ≡ ms → Follows update none
    single [] e = absurd (ground arith)
    single (m ∷ []) e = founds (ground arith) (ground arith) m e (ground arith) (ground arith)
    single (m ∷ n ∷ ms) e = absurd (ground arith)

pub check_current_retry :
    (update : PolicyUpdate) (bytes : Bytes) (o : Option GroupRow) (n : ℕ)
    → check_current update bytes o ≡ ok (some n)
    → (g : GroupRow) × (o ≡ some g)
      × (g.generation ≡ n)
      × (n ≡ update.expected_generation + 1)
      × (g.last_update ≡ bytes)
unfolding check_current
check_current_retry update bytes (some g) n h = (g, refl, ground arith, ground arith, ground arith)
check_current_retry update bytes none n h = absurd (ground arith)

module _ (p : Primitives) (sql : Sqlite Registry) (capacity : Capacity) where
  -- The tables before and after an update that changed them.
  pub record Changed (update : PolicyUpdate) (bytes : Bytes) (db db' : Registry) : Type 0 where
    pub signer : Authorized p db update.signer
    pub authorized : All (λ m. Authorized p db m.nkey) update.members
    pub distinct : Unique (map key_of update.members)
    pub ascending : Ascending none update.members
    pub stays : any (λ (m : Member). m.nkey == update.signer) update.members ≡ true
    pub current : Follows update (find (is_group update.gid) db.groups)
    pub edges :
        db'.members
        ≡ retain (λ (e : Edge). not (e.gid == update.gid)) db.members
          ++ map (edge_of update.gid) update.members
    pub group :
        (reference : Text) × (find (is_group update.gid) db'.groups
          ≡ some (record {
            gid = update.gid;
            generation = update.expected_generation + 1;
            epoch = update.epoch;
            coordinator = update.signer;
            last_update = bytes;
            audit_ref = reference;
          }))
    pub others :
        (gid : Text)
        → update.gid ≢ gid
        → find (is_group gid) db'.groups ≡ find (is_group gid) db.groups
    pub people : (db'.users ≡ db.users) × (db'.tokens ≡ db.tokens)
    pub steady :
        (q : Device → Bool)
        → ((d : Device) → q (bump d) ≡ q d)
        → any q db'.devices ≡ any q db.devices
    pub fits : check_registry sql capacity db' ≡ ok tt

  -- The group is at the generation after the expected one already, by an update of the same bytes.
  pub record Retried (update : PolicyUpdate) (bytes : Bytes) (db : Registry) : Type 0 where
    pub signer : Authorized p db update.signer
    pub row : GroupRow
    pub found : find (is_group update.gid) db.groups ≡ some row
    pub reached : row.generation ≡ update.expected_generation + 1
    pub same : row.last_update ≡ bytes

  written :
      (around : Surroundings) (update : PolicyUpdate) (bytes : Bytes) (db db' : Registry)
      (fewer : Bool)
      → record_policy p sql capacity around fewer update
          (write_policy around.fresh_reference update bytes db)
        ≡ ok db'
      → db' ≡ record (write_policy around.fresh_reference update bytes db) { audit = db'.audit }
  written around update bytes db db' fewer h =
      record_policy-same p sql capacity around fewer update _ db' h

  pub replace_policy-Changed :
      (around : Surroundings) (update : PolicyUpdate) (bytes : Bytes) (db : Registry) (g : ℕ)
      (db' : Registry)
      → Authorized p db update.signer
      → check_members p sql capacity db [] none update.members ≡ ok tt
      → Follows update (find (is_group update.gid) db.groups)
      → replace_policy p sql capacity around update bytes db ≡ ok (g, db')
      → (g ≡ update.expected_generation + 1) × Changed update bytes db db'
  unfolding replace_policy
  replace_policy-Changed around update bytes db g db' a c f h =
      elim (Result-cases (
        record_policy p sql capacity around (reducing update db.members) update
          (write_policy around.fresh_reference update bytes db))) [
            | inr (e, k) ↦ absurd (ground arith)
            | inl (recorded, k) ↦
                let same : db' ≡ recorded = ground arith in
                let w = written around update bytes db recorded (reducing update db.members) k in
                let (admitted, seen, asc, u) =
                  check_members_lem p sql capacity db [] none update.members c in
                (
                  ground arith,
                  rw same (record {
                    signer = a;
                    authorized = admitted;
                    distinct = u;
                    ascending = asc;
                    stays = ground arith;
                    current = f;
                    edges = rw w (write_policy-members around.fresh_reference update bytes db);
                    group = rw w (
                        rw (write_policy-groups around.fresh_reference update bytes db)
                          (find-upsert_group _ db.groups));
                    others = λ gid n. rw w (
                        rw (write_policy-groups around.fresh_reference update bytes db)
                          (find-upsert_group_other gid _ db.groups n));
                    people = rw w (write_policy-same around.fresh_reference update bytes db);
                    steady =
                        λ q h. rw w (write_policy-any q h around.fresh_reference update bytes db);
                    fits = ground arith;
                  }),
                )
          ]
