-- ===== src/Authorization/Policy.antt =====
-- `apply_policy_inner` and `validate_gid` of authorization.rs.
use epochgrid.Base.{
  ℕ, ◌+◌, List, [], ◌∷◌, ◌++◌, map, length, all, any, find, retain, leb, ltb, ◌==◌, nat_eq,
  bytes_eq, ◌&&◌, ◌||◌, not, Bool, true, false, Text, text, Bytes, Option, none, some, Result, ok,
  err, context, ensure, ◌>>=◌, ◌>>◌, if◌then◌else◌, i64_max, is_empty,
}
use epochgrid.Base.Exec.{Exec}
use epochgrid.Wire.{Member, PolicyUpdate, SignedPolicy, Primitives}
use epochgrid.Capacity.{Capacity, check_database}
use epochgrid.Capacity.Bucket.{RateLimit, new, allow}
use epochgrid.Store.{Sqlite}
use epochgrid.Audit.Events.{
  Event, committed, policy_committed, verified_device, is_hex_byte, reference_of,
}
use epochgrid.Audit.Log.{Surroundings, append, repair}
use epochgrid.Registry.Tables.{
  Registry, Device, GroupRow, Edge, is_edge, is_group, bump, check_registry,
}
use epochgrid.Registry.Admission.{authorize}

-- `AuthRegistry` without its capacity, which stays as it was opened.
pub record AuthRegistry : Type 0 where
  pub db : Registry
  pub principal_rates : List (Text × RateLimit)

unfoldable pub validate_gid : Text → Result (Unit {0})
validate_gid gid = ensure (length gid == 32 && all is_hex_byte gid) "invalid authorization group ID"

abbrev pub is_principal : Text → Text × RateLimit → Bool
is_principal key entry = entry.0 == key

-- `entry(key).or_insert_with(|| RateLimit::new(4, 16, now)).allow(now)`
unfoldable pub charge : Text → ℕ → List (Text × RateLimit) → List (Text × RateLimit) × Bool
charge key now [] = let (limit, allowed) = allow (new 4 16 now) now in ((key, limit) ∷ [], allowed)
charge key now (entry ∷ rest) =
    let (rest', allowed') = charge key now rest in
    let (limit, allowed) = allow entry.1 now in
    if entry.0 == key then ((key, limit) ∷ rest, allowed) else (entry ∷ rest', allowed')

-- `INSERT .. ON CONFLICT(gid) DO UPDATE`: the reference is set where the row is inserted.
unfoldable pub upsert_group : GroupRow → List GroupRow → List GroupRow
upsert_group g [] = g ∷ []
upsert_group g (h ∷ rest) =
    let rest' = upsert_group g rest in
    if h.gid == g.gid then record g { audit_ref = h.audit_ref } ∷ rest else h ∷ rest'

-- The two statements for one member.
unfoldable pub insert_member : Text → Member → Registry → Registry
insert_member gid m db = record db {
  members = db.members ++ record { gid = gid; nkey = m.nkey; leaf = m.leaf } ∷ [];
  devices = map (λ (d : Device). if d.nkey == m.nkey then bump d else d) db.devices;
}

unfoldable pub insert_members : Text → List Member → Registry → Registry
insert_members gid [] db = db
insert_members gid (m ∷ rest) db = insert_members gid rest (insert_member gid m db)

-- The writes between the checks and the audit event.
unfoldable pub write_policy : Text → PolicyUpdate → Bytes → Registry → Registry
unfolding insert_members upsert_group
write_policy fresh_reference update bytes db = insert_members update.gid update.members (record db {
  devices =
      map (λ (d : Device). if any (is_edge update.gid d.nkey) db.members then bump d else d)
        db.devices;
  groups =
      upsert_group
        (record {
          gid = update.gid;
          generation = update.expected_generation + 1;
          epoch = update.epoch;
          coordinator = update.signer;
          last_update = bytes;
          audit_ref = fresh_reference;
        })
        db.groups;
  members = retain (λ (e : Edge). not (e.gid == update.gid)) db.members;
})

unfoldable pub reducing : PolicyUpdate → List Edge → Bool
reducing update members =
    not (is_empty (retain (λ (e : Edge). e.gid == update.gid) members))
    && all (λ (m : Member). any (is_edge update.gid m.nkey) members) update.members

-- `reference(db, "devices", "nkey", key)` and `reference(db, "authorization_groups", "gid", gid)`
unfoldable pub device_reference : Registry → Text → Result Text
device_reference db key = do
  d ← context (find (λ (d : Device). d.nkey == key) db.devices) "no row"
  reference_of d.audit_ref

unfoldable pub group_reference : Registry → Text → Result Text
group_reference db gid = do
  g ← context (find (is_group gid) db.groups) "no row"
  reference_of g.audit_ref

abbrev pub ok_of : Result Text → Option Text
ok_of (ok t) = some t
ok_of (err e) = none

abbrev policy_event : ℕ → Option Text → Option Text → Event
policy_event generation actor target = record (committed policy_committed) {
  actor = verified_device;
  actor_reference = actor;
  target_reference = target;
  generation = some generation;
}

-- The branch on the group that is there: an exact retry returns its generation, a next update has to
-- come from its coordinator at a newer epoch, and a new group starts with its creator alone.
unfoldable pub check_current : PolicyUpdate → Bytes → Option GroupRow → Result (Option ℕ)
check_current update bytes (some g) =
    if g.generation == update.expected_generation + 1 && g.last_update == bytes
    then ok (some g.generation)
    else (do
      ensure (g.generation == update.expected_generation) "stale policy generation"
      ensure (g.coordinator == update.signer) "only coordinator may change policy"
      ensure (ltb g.epoch update.epoch) "policy requires a newer MLS epoch"
      ok none)
check_current update bytes none = do
  ensure
      (update.expected_generation == 0
        && update.epoch == 0
        && length update.members == 1
        && all (λ (m : Member). m.nkey == update.signer && m.leaf == 0) update.members)
      "new policy must contain only creator at epoch zero"
  ok none

module _ (p : Primitives) (sql : Sqlite Registry) (capacity : Capacity) where
  unfoldable pub policy_bytes : PolicyUpdate → Result Bytes
  policy_bytes update = do
    encoded ← context (p.policy_bytes update) "encoding"
    ok (text "epochgrid/group-authorization/v1" ++ (0 ∷ encoded))

  -- The loop over the members, behind the keys and the leaf before.
  unfoldable pub check_members : Registry → List Text → Option ℕ → List Member → Result (Unit {0})
  check_members db keys previous [] = ok tt
  check_members db keys previous (m ∷ rest) = do
    ensure (not (any (λ k. k == m.nkey) keys)) "duplicate policy device"
    ensure (elim previous [ none ↦ true | some leaf ↦ ltb leaf m.leaf ])
        "policy leaves must be unique and ordered"
    authorized ← authorize p db m.nkey
    check_members db (m.nkey ∷ keys) (some m.leaf) rest

  unfoldable pub record_policy : Surroundings → Bool → PolicyUpdate → Registry → Result Registry
  record_policy around true update db = ok (record db {
    audit =
        repair around
          (λ log.
            (let db' : Registry = record db { audit = log } in
              check_database capacity true (sql.page_count db') (sql.page_size db')))
          (policy_event (update.expected_generation + 1) (ok_of (device_reference db update.signer))
            (ok_of (group_reference db update.gid)))
          db.audit;
  })
  record_policy around false update db = do
    actor ← device_reference db update.signer
    target ← group_reference db update.gid
    done ←
        append around (policy_event (update.expected_generation + 1) (some actor) (some target))
          false db.audit
    ok (record db { audit = done.1 })

  -- Behind the branch on the current group.
  unfoldable pub replace_policy :
      Surroundings → PolicyUpdate → Bytes → Registry → Result (ℕ × Registry)
  unfolding write_policy reducing
  replace_policy around update bytes db = do
    ensure (any (λ (m : Member). m.nkey == update.signer) update.members)
        "coordinator must remain a member"
    let fewer : Bool = reducing update db.members
    recorded ←
        record_policy around fewer update (write_policy around.fresh_reference update bytes db)
    check_registry sql capacity recorded
    check_database capacity fewer (sql.page_count recorded) (sql.page_size recorded)
    ok (update.expected_generation + 1, recorded)

  unfoldable pub answer_policy :
      Surroundings → PolicyUpdate → Bytes → Registry → Option ℕ → Result (ℕ × Registry)
  answer_policy around update bytes db (some generation) = ok (generation, db)
  answer_policy around update bytes db none = replace_policy around update bytes db

  -- The closure inside the transaction.
  unfoldable pub policy_action :
      Surroundings → PolicyUpdate → Bytes → Registry → Result (ℕ × Registry)
  unfolding answer_policy
  policy_action around update bytes db = do
    signer ← authorize p db update.signer
    check_members db [] none update.members
    answer ← check_current update bytes (find (is_group update.gid) db.groups)
    answer_policy around update bytes db answer

  -- `COMMIT`, or the tables as they were.
  unfoldable pub settle : Registry → Result (ℕ × Registry) → Result ℕ × Registry
  settle db (err e) = (err e, db)
  settle db (ok (generation, after)) =
      if sql.commits after then (ok generation, after) else (err "policy commit failed", db)

  -- The checks before the rate limit.
  unfoldable pub policy_checks : SignedPolicy → AuthRegistry → Result (Unit {0})
  policy_checks signed self = do
    let update = signed.update
    ensure (update.version == 1) "unsupported policy version"
    validate_gid update.gid
    ensure (not (is_empty update.members) && leb (length update.members) 128) "invalid policy size"
    ensure (leb update.epoch i64_max && ltb update.expected_generation i64_max)
        "policy counter overflow"
    message ← policy_bytes update
    ensure (p.nkey_verify update.signer message signed.signature) "signature"
    signer ← authorize p self.db update.signer
    ensure
        (any (is_principal update.signer) self.principal_rates
          || ltb (length self.principal_rates) 32)
        "policy principal capacity exhausted"

  unfoldable pub policy_transaction : Surroundings → PolicyUpdate → Exec AuthRegistry ℕ
  unfolding policy_action settle
  policy_transaction around update self = elim (context (p.policy_bytes update) "encoding") [
    | err e ↦ (err e, self)
    | ok bytes ↦
        let (result, db) = settle self.db (policy_action around update bytes self.db) in
        (result, record self { db = db })
  ]

  unfoldable pub apply_policy_inner : Surroundings → ℕ → SignedPolicy → Exec AuthRegistry ℕ
  unfolding policy_transaction policy_checks
  apply_policy_inner around now signed self = elim (policy_checks signed self) [
    | err e ↦ (err e, self)
    | ok _ ↦
        let (rates, allowed) = charge signed.update.signer now self.principal_rates in
        let charged : AuthRegistry = record self { principal_rates = rates } in
        if allowed
        then policy_transaction around signed.update charged
        else (err "policy principal overload", charged)
  ]
