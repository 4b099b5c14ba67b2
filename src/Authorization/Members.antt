-- ===== src/Authorization/Members.antt =====
-- What the checks and the writes of a policy update do to the tables.
use epochgrid.Base.{
  ℕ, if◌then◌else◌, ◌+◌, ◌<◌, List, [], ◌∷◌, ◌++◌, map, any, find, retain, ◌==◌, nat_eq, bytes_eq,
  not, Bool, true, false, Text, Bytes, Option, none, some, ok, ◌≡◌, ◌≢◌, refl, sym, ◌∙◌, arith, All,
  Unique, Bool-cases, Result-cases, inl, inr, append_assoc, append-nil,
}
use epochgrid.Wire.{Member, PolicyUpdate, Primitives}
use epochgrid.Capacity.{Capacity}
use epochgrid.Store.{Sqlite}
use epochgrid.Audit.Log.{Surroundings}
use epochgrid.Registry.Tables.{Device, bump, is_edge, Registry, GroupRow, Edge, is_group}
use epochgrid.Registry.Admission.{DeviceAuthorization, authorize}
use epochgrid.Authorization.Policy.{
  upsert_group, insert_member, insert_members, write_policy, record_policy, check_members,
}

abbrev pub Authorized : Primitives → Registry → Text → Type 0
Authorized p db key = (a : DeviceAuthorization) × (authorize p db key ≡ ok a)

abbrev pub Above : Option ℕ → ℕ → Type 0
Above none leaf = Unit
Above (some previous) leaf = previous < leaf

-- The leaves in increasing order, above `previous`.
abbrev pub Ascending : Option ℕ → List Member → Type 0
Ascending previous [] = Unit
Ascending previous (m ∷ rest) = Above previous m.leaf × Ascending (some m.leaf) rest

abbrev pub key_of : Member → Text
key_of m = m.nkey

abbrev pub edge_of : Text → Member → Edge
edge_of gid m = record { gid = gid; nkey = m.nkey; leaf = m.leaf }

module _ (p : Primitives) (sql : Sqlite Registry) (capacity : Capacity) where
  check_members-step :
      (db : Registry) (keys : List Text) (previous : Option ℕ) (m : Member) (rest : List Member)
      → check_members p sql capacity db keys previous (m ∷ rest) ≡ ok tt
      → Authorized p db m.nkey
        × (any (λ k. k == m.nkey) keys ≡ false)
        × Above previous m.leaf
        × (check_members p sql capacity db (m.nkey ∷ keys) (some m.leaf) rest ≡ ok tt)
  unfolding check_members
  check_members-step db keys none m rest h = elim (Result-cases (authorize p db m.nkey)) [
    | inl (a, k) ↦ ((a, k), ground arith, tt, ground arith)
    | inr (e, k) ↦ absurd (ground arith)
  ]
  check_members-step db keys (some l) m rest h = elim (Result-cases (authorize p db m.nkey)) [
    | inl (a, k) ↦ ((a, k), ground arith, ground arith, ground arith)
    | inr (e, k) ↦ absurd (ground arith)
  ]

  head_differs :
      (key : Text) (keys : List Text) (ms : List Member)
      → All (λ m. any (λ k. k == m.nkey) (key ∷ keys) ≡ false) ms
      → All (λ k. key ≢ k) (map key_of ms) × All (λ m. any (λ k. k == m.nkey) keys ≡ false) ms
  head_differs key keys [] h = (tt, tt)
  head_differs key keys (m ∷ ms) h =
      let (a, b) = head_differs key keys ms h.1 in
      ((λ q. ground (arith, h.0), a), (ground (arith, h.0), b))

  pub check_members_lem :
      (db : Registry) (keys : List Text) (previous : Option ℕ) (ms : List Member)
      → check_members p sql capacity db keys previous ms ≡ ok tt
      → All (λ m. Authorized p db m.nkey) ms
        × All (λ m. any (λ k. k == m.nkey) keys ≡ false) ms
        × Ascending previous ms
        × Unique (map key_of ms)
  check_members_lem db keys previous [] h = (tt, tt, tt, tt)
  check_members_lem db keys previous (m ∷ ms) h =
      let (a, fresh, above, h') = check_members-step db keys previous m ms h in
      let (admitted, seen, asc, u) = check_members_lem db (m.nkey ∷ keys) (some m.leaf) ms h' in
      let (differs, rest) = head_differs m.nkey keys ms seen in
      ((a, admitted), (fresh, rest), (above, asc), (differs, u))

  pub record_policy-same :
      (around : Surroundings) (fewer : Bool) (update : PolicyUpdate) (db db' : Registry)
      → record_policy p sql capacity around fewer update db ≡ ok db'
      → db' ≡ record db { audit = db'.audit }
  unfolding record_policy
  record_policy-same around true update db db' h = ground arith
  record_policy-same around false update db db' h = ground arith

pub insert_members-same :
    (gid : Text) (ms : List Member) (db : Registry)
    → ((insert_members gid ms db).groups ≡ db.groups)
      × ((insert_members gid ms db).users ≡ db.users)
      × ((insert_members gid ms db).tokens ≡ db.tokens)
unfolding insert_members insert_member
insert_members-same gid [] db = (refl, refl, refl)
insert_members-same gid (m ∷ ms) db = insert_members-same gid ms (insert_member gid m db)

pub insert_members-members :
    (gid : Text) (ms : List Member) (db : Registry)
    → (insert_members gid ms db).members ≡ db.members ++ map (edge_of gid) ms
unfolding insert_members insert_member
insert_members-members gid [] db = sym (append-nil db.members)
insert_members-members gid (m ∷ ms) db =
    insert_members-members gid ms (insert_member gid m db)
    ∙ append_assoc db.members (edge_of gid m ∷ []) (map (edge_of gid) ms)

pub write_policy-same :
    (reference : Text) (update : PolicyUpdate) (bytes : Bytes) (db : Registry)
    → ((write_policy reference update bytes db).users ≡ db.users)
      × ((write_policy reference update bytes db).tokens ≡ db.tokens)
unfolding write_policy
write_policy-same reference update bytes db = (
  (insert_members-same update.gid update.members _).1,
  (insert_members-same update.gid update.members _).2,
)

pub write_policy-members :
    (reference : Text) (update : PolicyUpdate) (bytes : Bytes) (db : Registry)
    → (write_policy reference update bytes db).members
      ≡ retain (λ (e : Edge). not (e.gid == update.gid)) db.members
        ++ map (edge_of update.gid) update.members
unfolding write_policy
write_policy-members reference update bytes db = insert_members-members update.gid update.members _

-- The row is there, under the reference that it had.
pub find-upsert_group :
    (g : GroupRow) (groups : List GroupRow)
    → (reference : Text) × (find (is_group g.gid) (upsert_group g groups)
        ≡ some (record g { audit_ref = reference }))
unfolding upsert_group
find-upsert_group g [] = (g.audit_ref, ground arith)
find-upsert_group g (h ∷ rest) = elim (Bool-cases (h.gid == g.gid)) [
  | inl e ↦ (h.audit_ref, ground arith)
  | inr e ↦ let (reference, q) = find-upsert_group g rest in (reference, ground (arith, q))
]

pub find-upsert_group_other :
    (gid : Text) (g : GroupRow) (groups : List GroupRow)
    → g.gid ≢ gid
    → find (is_group gid) (upsert_group g groups) ≡ find (is_group gid) groups
unfolding upsert_group
find-upsert_group_other gid g [] n = ground (arith, n)
find-upsert_group_other gid g (h ∷ rest) n = elim (Bool-cases (h.gid == g.gid)) [
  | inl e ↦ ground (arith, n)
  | inr e ↦ ground (arith, find-upsert_group_other gid g rest n)
]

pub write_policy-groups :
    (reference : Text) (update : PolicyUpdate) (bytes : Bytes) (db : Registry)
    → (write_policy reference update bytes db).groups
      ≡ upsert_group
          (record {
            gid = update.gid;
            generation = update.expected_generation + 1;
            epoch = update.epoch;
            coordinator = update.signer;
            last_update = bytes;
            audit_ref = reference;
          })
          db.groups
unfolding write_policy
write_policy-groups reference update bytes db = (insert_members-same update.gid update.members _).0

any-map_same :
    (q : Device → Bool) (f : Device → Device)
    → ((d : Device) → q (f d) ≡ q d)
    → (ds : List Device) → any q (map f ds) ≡ any q ds
any-map_same q f h [] = refl
any-map_same q f h (d ∷ ds) = rw (h d, any-map_same q f h ds)

bump_if :
    (q : Device → Bool)
    → ((d : Device) → q (bump d) ≡ q d)
    → (c : Bool) (d : Device) → q (if c then bump d else d) ≡ q d
bump_if q h true d = h d
bump_if q h false d = refl

insert_members-any :
    (q : Device → Bool)
    → ((d : Device) → q (bump d) ≡ q d)
    → (gid : Text) (ms : List Member) (db : Registry)
    → any q (insert_members gid ms db).devices ≡ any q db.devices
unfolding insert_members insert_member
insert_members-any q h gid [] db = refl
insert_members-any q h gid (m ∷ ms) db =
    insert_members-any q h gid ms (insert_member gid m db)
    ∙ any-map_same q _ (λ d. bump_if q h (d.nkey == m.nkey) d) db.devices

-- A test that a device's counter does not change finds the same devices behind an update.
pub write_policy-any :
    (q : Device → Bool)
    → ((d : Device) → q (bump d) ≡ q d)
    → (reference : Text) (update : PolicyUpdate) (bytes : Bytes) (db : Registry)
    → any q (write_policy reference update bytes db).devices ≡ any q db.devices
unfolding write_policy
write_policy-any q h reference update bytes db =
    insert_members-any q h update.gid update.members _
    ∙ any-map_same q _ (λ d. bump_if q h (any (is_edge update.gid d.nkey) db.members) d) db.devices
