-- ===== src/Registry/Revoke/Rows.antt =====
-- The rows of devices, members and groups behind a revocation.
use epochgrid.Base.{
  List, [], ◌∷◌, map, any, find, retain, ltb, ◌==◌, nat_eq, bytes_eq, bytes_discrete, true, false,
  Text, none, some, err, ◌≡◌, ◌≢◌, refl, arith, ◌⊎◌, inl, inr, Bool-cases, Option-cases,
}
use epochgrid.Wire.{Primitives}
use epochgrid.Registry.Tables.{Registry, Device, GroupRow, Edge, User, is_edge, is_group}
use epochgrid.Registry.Admission.{authorize, is_admitted}
use epochgrid.Registry.Revoke.{
  is_active, lowest, successor, advance, reassign, without_key, revoke_device, revoke_rows,
}

-- The coordinator of a group is one of its members, or nobody.
pub Leads : List Edge → GroupRow → Type 0
Leads members g = (g.coordinator ≡ []) ⊎ (any (is_edge g.gid g.coordinator) members ≡ true)

unfoldable pub Led : Registry → Type 0
Led db = (gid : Text) (g : GroupRow) → find (is_group gid) db.groups ≡ some g → Leads db.members g

pub lowest-any :
    (gid : Text) (ms : List Edge) (e : Edge)
    → lowest (retain (λ (m : Edge). m.gid == gid) ms) ≡ some e
    → any (is_edge gid e.nkey) ms ≡ true
unfolding lowest
lowest-any gid [] e h = absurd (ground arith)
lowest-any gid (m ∷ ms) e h = elim (Bool-cases (m.gid == gid)) [
  | inr n ↦ ground (arith, lowest-any gid ms e (ground arith))
  | inl y ↦ elim (Option-cases (lowest (retain (λ (m : Edge). m.gid == gid) ms))) [
    | inl k ↦ ground arith
    | inr (f, k) ↦ elim (Bool-cases (ltb f.leaf m.leaf)) [
      | inl l ↦ (let same : e ≡ f = ground arith in ground (arith, lowest-any gid ms f k))
      | inr l ↦ ground arith
    ]
  ]
]

pub successor-Leads :
    (gid : Text) (ms : List Edge)
    → (successor gid ms ≡ []) ⊎ (any (is_edge gid (successor gid ms)) ms ≡ true)
unfolding successor
successor-Leads gid ms = elim (Option-cases (lowest (retain (λ (m : Edge). m.gid == gid) ms))) [
  | inl k ↦ inl (rw k refl)
  | inr (e, k) ↦ inr (rw k (lowest-any gid ms e k))
]

pub without_key-any :
    (gid key other : Text) (ms : List Edge)
    → other ≢ key
    → any (is_edge gid other) (without_key key ms) ≡ any (is_edge gid other) ms
unfolding without_key
without_key-any gid key other [] n = refl
without_key-any gid key other (m ∷ ms) n = ground (arith, n, without_key-any gid key other ms n)

pub without_key-none :
    (gid key : Text) (ms : List Edge) → any (is_edge gid key) (without_key key ms) ≡ false
unfolding without_key
without_key-none gid key [] = refl
without_key-none gid key (m ∷ ms) = ground (arith, without_key-none gid key ms)

-- What the two updates of `authorization_groups` make of a row.
abbrev pub revoked_row : Text → List Edge → GroupRow → GroupRow
revoked_row key members g = reassign key (without_key key members) (advance key members g)

pub find-revoked_row :
    (key : Text) (members : List Edge) (gid : Text) (groups : List GroupRow)
    → (find (is_group gid) groups ≡ none
        → find
            (is_group gid)
            (map (reassign key (without_key key members)) (map (advance key members) groups))
          ≡ none)
      × ((g : GroupRow)
          → find (is_group gid) groups ≡ some g
          → find
              (is_group gid)
              (map (reassign key (without_key key members)) (map (advance key members) groups))
            ≡ some (revoked_row key members g))
find-revoked_row key members gid [] = (λ e. refl, λ g e. absurd (ground arith))
find-revoked_row key members gid (h ∷ groups) =
    let (a, b) = find-revoked_row key members gid groups in
    elim (Bool-cases (h.gid == gid)) [
      | inl e ↦ (
        λ q. absurd (ground arith),
        λ g q. (let same : g ≡ h = ground arith in ground (arith, same, e)),
      )
      | inr e ↦
          (λ q. ground (arith, a, e), λ g q. (let at = b g (ground arith) in ground (arith, at, e)))
    ]

pub revoked_row-Leads :
    (key : Text) (members : List Edge) (g : GroupRow)
    → Leads members g
    → Leads (without_key key members) (revoked_row key members g)
unfolding Leads
revoked_row-Leads key members g l = elim (bytes_discrete g.coordinator key) [
  | yes e ↦ ground (arith, successor-Leads g.gid (without_key key members), e)
  | no n ↦ ground (arith, without_key-any g.gid key g.coordinator members n, n, l)
]

pub revoked_device-find :
    (users : List User) (key : Text) (ds : List Device)
    → find (is_admitted users key) (map (revoke_device key) ds) ≡ none
unfolding revoke_device
revoked_device-find users key [] = refl
revoked_device-find users key (d ∷ ds) = ground (arith, revoked_device-find users key ds)

pub inactive-find :
    (users : List User) (key : Text) (ds : List Device)
    → any (is_active key) ds ≡ false
    → find (is_admitted users key) ds ≡ none
inactive-find users key [] h = refl
inactive-find users key (d ∷ ds) h = ground (arith, inactive-find users key ds)

pub find-none-authorize :
    (p : Primitives) (db : Registry) (key : Text)
    → find (is_admitted db.users key) db.devices ≡ none
    → authorize p db key ≡ err "device not admitted"
unfolding authorize
find-none-authorize p db key h = rw h

pub revoke_rows-Led : (key : Text) (db : Registry) → Led db → Led (revoke_rows key db)
unfolding Led revoke_rows
revoke_rows-Led key db led gid g h =
    let (absent, present) = find-revoked_row key db.members gid db.groups in
    elim (Option-cases (find (is_group gid) db.groups)) [
      | inl e ↦ (let no = absent e in absurd (ground (arith, no, h)))
      | inr (old, e) ↦
          let now = present old e in
          let same : g ≡ revoked_row key db.members old = ground (arith, now, h) in
          rw same (revoked_row-Leads key db.members old (led gid old e))
    ]
