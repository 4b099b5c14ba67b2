-- ===== src/Authorization/Relay.antt =====
-- `policy_state` and `WelcomeRelay` of authorization/delivery.rs: who may have a Welcome relayed.
use epochgrid.Base.{
  List, [], ◌∷◌, ◌++◌, any, find, ltb, leb, ◌==◌, nat_eq, bytes_eq, ◌&&◌, ◌||◌, true, Text, text,
  Bytes, Option, none, some, Result, ok, err, context, ensure, ◌>>=◌, ◌>>◌, if◌then◌else◌, ◌≡◌,
  refl, arith, inl, inr, Bool-cases, Option-cases, >>=-eq-ok, subst,
}
use epochgrid.Wire.{Body, Member, PolicyState, WelcomeRelay, Primitives, welcome}
use epochgrid.Wire
use epochgrid.Registry.Tables.{Registry, GroupRow, Edge, is_edge, is_group}
use epochgrid.Registry.Admission.{DeviceAuthorization, authorize}
use epochgrid.Authorization.Policy.{validate_gid}

-- `ORDER BY leaf`
unfoldable pub insert_by_leaf : Member → List Member → List Member
insert_by_leaf m [] = m ∷ []
insert_by_leaf m (n ∷ rest) =
    let rest' = insert_by_leaf m rest in if leb m.leaf n.leaf then m ∷ n ∷ rest else n ∷ rest'

unfoldable pub members_of : Text → List Edge → List Member
unfolding insert_by_leaf
members_of gid [] = []
members_of gid (e ∷ rest) =
    let rest' = members_of gid rest in
    if e.gid == gid then insert_by_leaf (record { nkey = e.nkey; leaf = e.leaf }) rest' else rest'

abbrev pub state_of : List Edge → GroupRow → PolicyState
state_of members g = record {
  generation = g.generation;
  epoch = g.epoch;
  coordinator = g.coordinator;
  members = members_of g.gid members;
}

unfoldable pub policy_state : Registry → Text → Result (Option PolicyState)
unfolding members_of
policy_state db gid = do
  validate_gid gid
  elim (find (is_group gid) db.groups) [
    | none ↦ ok none
    | some g ↦ ok (some (state_of db.members g))
  ]

abbrev pub expect_welcome : Body → Result Bytes
expect_welcome (welcome payload) = ok payload
expect_welcome _ = err "expected Welcome envelope"

module _ (p : Primitives) where
  unfoldable pub relay_message : WelcomeRelay → Result Bytes
  relay_message r = do
    encoded ←
        context (p.relay_bytes r.version r.gid r.epoch r.recipient r.sender r.id r.payload)
          "encoding"
    ok (text "epochgrid/welcome-relay/v1" ++ (0 ∷ encoded))

  abbrev pub inbox : DeviceAuthorization → Text
  inbox d = text "epochgrid.v1.user." ++ d.user ++ text "." ++ d.device ++ text ".inbox"

  -- The subject to which the Welcome goes.
  unfoldable pub validate_relay : WelcomeRelay → Registry → Result Text
  unfolding policy_state
  validate_relay r db = do
    ensure (r.version == 1 && ltb 0 r.id) "invalid Welcome relay"
    message ← relay_message r
    ensure (p.nkey_verify r.sender message r.signature) "signature"
    sender ← authorize p db r.sender
    recipient ← authorize p db r.recipient
    found ← policy_state db r.gid
    state ← context found "unknown group"
    ensure
        (state.coordinator == r.sender
          && state.epoch == r.epoch
          && any (λ (m : Member). m.nkey == r.recipient) state.members)
        "Welcome relay is not authorized by current membership"
    body ← Wire.decode p r.payload
    payload ← expect_welcome body
    ensure (p.is_welcome payload) "expected MLS Welcome"
    ok (inbox recipient)

any-insert_by_leaf :
    (key : Text) (m : Member) (ms : List Member)
    → any (λ (n : Member). n.nkey == key) (insert_by_leaf m ms)
      ≡ (m.nkey == key || any (λ (n : Member). n.nkey == key) ms)
unfolding insert_by_leaf
any-insert_by_leaf key m [] = refl
any-insert_by_leaf key m (n ∷ ms) = ground (arith, any-insert_by_leaf key m ms)

any-members_of :
    (gid key : Text) (es : List Edge)
    → any (λ (n : Member). n.nkey == key) (members_of gid es) ≡ any (is_edge gid key) es
unfolding members_of
any-members_of gid key [] = refl
any-members_of gid key (e ∷ es) = elim (Bool-cases (e.gid == gid)) [
  | inl t ↦ ground (
    arith,
    t,
    any-members_of gid key es,
    any-insert_by_leaf key (record { nkey = e.nkey; leaf = e.leaf }) (members_of gid es),
  )
  | inr f ↦ ground (arith, f, any-members_of gid key es)
]

policy_state-some :
    (db : Registry) (gid : Text) (state : PolicyState)
    → policy_state db gid ≡ ok (some state)
    → (g : GroupRow) × (find (is_group gid) db.groups ≡ some g) × (state ≡ state_of db.members g)
unfolding policy_state
policy_state-some db gid state h = elim (Option-cases (find (is_group gid) db.groups)) [
  | inl n ↦ absurd (ground arith)
  | inr (g, k) ↦ (g, k, ground arith)
]

found-gid :
    (gid : Text) (groups : List GroupRow) (g : GroupRow)
    → find (is_group gid) groups ≡ some g
    → g.gid ≡ gid
found-gid gid [] g h = absurd (ground arith)
found-gid gid (r ∷ groups) g h = ground (arith, found-gid gid groups g)

module _ (p : Primitives) where
  -- What stands behind a relay.
  pub record Permitted (r : WelcomeRelay) (db : Registry) (subject : Text) : Type 0 where
    pub message : Bytes
    pub authentic :
        (relay_message p r ≡ ok message) × (p.nkey_verify r.sender message r.signature ≡ true)
    pub sender : DeviceAuthorization
    pub sender_admitted : authorize p db r.sender ≡ ok sender
    pub recipient : DeviceAuthorization
    pub recipient_admitted : authorize p db r.recipient ≡ ok recipient
    pub group : GroupRow
    pub current : find (is_group r.gid) db.groups ≡ some group
    pub coordinates : group.coordinator ≡ r.sender
    pub same_epoch : group.epoch ≡ r.epoch
    pub joined : any (is_edge r.gid r.recipient) db.members ≡ true
    pub goes_to : subject ≡ inbox p recipient

  -- A Welcome is relayed only for the coordinator of a group at its current epoch, to a member of the
  -- group; both are admitted devices, the request is signed by the coordinator, and it goes to the
  -- inbox of the recipient as the registry names it.
  pub validate_relay-Permitted :
      (r : WelcomeRelay) (db : Registry) (subject : Text)
      → validate_relay p r db ≡ ok subject
      → Permitted r db subject
  unfolding validate_relay
  validate_relay-Permitted r db subject h =
      let (u0, c0, h0) =
        >>=-eq-ok (ensure (r.version == 1 && ltb 0 r.id) "invalid Welcome relay") _ h in
      let (message, c1, h1) = >>=-eq-ok (relay_message p r) _ h0 in
      let (u2, c2, h2) =
        >>=-eq-ok (ensure (p.nkey_verify r.sender message r.signature) "signature") _ h1 in
      let (sender, c3, h3) = >>=-eq-ok (authorize p db r.sender) _ h2 in
      let (recipient, c4, h4) = >>=-eq-ok (authorize p db r.recipient) _ h3 in
      let (found, c5, h5) = >>=-eq-ok (policy_state db r.gid) _ h4 in
      let (state, c6, h6) = >>=-eq-ok (context found "unknown group") _ h5 in
      let at : found ≡ some state = ground arith in
      let (g, k, same) =
        policy_state-some db r.gid state
          (subst (λ (o : Option PolicyState). policy_state db r.gid ≡ ok o) at c5) in
      let inside = any-members_of g.gid r.recipient db.members in
      let gid = found-gid r.gid db.groups g k in
      record {
        message = message;
        authentic = (c1, ground arith);
        sender = sender;
        sender_admitted = c3;
        recipient = recipient;
        recipient_admitted = c4;
        group = g;
        current = k;
        coordinates = ground arith;
        same_epoch = ground arith;
        joined = ground (arith, inside, gid);
        goes_to = ground arith;
      }
