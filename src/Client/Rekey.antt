-- ===== src/Client/Rekey.antt =====
-- rekey.rs: the leaves of revoked devices, the coordinator that removes them, who may commit, and the
-- messages that are held back.
pub mod Commits
pub mod Waiting
pub mod Blocked
use epochgrid.Base.{
  ℕ, ◌+◌, List, [], ◌∷◌, ◌++◌, length, find, map, any, all, retain, leb, min, ◌==◌, nat_eq,
  bytes_eq, ◌&&◌, ◌||◌, not, Bool, true, false, Bytes, Text, text, Option, none, some, Result, ok,
  err, context, ensure, ◌>>=◌, ◌>>◌, is_empty, String, if◌then◌else◌,
}
use mathlib.Core.Option
use epochgrid.Wire.{Primitives}
use epochgrid.Store.{transaction}
use epochgrid.Revocation.Local.{is_revoked, revoked_mls_key}
use epochgrid.Client.Tables.{Tables, Group, MlsGroup, Leaf, Coordinator, Outgoing}
use epochgrid.Client.Library.{Mls, Session, StagedCommit}
use epochgrid.Client.Groups.{from_mls_id, load_group, save_group, subject_of, group}
use epochgrid.Client.Outbox.{queue, queue_policy}

-- The error `InvalidMessage` of messaging.rs is its text, which no other error has.
abbrev pub invalid_message : String
invalid_message = "invalid or no-longer-decryptable MLS application message"

abbrev is_some {ℓ} : {A : Type ℓ} → Option A → Bool
is_some none = false
is_some (some a) = true

abbrev pub is_revoked_leaf : Tables → Leaf → Bool
is_revoked_leaf t leaf = is_some (revoked_mls_key t.revoked leaf.signature_key)

unfoldable pub revoked_leaves : Tables → MlsGroup → List ℕ
revoked_leaves t g = map (λ (l : Leaf). l.index) (retain (is_revoked_leaf t) g.members)

unfoldable pub stored_coordinator : Tables → MlsGroup → Option Bytes
stored_coordinator t g = elim (find (λ (r : Group). r.mls_id == g.group_id) t.groups) [
  | none ↦ none
  | some r ↦
      Option.map (λ (c : Coordinator). c.mls_key)
        (find (λ (c : Coordinator). c.gid == r.gid) t.coordinators)
]

abbrev pub contains : List ℕ → ℕ → Bool
contains ns n = any (λ m. m == n) ns

abbrev pub with_key : MlsGroup → Bytes → Option Leaf
with_key g key = find (λ (l : Leaf). l.signature_key == key) g.members

-- `min` of an iterator.
unfoldable pub least : List ℕ → Option ℕ
least [] = none
least (n ∷ rest) = elim (least rest) [ none ↦ some n | some m ↦ some (min n m) ]

-- The first choice: the stored coordinator, where it is a member that is not revoked.
unfoldable pub kept_coordinator : List ℕ → MlsGroup → Option Bytes → Option ℕ
kept_coordinator revoked g none = none
kept_coordinator revoked g (some key) = elim (with_key g key) [
  | none ↦ none
  | some l ↦ if contains revoked l.index then none else some l.index
]

unfoldable pub coordinator : Tables → MlsGroup → Option ℕ
unfolding kept_coordinator least
coordinator t g =
    let revoked = revoked_leaves t g in
    elim (kept_coordinator revoked g (stored_coordinator t g)) [
      | some index ↦ some index
      | none ↦
          least (retain (λ n. not (contains revoked n)) (map (λ (l : Leaf). l.index) g.members))
    ]

-- `INSERT .. ON CONFLICT(gid) DO UPDATE`
upsert_coordinator : Text → Bytes → List Coordinator → List Coordinator
upsert_coordinator gid key [] = record { gid = gid; mls_key = key } ∷ []
upsert_coordinator gid key (c ∷ rest) =
    let later = upsert_coordinator gid key rest in
    if c.gid == gid then record { gid = gid; mls_key = key } ∷ rest else c ∷ later

abbrev pub is_member_key : MlsGroup → Option Bytes → Bool
is_member_key g none = false
is_member_key g (some key) = any (λ (l : Leaf). l.signature_key == key) g.members

elect : MlsGroup → Option ℕ → Tables → Result Tables
unfolding upsert_coordinator
elect g none t = ok t
elect g (some index) t = elim (find (λ (l : Leaf). l.index == index) g.members) [
  | none ↦ ok t
  | some l ↦ do
    descriptor ← from_mls_id g.group_id
    ok (record t {
      coordinators = upsert_coordinator descriptor.gid l.signature_key t.coordinators;
    })
]

unfoldable pub refresh_coordinator : MlsGroup → Tables → Result Tables
unfolding elect
refresh_coordinator g t =
    if is_member_key g (stored_coordinator t g) then ok t else elect g (coordinator t g) t

-- `public_key` is that of the device's NATS key.
unfoldable pub ensure_can_send : Text → Tables → MlsGroup → Result (Unit {0})
ensure_can_send public_key t g = do
  ensure (not (is_revoked t.revoked public_key) && g.is_active)
      "this device is revoked or removed from the group"
  ensure (is_empty (revoked_leaves t g))
      "group rekey pending; its active coordinator must sync before sending"

-- `INSERT OR IGNORE INTO blocked_outbox(id) SELECT id FROM outbox WHERE sent=0 AND subject=?1`
unfoldable pub block_subject : Text → List Outgoing → List ℕ → List ℕ
block_subject subject [] blocked = blocked
block_subject subject (o ∷ rest) blocked = block_subject subject rest (
    if not o.sent && o.subject == subject && not (contains blocked o.id)
    then blocked ++ o.id ∷ []
    else blocked)

unfoldable pub block_groups : List Group → Tables → Result Tables
unfolding block_subject
block_groups [] t = ok t
block_groups (g ∷ rest) t = do
  m ← load_group g t
  block_groups rest (
      if m.is_active && is_empty (revoked_leaves t m)
      then t
      else record t { blocked = block_subject (subject_of g (text "message")) t.outbox t.blocked })

unfoldable pub block_revoked_outbox : Tables → Result Tables
unfolding block_groups
block_revoked_outbox t = block_groups t.groups t

abbrev pub same_leaf : Leaf → Option (Bytes × Bytes) → Bool
same_leaf sender none = true
same_leaf sender (some (key, credential)) =
    key == sender.signature_key && credential == sender.credential

unfoldable pub before_cutoff : ℕ → Option ℕ → Bool
before_cutoff sequence none = true
before_cutoff sequence (some cutoff) = leb sequence cutoff

unfoldable pub is_leader : MlsGroup → Option Bytes → ℕ → Bool
is_leader g none index = false
is_leader g (some key) index = elim (with_key g key) [ none ↦ false | some l ↦ l.index == index ]

unfoldable pub is_at : Option ℕ → ℕ → Bool
is_at none index = false
is_at (some n) index = n == index

-- The Commit of an elected coordinator, which removes the revoked leaves and does nothing else.
unfoldable pub removes_revoked : Tables → MlsGroup → ℕ → StagedCommit → Bool
unfolding is_at
removes_revoked t g index c =
    let expected = revoked_leaves t g in
    is_at (coordinator t g) index
    && not (is_empty expected)
    && length c.removed == length expected
    && all (contains c.removed) expected
    && c.queued_proposals == length c.removed

-- The checks on a Commit of a member.
unfoldable pub check_author : Tables → MlsGroup → ℕ → StagedCommit → ℕ → Leaf → Result (Unit {0})
unfolding before_cutoff is_leader removes_revoked
check_author t g index c sequence sender = do
  ensure (same_leaf sender c.update_path_leaf) invalid_message
  ensure (c.queued_proposals == c.add_proposals + length c.removed) invalid_message
  ensure (before_cutoff sequence (revoked_mls_key t.revoked sender.signature_key)) invalid_message
  ensure (is_leader g (stored_coordinator t g) index || removes_revoked t g index c) invalid_message

unfoldable pub validate_commit_author : Group → ℕ → StagedCommit → ℕ → Tables → Result (Unit {0})
unfolding check_author
validate_commit_author descriptor index c sequence t = do
  g ← load_group descriptor t
  sender ← context (find (λ (l : Leaf). l.index == index) g.members) invalid_message
  check_author t g index c sequence sender

module _ (p : Primitives) (mls : Mls) where
  -- The transaction of `reconcile_revocations`.
  remove_revoked : Session → Group → List ℕ → Tables → Result (Bool × Tables)
  remove_revoked s descriptor removed t0 = do
    t ← block_revoked_outbox t0
    g ← load_group descriptor t
    done ← context (mls.remove_members g removed) "MLS remove revoked leaves"
    let (commit, has_welcome, pending) = done
    ensure (not has_welcome) "removal unexpectedly produced a Welcome"
    merged ← context (mls.merge_pending_commit pending) "persist removal Commit"
    let saved : Tables = record t { mls = save_group merged t.mls }
    refreshed ← refresh_coordinator merged saved
    announced ← queue_policy p mls s merged refreshed
    queued ← queue s (subject_of descriptor (text "handshake")) commit announced
    ok (true, queued)

  -- Whether this device is the one that has to remove leaves, and which ones.
  unfoldable pub to_remove : Text → Text → Tables → Result (Option (Group × List ℕ))
  to_remove public_key name t = do
    descriptor ← group name t
    g ← load_group descriptor t
    let removed = revoked_leaves t g
    ok (
        if not g.is_active
          || is_revoked t.revoked public_key
          || not (is_at (coordinator t g) g.own_leaf_index)
          || is_empty removed
        then none
        else some (descriptor, removed))

  -- `signer` is whether the device's signer can be read.
  unfoldable pub reconcile_revocations :
      Session → Text → Result (Unit {0}) → Text → Tables → Result Bool × Tables
  unfolding to_remove remove_revoked
  reconcile_revocations s public_key signer name t = elim (to_remove public_key name t) [
    | err e ↦ (err e, t)
    | ok none ↦ (ok false, t)
    | ok (some (descriptor, removed)) ↦ elim signer [
      | err e ↦ (err e, t)
      | ok u ↦
          transaction s.sqlite s.capacity true
            (remove_revoked (record s { recovery_budget = true; is_autocommit = false }) descriptor
              removed)
            t
    ]
  ]
