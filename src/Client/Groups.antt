-- ===== src/Client/Groups.antt =====
-- groups.rs: the name of a group in its MLS identifier, its subjects, and the groups of a store.
use epochgrid.Base.{
  ℕ, List, [], ◌∷◌, ◌++◌, length, find, any, all, ltb, ◌==◌, nat_eq, bytes_eq, ◌&&◌, ◌||◌, not,
  Bytes, Text, text, Result, ok, err, context, ensure, ◌>>=◌, ◌>>◌, is_utf8, if◌then◌else◌,
}
use epochgrid.Base.Hex.{is_hex_lower}
use epochgrid.Wire.{validate_id}
use epochgrid.Capacity.{Capacity}
use epochgrid.Client.Tables.{Tables, Group, MlsGroup, Leaf}

abbrev head_of : List Text → Text
head_of [] = []
head_of (t ∷ rest) = t

abbrev push : ℕ → List Text → List Text
push c [] = (c ∷ []) ∷ []
push c (t ∷ rest) = (c ∷ t) ∷ rest

-- `split('/')`
unfoldable pub split_slash : Text → List Text
split_slash [] = [] ∷ []
split_slash (c ∷ t) = let rest = split_slash t in if c == b'/' then [] ∷ rest else push c rest

fields_of : Bytes → List Text → Result Group
fields_of id (a ∷ b ∷ name ∷ gid ∷ []) = do
  ensure (a == text "epochgrid" && b == text "v1") "invalid EpochGrid group ID"
  validate_id name
  ensure (length gid == 32 && all is_hex_lower gid) "invalid group subject ID"
  ok (record { name = name; gid = gid; mls_id = id })
fields_of id _ = err "invalid EpochGrid group ID"

-- `Group::from_mls_id`
unfoldable pub from_mls_id : Bytes → Result Group
unfolding split_slash fields_of validate_id
from_mls_id id = do ensure (is_utf8 id) "utf-8"; fields_of id (split_slash id)

-- `Group::subject`
unfoldable pub subject_of : Group → Text → Text
subject_of g kind = text "epochgrid.v1.group." ++ g.gid ++ text "." ++ kind

-- `IdentityStore::group`
unfoldable pub group : Text → Tables → Result Group
group name t = context (find (λ (g : Group). g.name == name) t.groups) "unknown channel"

unfoldable pub load_group : Group → Tables → Result MlsGroup
load_group g t =
    context (find (λ (m : MlsGroup). m.group_id == g.mls_id) t.mls) "MLS group state missing"

-- OpenMLS's storage under the group's identifier.
unfoldable pub save_group : MlsGroup → List MlsGroup → List MlsGroup
save_group m [] = m ∷ []
save_group m (o ∷ rest) =
    let later = save_group m rest in if o.group_id == m.group_id then m ∷ rest else o ∷ later

unfoldable pub names_of : List Leaf → Result (List Text)
names_of [] = ok []
names_of (leaf ∷ rest) = do
  name ← context leaf.identity "invalid member credential"
  names ← names_of rest
  ok (name ∷ names)

-- `members`
unfoldable pub members : Text → Tables → Result (List Text)
unfolding names_of group load_group
members name t = do g ← group name t; m ← load_group g t; names_of m.members

-- `insert_group`: a name, a group ID and an MLS ID stand once in the table.
unfoldable pub insert_group : Capacity → Group → Tables → Result Tables
insert_group capacity g t = do
  ensure (ltb (length t.groups) capacity.retained_groups) "capacity exhausted: local groups"
  ensure
      (not
        (any (λ (o : Group). o.name == g.name || o.gid == g.gid || o.mls_id == g.mls_id) t.groups))
      "channel name or group ID already exists"
  ensure (not (any (λ (e : Text × ℕ). e.0 == g.gid) t.join_epochs)) "UNIQUE constraint failed"
  ok (record t { groups = t.groups ++ g ∷ []; join_epochs = t.join_epochs ++ (g.gid, 0) ∷ [] })
