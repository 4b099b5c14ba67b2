-- ===== src/Authorization/Generations.antt =====
-- The generations of the groups over any sequence of policy updates.
use epochgrid.Base.{
  ℕ, ◌+◌, ◌≤◌, List, [], ◌∷◌, find, bytes_eq, bytes_discrete, Text, Bytes, Option, none, some, ◌≡◌,
  refl, sym, ◌∙◌, arith, inl, inr, subst,
}
use epochgrid.Wire.{PolicyUpdate, SignedPolicy, Primitives}
use epochgrid.Capacity.{Capacity}
use epochgrid.Store.{Sqlite}
use epochgrid.Audit.Log.{Surroundings}
use epochgrid.Registry.Tables.{Registry, GroupRow, is_group}
use epochgrid.Authorization.Policy.{AuthRegistry, apply_policy_inner}
use epochgrid.Authorization.Written.{Follows, follows, Changed}
use epochgrid.Authorization.Applied.{Applied, apply_policy_inner_lem}

-- The row of a group later on: no earlier generation and no earlier epoch, and at the same generation
-- the same row.
pub record Later (g g' : GroupRow) : Type 0 where
  pub generation_grows : g.generation ≤ g'.generation
  pub epoch_grows : g.epoch ≤ g'.epoch
  pub one_row : g.generation ≡ g'.generation → g' ≡ g

pub Grows : Registry → Registry → Type 0
Grows db db' =
    (gid : Text) (g : GroupRow)
    → find (is_group gid) db.groups ≡ some g
    → (g' : GroupRow) × (find (is_group gid) db'.groups ≡ some g') × Later g g'

Later-refl : (g : GroupRow) → Later g g
Later-refl g = record {
  generation_grows = omega arith;
  epoch_grows = omega arith;
  one_row = λ e. refl;
}

Later-trans : (a b c : GroupRow) → Later a b → Later b c → Later a c
Later-trans a b c x y = record {
  generation_grows = omega (arith, x.generation_grows, y.generation_grows);
  epoch_grows = omega (arith, x.epoch_grows, y.epoch_grows);
  one_row = λ e.
      y.one_row (omega (arith, x.generation_grows, y.generation_grows, e))
      ∙ x.one_row (omega (arith, x.generation_grows, y.generation_grows, e));
}

Grows-refl : (db : Registry) → Grows db db
unfolding Grows
Grows-refl db gid g h = (g, h, Later-refl g)

Grows-trans : (a b c : Registry) → Grows a b → Grows b c → Grows a c
unfolding Grows
Grows-trans a b c x y gid g h =
    let (g', h', l) = x gid g h in
    let (g'', h'', l') = y gid g' h' in (g'', h'', Later-trans g g' g'' l l')

-- The row that an update leaves.
abbrev next_row : PolicyUpdate → Bytes → Text → GroupRow
next_row update bytes reference = record {
  gid = update.gid;
  generation = update.expected_generation + 1;
  epoch = update.epoch;
  coordinator = update.signer;
  last_update = bytes;
  audit_ref = reference;
}

same_group :
    (update : PolicyUpdate) (bytes : Bytes) (g : GroupRow) (reference : Text) (o : Option GroupRow)
    → Follows update o
    → o ≡ some g
    → Later g (next_row update bytes reference)
same_group update bytes g reference none f e = absurd (ground arith)
same_group update bytes g reference (some h) (follows h' a b c) e = record {
  generation_grows = ground arith;
  epoch_grows = ground arith;
  one_row = λ q. absurd (ground arith);
}

module _ (p : Primitives) (sql : Sqlite Registry) (capacity : Capacity) where
  Changed-Grows :
      (update : PolicyUpdate) (bytes : Bytes) (db db' : Registry)
      → Changed p sql capacity update bytes db db'
      → Grows db db'
  unfolding Grows
  Changed-Grows update bytes db db' x gid g h = elim (bytes_discrete update.gid gid) [
    | no n ↦ (g, x.others gid n ∙ h, Later-refl g)
    | yes e ↦
        let (reference, q) = x.group in
        let at = subst (λ (t : Text). find (is_group t) db.groups ≡ some g) (sym e) h in
        (
          next_row update bytes reference,
          subst
              (λ (t : Text). find (is_group t) db'.groups ≡ some (next_row update bytes reference))
              e q,
          same_group update bytes g reference _ x.current at,
        )
  ]

  apply-Grows :
      (around : Surroundings) (now : ℕ) (signed : SignedPolicy) (self : AuthRegistry)
      → Grows self.db (apply_policy_inner p sql capacity around now signed self).1.db
  unfolding Applied
  apply-Grows around now signed self =
      elim (apply_policy_inner_lem p sql capacity around now signed self) [
        | inl (e, result, same) ↦ rw same (Grows-refl self.db)
        | inr x ↦ elim x.applied.1 [
          | inl (same, retried) ↦ rw same (Grows-refl self.db)
          | inr changed ↦ Changed-Grows signed.update x.bytes self.db _ changed
        ]
      ]

  -- Updates one after the other, whatever each returns.
  unfoldable pub updates : List (Surroundings × ℕ × SignedPolicy) → AuthRegistry → AuthRegistry
  updates [] self = self
  updates ((around, now, signed) ∷ rest) self =
      updates rest (apply_policy_inner p sql capacity around now signed self).1

  -- Whatever updates are sent, in whatever order and by whomever, no group that is there is lost, its
  -- generation and its epoch never decrease, and one generation never names two states of a group.
  pub updates-Grows :
      (us : List (Surroundings × ℕ × SignedPolicy)) (self : AuthRegistry)
      → Grows self.db (updates us self).db
  unfolding updates
  updates-Grows [] self = Grows-refl self.db
  updates-Grows ((around, now, signed) ∷ rest) self =
      Grows-trans self.db _ _ (apply-Grows around now signed self)
        (updates-Grows rest (apply_policy_inner p sql capacity around now signed self).1)
