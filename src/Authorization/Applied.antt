-- ===== src/Authorization/Applied.antt =====
-- Each way in which an update is answered.
use epochgrid.Base.{
  ℕ, ◌+◌, [], find, nat_eq, bytes_eq, true, Bytes, Option, none, some, Result, ok, err, String, ◌≡◌,
  refl, ◌∙◌, arith, ◌⊎◌, Bool-cases, Result-cases, Option-cases, inl, inr, >>=-eq-ok,
}
use epochgrid.Wire.{PolicyUpdate, SignedPolicy, Primitives}
use epochgrid.Capacity.{Capacity}
use epochgrid.Store.{Sqlite}
use epochgrid.Audit.Log.{Surroundings}
use epochgrid.Registry.Tables.{Registry, is_group}
use epochgrid.Registry.Admission.{authorize}
use epochgrid.Authorization.Policy.{
  AuthRegistry, check_current, answer_policy, policy_action, settle, policy_checks,
  policy_transaction, apply_policy_inner, policy_bytes, charge, check_members,
}
use epochgrid.Authorization.Members.{Authorized}
use epochgrid.Authorization.Written.{
  check_current-Follows, check_current_retry, Changed, Retried, replace_policy-Changed,
}

module _ (p : Primitives) (sql : Sqlite Registry) (capacity : Capacity) where
  -- The two ways an update succeeds.
  unfoldable pub Applied : PolicyUpdate → Bytes → Registry → ℕ → Registry → Type 0
  Applied update bytes db g db' =
      (g ≡ update.expected_generation + 1)
      × (((db' ≡ db) × Retried p sql capacity update bytes db)
          ⊎ Changed p sql capacity update bytes db db')

  answer_policy-Applied :
      (around : Surroundings) (update : PolicyUpdate) (bytes : Bytes) (db : Registry) (o : Option ℕ)
      (g : ℕ) (db' : Registry)
      → Authorized p db update.signer
      → check_members p sql capacity db [] none update.members ≡ ok tt
      → check_current update bytes (find (is_group update.gid) db.groups) ≡ ok o
      → answer_policy p sql capacity around update bytes db o ≡ ok (g, db')
      → Applied update bytes db g db'
  unfolding answer_policy Applied
  answer_policy-Applied around update bytes db (some n) g db' a c k h =
      let (row, found, at, next, same) =
        check_current_retry update bytes (find (is_group update.gid) db.groups) n k in
      let e : g ≡ n = ground arith in
      let kept : db' ≡ db = ground arith in
      (
        e ∙ next,
        inl (
          kept,
          record { signer = a; row = row; found = found; reached = at ∙ next; same = same },
        ),
      )
  answer_policy-Applied around update bytes db none g db' a c k h =
      let (e, changed) =
        replace_policy-Changed p sql capacity around update bytes db g db' a c
          (check_current-Follows update bytes _ k) h in
      (e, inr changed)

  pub policy_action-Applied :
      (around : Surroundings) (update : PolicyUpdate) (bytes : Bytes) (db : Registry) (g : ℕ)
      (db' : Registry)
      → policy_action p sql capacity around update bytes db ≡ ok (g, db')
      → Applied update bytes db g db'
  unfolding policy_action
  policy_action-Applied around update bytes db g db' h =
      let (a, ea, h1) = >>=-eq-ok (authorize p db update.signer) _ h in
      let (u, ec, h2) = >>=-eq-ok (check_members p sql capacity db [] none update.members) _ h1 in
      let (o, eo, h3) =
        >>=-eq-ok (check_current update bytes (find (is_group update.gid) db.groups)) _ h2 in
      answer_policy-Applied around update bytes db o g db' (a, ea) ec eo h3

  settle-cases :
      (db : Registry) (r : Result (ℕ × Registry))
      → ((e : String) × (settle p sql capacity db r ≡ (err e, db))) ⊎ (record {
        g : ℕ;
        after : Registry;
        acted : r ≡ ok (g, after);
        result : settle p sql capacity db r ≡ (ok g, after);
      })
  unfolding settle
  settle-cases db (err e) = inl (e, refl)
  settle-cases db (ok (g, after)) = elim (Bool-cases (sql.commits after)) [
    | inl c ↦ inr (record { g = g; after = after; acted = refl; result = ground arith })
    | inr c ↦ inl ("policy commit failed", ground arith)
  ]

  transaction-cases :
      (around : Surroundings) (update : PolicyUpdate) (self : AuthRegistry)
      → ((e : String) × (policy_transaction p sql capacity around update self ≡ (err e, self)))
        ⊎ (record {
          g : ℕ;
          bytes : Bytes;
          encoded : p.policy_bytes update ≡ some bytes;
          db' : Registry;
          result :
              policy_transaction p sql capacity around update self
              ≡ (ok g, record self { db = db' });
          applied : Applied update bytes self.db g db';
        })
  unfolding policy_transaction
  transaction-cases around update self = elim (Option-cases (p.policy_bytes update)) [
    | inl e ↦ inl ("encoding", rw (e, policy_transaction))
    | inr (bytes, e) ↦
        elim (settle-cases self.db (policy_action p sql capacity around update bytes self.db)) [
          | inl (m, k) ↦ inl (m, rw (e, policy_transaction, k))
          | inr x ↦ inr (record {
            g = x.g;
            bytes = bytes;
            encoded = e;
            db' = x.after;
            result = rw (e, policy_transaction, x.result);
            applied = policy_action-Applied around update bytes self.db x.g x.after x.acted;
          })
        ]
  ]

  policy_checks-authentic :
      (signed : SignedPolicy) (self : AuthRegistry)
      → policy_checks p sql capacity signed self ≡ ok tt
      → (message : Bytes) × (policy_bytes p sql capacity signed.update ≡ ok message)
        × (p.nkey_verify signed.update.signer message signed.signature ≡ true)
  unfolding policy_checks
  policy_checks-authentic signed self h =
      elim (Result-cases (policy_bytes p sql capacity signed.update)) [
        | inr (e, k) ↦ absurd (ground arith)
        | inl (message, k) ↦ (message, k, ground arith)
      ]

  -- An update that is refused leaves every table as it was. One that succeeds returns the generation
  -- after the expected one, and is signed by a device that the registry admits: either it is an exact
  -- retry, whose encoding is that of the group's last update, and leaves the tables, or it comes from the group's coordinator at the expected generation
  -- and a newer epoch, or founds the group with its creator alone; then its members are admitted
  -- devices in the order of their leaves, the coordinator among them, they are the group's only
  -- members, and no other group's row or members change.
  pub apply_policy_inner_lem :
      (around : Surroundings) (now : ℕ) (signed : SignedPolicy) (self : AuthRegistry)
      → ((e : String) × ((apply_policy_inner p sql capacity around now signed self).0 ≡ err e)
          × ((apply_policy_inner p sql capacity around now signed self).1.db ≡ self.db))
        ⊎ (record {
          g : ℕ;
          bytes : Bytes;
          encoded : p.policy_bytes signed.update ≡ some bytes;
          message : Bytes;
          result : (apply_policy_inner p sql capacity around now signed self).0 ≡ ok g;
          authentic :
              (policy_bytes p sql capacity signed.update ≡ ok message)
              × (p.nkey_verify signed.update.signer message signed.signature ≡ true);
          applied :
              Applied signed.update bytes self.db g
                (apply_policy_inner p sql capacity around now signed self).1.db;
        })
  unfolding apply_policy_inner
  apply_policy_inner_lem around now signed self =
      elim (Result-cases (policy_checks p sql capacity signed self)) [
        | inr (e, k) ↦ inl (e, rw (k, apply_policy_inner), rw (k, apply_policy_inner))
        | inl (u, k) ↦ elim (Bool-cases (charge signed.update.signer now self.principal_rates).1) [
          | inr c ↦ inl ("policy principal overload", ground arith, ground arith)
          | inl c ↦
              let charged : AuthRegistry = record self {
                principal_rates = (charge signed.update.signer now self.principal_rates).0;
              } in
              elim (transaction-cases around signed.update charged) [
                | inl (e, x) ↦ inl (e, ground (arith, x), ground (arith, x))
                | inr x ↦
                    let same : apply_policy_inner p sql capacity around now signed self
                        ≡ (ok x.g, record charged { db = x.db' }) =
                      ground (arith, x.result) in
                    let x' = policy_checks-authentic signed self k in
                    inr (record {
                      g = x.g;
                      bytes = x.bytes;
                      encoded = x.encoded;
                      message = x'.0;
                      result = rw same;
                      authentic = (x'.1, x'.2);
                      applied = rw same x.applied;
                    })
              ]
        ]
      ]
