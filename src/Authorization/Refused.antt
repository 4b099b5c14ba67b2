-- ===== src/Authorization/Refused.antt =====
-- `apply_policy` of authorization.rs: the update, and the report of a refused one.
use epochgrid.Base.{
  ℕ, [], length, ◌≤◌, ◌⊎◌, subst, leb, ◌&&◌, Bool, true, false, Bytes, Result, ok, err, String, ◌≡◌,
  refl, ◌∙◌, arith, inl, inr, Bool-cases, Result-cases, if◌then◌else◌,
}
use epochgrid.Base.Exec.{Exec}
use epochgrid.Wire.{SignedPolicy, Primitives}
use epochgrid.Capacity.{Capacity, check_database}
use epochgrid.Store.{Sqlite}
use epochgrid.Audit.Events.{
  Event, committed, policy_rejected, result_stage, denied, rejected_reason, verified_device,
}
use epochgrid.Audit.Log.{Surroundings, append}
use epochgrid.Registry.Tables.{Registry}
use epochgrid.Registry.Admission.{authorize}
use epochgrid.Registry.Enroll.{audit_event}
use epochgrid.Authorization.Policy.{
  AuthRegistry, apply_policy_inner, policy_bytes, device_reference, ok_of,
}
use epochgrid.Authorization.Members.{Authorized}
use epochgrid.Authorization.Applied.{apply_policy_inner_lem}

module _ (p : Primitives) (sql : Sqlite Registry) (capacity : Capacity) where
  -- `update.bytes().unwrap_or_default()`
  abbrev pub bytes_or_default : Result Bytes → Bytes
  bytes_or_default (ok bytes) = bytes
  bytes_or_default (err e) = []

  abbrev pub succeeds : {A : Type 0} → Result A → Bool
  succeeds (ok a) = true
  succeeds (err e) = false

  -- The condition on which a refusal is recorded.
  unfoldable pub is_reported : SignedPolicy → Registry → Bool
  is_reported signed db =
      leb (length signed.update.members) 128
      && p.nkey_verify signed.update.signer
          (bytes_or_default (policy_bytes p sql capacity signed.update)) signed.signature
      && succeeds (authorize p db signed.update.signer)

  abbrev pub refusal : SignedPolicy → Registry → Event
  refusal signed db = record (committed policy_rejected) {
    stage = result_stage;
    outcome = denied;
    reason = rejected_reason;
    actor = verified_device;
    actor_reference = ok_of (device_reference db signed.update.signer);
  }

  unfoldable pub report_refusal : Surroundings → SignedPolicy → AuthRegistry → AuthRegistry
  unfolding is_reported
  report_refusal around signed self =
      if is_reported signed self.db
      then record self {
        db = (audit_event p sql capacity around (refusal signed self.db) self.db).1;
      }
      else self

  -- The report comes at a later time than the update, with its own surroundings.
  unfoldable pub apply_policy : Surroundings → Surroundings → ℕ → SignedPolicy → Exec AuthRegistry ℕ
  unfolding report_refusal
  apply_policy around later now signed self =
      let (result, after) = apply_policy_inner p sql capacity around now signed self in
      (result, if succeeds result then after else report_refusal later signed after)

  audit_event-same :
      (around : Surroundings) (event : Event) (db : Registry)
      → (audit_event p sql capacity around event db).1
        ≡ record db { audit = (audit_event p sql capacity around event db).1.audit }
  unfolding audit_event
  audit_event-same around event db = elim (Result-cases (append around event false db.audit)) [
    | inr (e, k) ↦ rw (k, audit_event) refl
    | inl (done, k) ↦
        let after : Registry = record db { audit = done.1 } in
        elim (Result-cases
          (check_database capacity false (sql.page_count after) (sql.page_size after))) [
            | inr (e, c) ↦ rw (k, audit_event, c) refl
            | inl (u, c) ↦ elim (Bool-cases (sql.commits after)) [
              | inl d ↦ rw (k, audit_event, c, d) refl
              | inr d ↦ rw (k, audit_event, c, d) refl
            ]
          ]
  ]

  pub report_refusal-same :
      (around : Surroundings) (signed : SignedPolicy) (self : AuthRegistry)
      → (report_refusal around signed self).db
        ≡ record self.db { audit = (report_refusal around signed self).db.audit }
  unfolding report_refusal
  report_refusal-same around signed self = elim (Bool-cases (is_reported signed self.db)) [
    | inl t ↦ rw t (audit_event-same around _ self.db)
    | inr f ↦ rw f refl
  ]

  -- An update whose refusal is recorded: it names few members and is signed by an admitted device.
  -- An update that has no encoding counts as one without bytes.
  pub record Reportable (signed : SignedPolicy) (db : Registry) : Type 0 where
    pub few : length signed.update.members ≤ 128
    pub authentic :
        p.nkey_verify signed.update.signer
          (bytes_or_default (policy_bytes p sql capacity signed.update))
          signed.signature
        ≡ true
    pub admitted : Authorized p db signed.update.signer

  is_reported-Reportable :
      (signed : SignedPolicy) (db : Registry) → is_reported signed db ≡ true → Reportable signed db
  unfolding is_reported
  is_reported-Reportable signed db h = elim (Result-cases (authorize p db signed.update.signer)) [
    | inr (e, k) ↦ absurd (ground arith)
    | inl (a, k) ↦ record { few = ground arith; authentic = ground arith; admitted = (a, k) }
  ]

  Reportable-is_reported :
      (signed : SignedPolicy) (db : Registry) → Reportable signed db → is_reported signed db ≡ true
  unfolding is_reported
  Reportable-is_reported signed db r = ground (arith, r.few, r.authentic, r.admitted.1)

  -- Recording an event adds it to the log, or it leaves every table.
  audit_event-Added :
      (around : Surroundings) (event : Event) (db : Registry)
      → ((audit_event p sql capacity around event db).1 ≡ db)
        ⊎ ((n : ℕ) × (append around event false db.audit
              ≡ ok (n, (audit_event p sql capacity around event db).1.audit)))
  unfolding audit_event
  audit_event-Added around event db = elim (Result-cases (append around event false db.audit)) [
    | inr (e, k) ↦ inl (rw (k, audit_event) refl)
    | inl (done, k) ↦
        let after : Registry = record db { audit = done.1 } in
        elim (Result-cases
          (check_database capacity false (sql.page_count after) (sql.page_size after))) [
            | inr (e, c) ↦ inl (rw (k, audit_event, c) refl)
            | inl (u, c) ↦ elim (Bool-cases (sql.commits after)) [
              | inl d ↦ inr (done.0, rw (k, audit_event, c, d) refl)
              | inr d ↦ inl (rw (k, audit_event, c, d) refl)
            ]
          ]
  ]

  -- What the report leaves: the tables, or the event of the refusal behind the log.
  abbrev pub Reported : Surroundings → SignedPolicy → Registry → Registry → Type 0
  Reported around signed db db' =
      ((db' ≡ db)
        ⊎ (Reportable signed db
            × ((n : ℕ) × (append around (refusal signed db) false db.audit ≡ ok (n, db'.audit)))))
      × (Reportable signed db → db' ≡ (audit_event p sql capacity around (refusal signed db) db).1)

  report_refusal-Reported :
      (around : Surroundings) (signed : SignedPolicy) (self : AuthRegistry)
      → Reported around signed self.db (report_refusal around signed self).db
  unfolding report_refusal
  report_refusal-Reported around signed self = elim (Bool-cases (is_reported signed self.db)) [
    | inr f ↦
        (inl (rw f refl), λ r. absurd (ground (arith, Reportable-is_reported signed self.db r)))
    | inl t ↦ (
      elim (audit_event-Added around (refusal signed self.db) self.db) [
        | inl e ↦ inl (rw t e)
        | inr (n, e) ↦ inr (is_reported-Reportable signed self.db t, (n, rw t e))
      ],
      λ r. rw t refl,
    )
  ]

  -- A refused update changes no table but the audit log. The event of its refusal is added to the log
  -- only where the update names at most 128 members and is signed by an admitted device; and wherever
  -- it does and is, recording that event is what is done.
  pub apply_policy_refused :
      (around later : Surroundings) (now : ℕ) (signed : SignedPolicy) (self : AuthRegistry)
      (e : String)
      → (apply_policy around later now signed self).0 ≡ err e
      → ((apply_policy around later now signed self).1.db
          ≡ record self.db { audit = (apply_policy around later now signed self).1.db.audit })
        × Reported later signed self.db (apply_policy around later now signed self).1.db
  unfolding apply_policy
  apply_policy_refused around later now signed self e h =
      elim (apply_policy_inner_lem p sql capacity around now signed self) [
        | inr x ↦ absurd (ground (arith, x.result, h))
        | inl (m, r, same) ↦
            let after = (apply_policy_inner p sql capacity around now signed self).1 in
            (
              rw r (report_refusal-same later signed after ∙ rw same refl),
              rw r (
                  subst (λ d. Reported later signed d (report_refusal later signed after).db) same
                    (report_refusal-Reported later signed after)),
            )
      ]
