-- ===== src/Authorization/Retired.antt =====
-- The revoked devices of the registry over the operations of identity_model.rs and authorization.rs.
use epochgrid.Base.{
  ℕ, List, [], ◌∷◌, ◌++◌, map, any, ◌==◌, bytes_eq, bytes_discrete, ◌&&◌, Bool, true, false, Text,
  ok, err, ◌≡◌, ◌≢◌, refl, ◌∙◌, arith, ◌⊎◌, inl, inr, Bool-cases, Result-cases, if◌then◌else◌,
  any-append, subst, sym,
}
use epochgrid.Wire.{DeviceRegistration, SignedPolicy, Primitives}
use epochgrid.Capacity.{Capacity}
use epochgrid.Store.{Sqlite}
use epochgrid.Audit.Log.{Surroundings}
use epochgrid.Registry.Tables.{Registry, Device, bump}
use epochgrid.Registry.Admission.{authorize}
use epochgrid.Registry.Revoke.{
  is_active, meets_key, revoke_device, revoke_rows, revoke, activate_action, activate,
}
use epochgrid.Registry.Revoke.Rows.{inactive-find, find-none-authorize}
use epochgrid.Registry.Revoke.Led.{revoke-cases, audit_revocation-same}
use epochgrid.Registry.Enroll.{enroll}
use epochgrid.Registry.Enroll.Once.{enroll_lem}
use epochgrid.Registry.Invite.{Randomness, invite}
use epochgrid.Registry.Invite.Issued.{invite_lem}
use epochgrid.Authorization.Policy.{AuthRegistry, apply_policy_inner}
use epochgrid.Authorization.Applied.{Applied, apply_policy_inner_lem}
use epochgrid.Authorization.Refused.{succeeds, report_refusal-same, apply_policy}

abbrev pub is_gone : Text → Device → Bool
is_gone key d = d.nkey == key && d.revoked

-- The device is there, and only as revoked.
pub record Retired (key : Text) (ds : List Device) : Type 0 where
  pub gone : any (is_gone key) ds ≡ true
  pub inactive : any (is_active key) ds ≡ false

any-map-true :
    (q : Device → Bool) (f : Device → Device)
    → ((d : Device) → q d ≡ true → q (f d) ≡ true)
    → (ds : List Device) → any q ds ≡ true
    → any q (map f ds) ≡ true
any-map-true q f h [] e = absurd (ground arith)
any-map-true q f h (d ∷ ds) e = elim (Bool-cases (q d)) [
  | inl t ↦ ground (arith, h d t)
  | inr n ↦ ground (arith, any-map-true q f h ds (ground arith))
]

any-map-false :
    (q : Device → Bool) (f : Device → Device)
    → ((d : Device) → q d ≡ false → q (f d) ≡ false)
    → (ds : List Device) → any q ds ≡ false
    → any q (map f ds) ≡ false
any-map-false q f h [] e = refl
any-map-false q f h (d ∷ ds) e =
    ground (arith, h d (ground arith), any-map-false q f h ds (ground arith))

Retired-map :
    (key : Text) (f : Device → Device)
    → ((d : Device) → is_gone key d ≡ true → is_gone key (f d) ≡ true)
    → ((d : Device) → is_active key d ≡ false → is_active key (f d) ≡ false)
    → (ds : List Device) → Retired key ds
    → Retired key (map f ds)
Retired-map key f g a ds r = record {
  gone = any-map-true (is_gone key) f g ds r.gone;
  inactive = any-map-false (is_active key) f a ds r.inactive;
}

new_inactive :
    (key : Text) (ds : List Device) (d : Device)
    → d.nkey ≢ key
    → any (is_active key) ds ≡ false
    → any (is_active key) (ds ++ d ∷ []) ≡ false
new_inactive key [] d n h = ground (arith, n)
new_inactive key (e ∷ ds) d n h = ground (arith, new_inactive key ds d n (ground arith))

gone_known :
    (key : Text) (ds : List Device)
    → any (is_gone key) ds ≡ true
    → any (λ (d : Device). d.nkey == key) ds ≡ true
gone_known key [] h = absurd (ground arith)
gone_known key (d ∷ ds) h = ground (arith, gone_known key ds)

Retired-new :
    (key : Text) (ds : List Device) (d : Device)
    → any (λ (e : Device). e.nkey == d.nkey) ds ≡ false
    → Retired key ds
    → Retired key (ds ++ d ∷ [])
Retired-new key ds d fresh r = record {
  gone = any-append (is_gone key) ds (d ∷ []) r.gone;
  inactive = elim (bytes_discrete d.nkey key) [
    | no n ↦ new_inactive key ds d n r.inactive
    | yes e ↦ absurd (
        let known =
          subst (λ (k : Text). any (λ (e : Device). e.nkey == k) ds ≡ true) (sym e)
            (gone_known key ds r.gone) in
        ground (arith, known, fresh))
  ];
}

revoke_rows-Retired :
    (key other : Text) (db : Registry)
    → Retired key db.devices
    → Retired key (revoke_rows other db).devices
unfolding revoke_rows revoke_device
revoke_rows-Retired key other db r =
    Retired-map key (revoke_device other) (λ d h. ground arith) (λ d h. ground arith) _
      (Retired-map key (λ d. if meets_key other db.members d.nkey then bump d else d)
        (λ d h. ground arith) (λ d h. ground arith) db.devices r)

activate_action-Retired :
    (key other : Text) (sql : Sqlite Registry) (capacity : Capacity) (around : Surroundings)
    (db db' : Registry)
    → activate_action sql capacity around other db ≡ ok db'
    → Retired key db.devices
    → Retired key db'.devices
unfolding activate_action
activate_action-Retired key other sql capacity around db db' h r =
    let now : List Device =
      map (λ (e : Device). if e.nkey == other then record e { ready = true } else e) db.devices in
    let either : (db'.devices ≡ db.devices) ⊎ (db'.devices ≡ now) = ground arith in
    elim either [
      | inl e ↦ rw e r
      | inr e ↦ rw e (
          Retired-map key (λ (e : Device). if e.nkey == other then record e { ready = true } else e)
            (λ d t. ground arith) (λ d t. ground arith) db.devices r)
    ]

-- A request of an operator, a device or a client to the registry.
pub data Operation : Type 0 where
  inviting : Surroundings → Randomness → ℕ → Text → ℕ → Operation
  enrolling : Surroundings → ℕ → Text → DeviceRegistration → Operation
  activating : Surroundings → Text → Operation
  revoking : Surroundings → Text → Operation
  applying : Surroundings → Surroundings → ℕ → SignedPolicy → Operation

module _ (p : Primitives) (sql : Sqlite Registry) (capacity : Capacity) where
  abbrev pub with_db : AuthRegistry → Registry → AuthRegistry
  with_db self db = record self { db = db }

  unfoldable pub step : Operation → AuthRegistry → AuthRegistry
  step (inviting around random now handle ttl) self =
      with_db self (invite p sql capacity around random now handle ttl self.db).1
  step (enrolling around now token r) self =
      with_db self (enroll p sql capacity around now token r self.db).1
  step (activating around key) self = with_db self (activate sql capacity around key self.db).1
  step (revoking around key) self = with_db self (revoke sql capacity around key self.db).1
  step (applying around later now signed) self =
      (apply_policy p sql capacity around later now signed self).1

  -- Operations one after the other, whatever each returns.
  unfoldable pub operate : List Operation → AuthRegistry → AuthRegistry
  operate [] self = self
  operate (o ∷ rest) self = operate rest (step o self)

  invite-Retired :
      (key : Text) (around : Surroundings) (random : Randomness) (now : ℕ) (handle : Text) (ttl : ℕ)
      (db : Registry)
      → Retired key db.devices
      → Retired key (invite p sql capacity around random now handle ttl db).1.devices
  invite-Retired key around random now handle ttl db r =
      elim (invite_lem p sql capacity around random now handle ttl db) [
        | inl (e, q) ↦ rw q r
        | inr x ↦ rw x.result (rw x.issued.devices_same.0 r)
      ]

  enroll-Retired :
      (key : Text) (around : Surroundings) (now : ℕ) (token : Text) (d : DeviceRegistration)
      (db : Registry)
      → Retired key db.devices
      → Retired key (enroll p sql capacity around now token d db).1.devices
  enroll-Retired key around now token d db r =
      elim (enroll_lem p sql capacity around now token d db) [
        | inl (e, q) ↦ rw q r
        | inr x ↦ rw x.result (elim x.enrolled.how [
          | inl (spent, again) ↦ rw again.devices_same r
          | inr (unused, joined) ↦
              rw joined.added
                (Retired-new key db.devices joined.device (rw joined.its_key joined.new_key) r)
        ])
      ]

  activate-Retired :
      (key : Text) (around : Surroundings) (other : Text) (db : Registry)
      → Retired key db.devices
      → Retired key (activate sql capacity around other db).1.devices
  unfolding activate
  activate-Retired key around other db r =
      elim (Result-cases (activate_action sql capacity around other db)) [
        | inr (e, k) ↦ rw (k, activate) r
        | inl (after, k) ↦ elim (Bool-cases (sql.commits after)) [
          | inl c ↦
              rw (k, activate, c)
                (activate_action-Retired key other sql capacity around db after k r)
          | inr c ↦ rw (k, activate, c) r
        ]
      ]

  revoke-Retired :
      (key : Text) (around : Surroundings) (other : Text) (db : Registry)
      → Retired key db.devices
      → Retired key (revoke sql capacity around other db).1.devices
  revoke-Retired key around other db r = elim (revoke-cases sql capacity around other db) [
    | inl (e, q) ↦ rw q r
    | inr (inl (e, q)) ↦ rw q r
    | inr (inr (e, q)) ↦ rw q (
        rw (audit_revocation-same sql capacity around other (revoke_rows other db))
          (revoke_rows-Retired key other db r))
  ]

  policy-Retired :
      (key : Text) (around : Surroundings) (now : ℕ) (signed : SignedPolicy) (self : AuthRegistry)
      → Retired key self.db.devices
      → Retired key (apply_policy_inner p sql capacity around now signed self).1.db.devices
  unfolding Applied
  policy-Retired key around now signed self r =
      elim (apply_policy_inner_lem p sql capacity around now signed self) [
        | inl (e, q, same) ↦ rw same r
        | inr x ↦ elim x.applied.1 [
          | inl (same, retried) ↦ rw same r
          | inr changed ↦ record {
            gone = changed.steady (is_gone key) (λ d. refl) ∙ r.gone;
            inactive = changed.steady (is_active key) (λ d. refl) ∙ r.inactive;
          }
        ]
      ]

  apply_policy-Retired :
      (key : Text) (around later : Surroundings) (now : ℕ) (signed : SignedPolicy)
      (self : AuthRegistry)
      → Retired key self.db.devices
      → Retired key (apply_policy p sql capacity around later now signed self).1.db.devices
  unfolding apply_policy
  apply_policy-Retired key around later now signed self r =
      let inner = apply_policy_inner p sql capacity around now signed self in
      let kept = policy-Retired key around now signed self r in
      elim (Bool-cases (succeeds p sql capacity inner.0)) [
        | inl t ↦ rw t kept
        | inr f ↦ rw f (rw (report_refusal-same p sql capacity later signed inner.1) kept)
      ]

  step-Retired :
      (key : Text) (o : Operation) (self : AuthRegistry)
      → Retired key self.db.devices
      → Retired key (step o self).db.devices
  unfolding step
  step-Retired key (inviting around random now handle ttl) self r =
      invite-Retired key around random now handle ttl self.db r
  step-Retired key (enrolling around now token d) self r =
      enroll-Retired key around now token d self.db r
  step-Retired key (activating around other) self r = activate-Retired key around other self.db r
  step-Retired key (revoking around other) self r = revoke-Retired key around other self.db r
  step-Retired key (applying around later now signed) self r =
      apply_policy-Retired key around later now signed self r

  operate-Retired :
      (key : Text) (os : List Operation) (self : AuthRegistry)
      → Retired key self.db.devices
      → Retired key (operate os self).db.devices
  unfolding operate
  operate-Retired key [] self r = r
  operate-Retired key (o ∷ rest) self r =
      operate-Retired key rest (step o self) (step-Retired key o self r)

  -- A device that is there only as revoked is never admitted again, whatever invitations, enrollments,
  -- activations, revocations and policy updates follow.
  pub revoked_forever :
      (key : Text) (os : List Operation) (self : AuthRegistry)
      → Retired key self.db.devices
      → Retired key (operate os self).db.devices
        × (authorize p (operate os self).db key ≡ err "device not admitted")
  revoked_forever key os self r =
      let kept = operate-Retired key os self r in
      (
        kept,
        find-none-authorize p (operate os self).db key
            (inactive-find (operate os self).db.users key _ kept.inactive),
      )
