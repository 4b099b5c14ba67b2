-- ===== src/Trust/Pins.antt =====
-- The pins of trust.rs over each operation: first fingerprint, key change, directory key.
use epochgrid.Base.{
  [], ◌∷◌, ◌++◌, bytes_eq, Bool, true, false, Text, none, some, ok, ◌≡◌, ◌≢◌, refl, inl, inr, arith,
  Option-cases, Result-cases, bytes_discrete,
}
use epochgrid.Base.Exec.{continue, lift, bind-Along, for_each, for_each-Along}
use epochgrid.Wire.{DeviceRegistration, Snapshot, Primitives}
use epochgrid.Capacity.{Capacity}
use epochgrid.Store.{Sqlite, transaction, transaction_atomic}
use epochgrid.Transparency
use epochgrid.Trust.Table.{changed, trust_state_eq, DeviceTrust, Tables, device_trust, update_rows}
use epochgrid.Trust.Operations.{
  fingerprint, normalise, mark_changed, mark_verified, observe_inner, report, observe_print,
  observe_device, verify_checks, verify_device, pin_checks, pin_directory, extends_stored,
  accept_extension, accept_observed, accept_valid, accept_checkpoint, new_row,
}
use epochgrid.Trust.Carries.{Carries, Carries-refl, Carries-trans, update-Carries, append-Carries}

-- The three outcomes of an observation.
pub data Observation (user device print : Text) (t : Tables) : Bool → Tables → Type 0 where
  seen :
      (r : DeviceTrust)
      → device_trust user device t.devices ≡ some r
      → r.fingerprint ≡ print
      → r.state ≢ changed
      → Observation user device print t false t
  first :
      device_trust user device t.devices ≡ none
      → Observation user device print t false
          (record t { devices = t.devices ++ new_row user device print ∷ [] })
  held :
      (r : DeviceTrust)
      → device_trust user device t.devices ≡ some r
      → r.fingerprint ≡ print
      → r.state ≡ changed
      → Observation user device print t true t
  differs :
      (r : DeviceTrust)
      → device_trust user device t.devices ≡ some r
      → r.fingerprint ≢ print
      → Observation user device print t true
          (record t { devices = update_rows user device (mark_changed print) t.devices })

pub observe_inner-Observation :
    (user device print : Text) (t t' : Tables) (b : Bool)
    → observe_inner user device print t ≡ ok (b, t')
    → Observation user device print t b t'
unfolding observe_inner
observe_inner-Observation user device print t t' b h =
    elim (Option-cases (device_trust user device t.devices)) [
      | inl e ↦
          let eb : b ≡ false = ground arith in
          let et : t' ≡ record t { devices = t.devices ++ new_row user device print ∷ [] } =
            ground arith in
          rw (eb, et) (first e)
      | inr (r, e) ↦ elim (bytes_discrete r.fingerprint print) [
        | no n ↦
            let eb : b ≡ true = ground arith in
            let et : t'
                ≡ record t { devices = update_rows user device (mark_changed print) t.devices } =
              ground arith in
            rw (eb, et) (differs r e n)
        | yes q ↦ elim (trust_state_eq.dec r.state changed) [
          | yes c ↦
              let eb : b ≡ true = ground arith in
              let et : t' ≡ t = ground arith in rw (eb, et) (held r e q c)
          | no c ↦
              let eb : b ≡ false = ground arith in
              let et : t' ≡ t = ground arith in rw (eb, et) (seen r e q c)
        ]
      ]
    ]

Observation-Carries :
    (user device print : Text) (t t' : Tables) (b : Bool)
    → Observation user device print t b t'
    → Carries t t'
Observation-Carries user device print t t' b (seen r e q c) = Carries-refl _
Observation-Carries user device print t t' b (first e) =
    append-Carries (new_row user device print) t
Observation-Carries user device print t t' b (held r e q c) = Carries-refl _
Observation-Carries user device print t t' b (differs r e n) =
    update-Carries user device (mark_changed print) t (λ x. (refl, refl)) (λ x. refl)
      (λ x _ _. refl)

module _ (p : Primitives) (sql : Sqlite Tables) (capacity : Capacity) where
  transaction-Carries :
      (user device print : Text) (t : Tables)
      → Carries t (transaction sql capacity true (observe_inner user device print) t).1
  transaction-Carries user device print t =
      elim (transaction_atomic sql capacity true (observe_inner user device print) t) [
        | inl x ↦ rw x.result (
            Observation-Carries user device print t x.after x.value
              (observe_inner-Observation user device print t x.after x.value x.acted))
        | inr (e, h) ↦ rw h (Carries-refl t)
      ]

  observe_print-Carries :
      (r : DeviceRegistration) (print : Text) (t : Tables)
      → Carries t (observe_print p sql capacity r print t).1
  unfolding observe_print
  observe_print-Carries r print t =
      bind-Along Carries Carries-trans
        (transaction sql capacity true (observe_inner r.payload.user_id r.payload.device_id print))
        (report p sql capacity) t
        (transaction-Carries r.payload.user_id r.payload.device_id print t) (λ b. Carries-refl)

  pub observe_device-Carries :
      (r : DeviceRegistration) (t : Tables) → Carries t (observe_device p sql capacity r t).1
  unfolding observe_device
  observe_device-Carries r t =
      bind-Along Carries Carries-trans (lift (fingerprint p r)) (observe_print p sql capacity r) t
        (Carries-refl t) (observe_print-Carries r)

  pub verify_device-Carries :
      (user device supplied : Text) (t : Tables)
      → Carries t (verify_device user device supplied t).1
  unfolding verify_device
  verify_device-Carries user device supplied t =
      elim (Result-cases
        (verify_checks (normalise supplied) (device_trust user device t.devices))) [
          | inr (e, h) ↦ rw (h, continue) (Carries-refl t)
          | inl (u, h) ↦
              rw (h, continue)
                (update-Carries user device mark_verified t (λ x. (refl, refl)) (λ x. refl)
                  (λ x found c. absurd (unfold verify_checks in ground arith)))
        ]

  pub pin_directory-Carries :
      (signer : Text) (t : Tables) → Carries t (pin_directory p sql capacity signer t).1
  unfolding pin_directory
  pin_directory-Carries signer t =
      elim (Result-cases (pin_checks p sql capacity signer t.directory)) [
        | inr (e, h) ↦ rw (h, continue) (Carries-refl t)
        | inl (u, h) ↦
            rw (h, continue)
              (record { rows = (Carries-refl t).rows; signer = λ d e. (d, ground arith, refl) })
      ]

  accept_extension-Carries :
      (s : Snapshot) (t : Tables) → Carries t (accept_extension p sql capacity s t).1
  unfolding accept_extension
  accept_extension-Carries s t = elim (Result-cases (extends_stored p sql capacity s t.directory)) [
    | inr (e, h) ↦ rw (h, continue) (Carries-refl t)
    | inl (u, h) ↦
        rw (h, continue)
          (record {
            rows = (Carries-refl t).rows;
            signer = λ d e. (record d { checkpoint = some s.checkpoint }, ground arith, refl);
          })
  ]

  pub accept_checkpoint-Carries :
      (s : Snapshot) (t : Tables) → Carries t (accept_checkpoint p sql capacity s t).1
  unfolding accept_checkpoint
  accept_checkpoint-Carries s t =
      bind-Along Carries Carries-trans (lift (Transparency.validate p s))
        (λ _. accept_valid p sql capacity s) t (Carries-refl t)
        λ _ t1.
          bind-Along Carries Carries-trans (pin_directory p sql capacity s.checkpoint.signer)
            (λ _. accept_observed p sql capacity s) t1
            (pin_directory-Carries s.checkpoint.signer t1)
            λ _ t2.
              bind-Along Carries Carries-trans (for_each (observe_device p sql capacity) s.entries)
                (λ _. accept_extension p sql capacity s) t2
                (for_each-Along Carries Carries-refl Carries-trans (observe_device p sql capacity)
                  observe_device-Carries s.entries t2)
                (λ _ t3. accept_extension-Carries s t3)
