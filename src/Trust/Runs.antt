-- ===== src/Trust/Runs.antt =====
-- The trust tables over any history of operations, and what a successful observation and a successful
-- verification say.
use epochgrid.Base.{
  ◌++◌, ◌∙◌, find-append_none, inl, inr, List, [], ◌∷◌, all, length, Bool, true, false, Text, none,
  some, Result, ok, ◌≡◌, ◌≢◌, refl, ◌↔◌, arith, Result-cases, Option-cases,
}
use epochgrid.Wire.{DeviceRegistration, Snapshot, Primitives}
use epochgrid.Capacity.{Capacity}
use epochgrid.Store.{Sqlite, transaction_atomic}
use epochgrid.Trust.Table.{changed, verified, DeviceTrust, Tables, device_trust, is_row}
use epochgrid.Trust.Operations.{
  fingerprint, normalise, mark_verified, observe_inner, report, observe_device, verify_device,
  pin_directory, accept_checkpoint, transparency_failure, clear_transparency_warning,
  is_ascii_hexdigit, new_row,
}
use epochgrid.Trust.Carries.{
  Carries, Carries-refl, Carries-trans, device_trust-update_rows, device_trust-is_row,
}
use epochgrid.Trust.Pins.{
  Observation, seen, first, held, differs, observe_inner-Observation, observe_device-Carries,
  verify_device-Carries, pin_directory-Carries, accept_checkpoint-Carries,
}

pub data Operation : Type 0 where
  observe : DeviceRegistration → Operation
  verify : Text → Text → Text → Operation
  pin : Text → Operation
  accept : Snapshot → Operation
  warn : Text → Operation
  clear : Operation

module _ (p : Primitives) (sql : Sqlite Tables) (capacity : Capacity) where
  unfoldable pub step : Operation → Tables → Result (Unit {0}) × Tables
  step (observe r) t = observe_device p sql capacity r t
  step (verify user device supplied) t = verify_device user device supplied t
  step (pin signer) t = pin_directory p sql capacity signer t
  step (accept s) t = accept_checkpoint p sql capacity s t
  step (warn message) t = transparency_failure message t
  step clear t = clear_transparency_warning t

  unfoldable pub run : List Operation → Tables → Tables
  run [] t = t
  run (o ∷ rest) t = run rest (step o t).1

  step-Carries : (o : Operation) (t : Tables) → Carries t (step o t).1
  unfolding step transparency_failure clear_transparency_warning
  step-Carries (observe r) t = observe_device-Carries p sql capacity r t
  step-Carries (verify user device supplied) t =
      verify_device-Carries p sql capacity user device supplied t
  step-Carries (pin signer) t = pin_directory-Carries p sql capacity signer t
  step-Carries (accept s) t = accept_checkpoint-Carries p sql capacity s t
  step-Carries (warn message) t = record {
    rows = (Carries-refl t).rows;
    signer = (Carries-refl t).signer;
  }
  step-Carries clear t = record { rows = (Carries-refl t).rows; signer = (Carries-refl t).signer }

  -- Whatever operations run, failing ones included, every device that has been seen keeps its row and
  -- its first fingerprint, a device that has changed stays changed, and a pinned directory key stays.
  pub run-Carries : (os : List Operation) (t : Tables) → Carries t (run os t)
  unfolding run
  run-Carries [] t = Carries-refl t
  run-Carries (o ∷ rest) t =
      Carries-trans t (step o t).1 _ (step-Carries o t) (run-Carries rest (step o t).1)

first_row :
    (user device print : Text) (rows : List DeviceTrust)
    → device_trust user device rows ≡ none
    → device_trust user device (rows ++ new_row user device print ∷ [])
      ≡ some (new_row user device print)
unfolding device_trust
first_row user device print rows e =
    find-append_none (is_row user device) rows (new_row user device print ∷ []) e ∙ ground arith

-- An observation that reports no change: the device had been seen with this fingerprint alone and
-- nothing changes, or it had not been seen and its row is new.
pub data Unchanged (t t' : Tables) (user device print : Text) : Type 0 where
  seen_before :
      (row : DeviceTrust)
      → device_trust user device t.devices ≡ some row
      → row.fingerprint ≡ print
      → row.state ≢ changed
      → t' ≡ t
      → Unchanged t t' user device print
  first_seen :
      device_trust user device t.devices ≡ none
      → t' ≡ record t { devices = t.devices ++ new_row user device print ∷ [] }
      → Unchanged t t' user device print

Observation-Unchanged :
    (user device print : Text) (t t' : Tables) (b : Bool)
    → Observation user device print t b t'
    → b ≡ false
    → Unchanged t t' user device print
Observation-Unchanged user device print t t' b (seen r e q c) n = seen_before r e q c refl
Observation-Unchanged user device print t t' b (first e) n = first_seen e refl
Observation-Unchanged user device print t t' b (held r e q c) n = absurd (ground arith)
Observation-Unchanged user device print t t' b (differs r e k) n = absurd (ground arith)

-- What a device's row says after an observation that reports no change.
pub record Trusted (rows : List DeviceTrust) (user device print : Text) : Type 0 where
  pub row : DeviceTrust
  pub found : device_trust user device rows ≡ some row
  pub pinned : row.fingerprint ≡ print
  pub unchanged : row.state ≢ changed

Observation-Trusted :
    (user device print : Text) (t t' : Tables) (b : Bool)
    → Observation user device print t b t'
    → b ≡ false
    → Trusted t'.devices user device print
Observation-Trusted user device print t t' b (seen r e q c) n = record {
  row = r;
  found = e;
  pinned = q;
  unchanged = c;
}
Observation-Trusted user device print t t' b (first e) n = record {
  row = new_row user device print;
  found = first_row user device print t.devices e;
  pinned = refl;
  unchanged = λ c. cc;
}
Observation-Trusted user device print t t' b (held r e q c) n = absurd (ground arith)
Observation-Trusted user device print t t' b (differs r e k) n = absurd (ground arith)

module _ (p : Primitives) (sql : Sqlite Tables) (capacity : Capacity) where
  -- A device passes an observation only where it had been seen before with the same pinned
  -- fingerprint and has not changed, and then no table changes, or where it had not been seen, and then
  -- its row with this fingerprint is all that is added. Its row then has the fingerprint, unchanged.
  pub observe_device-Trusted :
      (r : DeviceRegistration) (t t' : Tables)
      → observe_device p sql capacity r t ≡ (ok tt, t')
      → (print : Text) × (fingerprint p r ≡ ok print)
        × Unchanged t t' r.payload.user_id r.payload.device_id print
        × Trusted t'.devices r.payload.user_id r.payload.device_id print
  unfolding observe_device report
  observe_device-Trusted r t t' h = elim (Result-cases (fingerprint p r)) [
    | inr (e, k) ↦ absurd (ground arith)
    | inl (print, k) ↦
        elim (transaction_atomic sql capacity true
          (observe_inner r.payload.user_id r.payload.device_id print) t) [
            | inr (e, x) ↦ absurd (ground (arith, x))
            | inl x ↦
                let same : t' ≡ x.after = ground (arith, x.result) in
                let b : x.value ≡ false = ground (arith, x.result) in
                (
                  print,
                  k,
                  rw same (
                      Observation-Unchanged _ _ print t x.after x.value
                        (observe_inner-Observation _ _ print t x.after x.value x.acted) b),
                  rw same (
                      Observation-Trusted _ _ print t x.after x.value
                        (observe_inner-Observation _ _ print t x.after x.value x.acted) b),
                )
          ]
  ]

-- A verification succeeds exactly when the text that the user supplies, without spaces and in
-- capitals, is 64 hexadecimal digits and the pinned fingerprint of a device that has not changed. If
-- it succeeds, that device's row, and no field of it but the state, becomes verified.
pub verify_device_iff :
    (user device supplied : Text) (t : Tables)
    → (((verify_device user device supplied t).0 ≡ ok tt) ↔ (record {
      row : DeviceTrust;
      found : device_trust user device t.devices ≡ some row;
      complete : length (normalise supplied) ≡ 64;
      digits : all is_ascii_hexdigit (normalise supplied) ≡ true;
      unchanged : row.state ≢ changed;
      same : row.fingerprint ≡ normalise supplied;
    }))
      × ((row : DeviceTrust)
          → device_trust user device t.devices ≡ some row
          → (verify_device user device supplied t).0 ≡ ok tt
          → device_trust user device (verify_device user device supplied t).1.devices
            ≡ some (record row { state = verified }))
unfolding verify_device
verify_device_iff user device supplied t = (
  (
    (λ h. elim (Option-cases (device_trust user device t.devices)) [
      | inl e ↦ absurd (ground arith)
      | inr (r, e) ↦ record {
        row = r;
        found = e;
        complete = ground arith;
        digits = ground arith;
        unchanged = λ c. ground arith;
        same = ground arith;
      }
    ]),
    (λ q. ground (arith, q.found, q.complete, q.digits, q.unchanged, q.same)),
  ),
  λ r e h.
      let (eu, ed) = device_trust-is_row user device t.devices r e in
      let marks =
        device_trust-update_rows user device user device mark_verified t.devices r
          (λ x. (refl, refl)) e in
      ground (arith, marks, eu, ed, h),
)
