-- ===== src/Registry/Enroll/Steps.antt =====
-- The devices behind a first enrollment and behind a retry.
use epochgrid.Base.{
  ℕ, List, [], ◌∷◌, ◌++◌, map, any, ◌==◌, bytes_eq, nat_eq, ◌&&◌, ◌||◌, ensure, true, false, Text,
  Bytes, ok, err, String, ◌≡◌, refl, ◌∙◌, arith, ◌⊎◌, inl, inr, Bool-cases, Result-cases, >>=-eq-ok,
}
use epochgrid.Wire.{DeviceRegistration, Primitives}
use epochgrid.Capacity.{Capacity, check_database}
use epochgrid.Store.{Sqlite}
use epochgrid.Audit.Events.{Event, reference_of}
use epochgrid.Audit.Log.{Surroundings, append}
use epochgrid.Registry.Tables.{Registry, Device}
use epochgrid.Registry.Enroll.{
  is_consumable, consume, count_if, audit_event, retry_checks, retry, insert_device, new_device,
  enroll_action,
}
use epochgrid.Registry.Enroll.Spending.{count_if-any}

module _ (p : Primitives) (sql : Sqlite Registry) (capacity : Capacity) where
  -- The tables behind a retry, which only writes to the audit log.
  pub record Again (db db' : Registry) : Type 0 where
    pub tokens_same : db'.tokens ≡ db.tokens
    pub devices_same : db'.devices ≡ db.devices

  -- The tables behind a first enrollment.
  pub record Joined (registration : DeviceRegistration) (db db' : Registry) : Type 0 where
    pub device : Device
    pub added : db'.devices ≡ db.devices ++ device ∷ []
    pub new_key :
        any (λ (d : Device). d.nkey == registration.payload.nats_public_key) db.devices ≡ false
    pub its_key : device.nkey ≡ registration.payload.nats_public_key
    pub its_user : device.user_id ≡ registration.payload.user_id
    pub waiting : (device.ready ≡ false) × (device.revoked ≡ false)

  pub no_key :
      (key user name : Text) (ds : List Device)
      → any (λ (e : Device). e.nkey == key || (e.user_id == user && e.device_id == name)) ds ≡ false
      → any (λ (d : Device). d.nkey == key) ds ≡ false
  no_key key user name [] h = refl
  no_key key user name (d ∷ ds) h = ground (arith, no_key key user name ds)

  pub insert_device-new :
      (d : Device) (ds ds' : List Device)
      → insert_device p sql capacity d ds ≡ ok ds'
      → (ds' ≡ ds ++ d ∷ []) × (any (λ (e : Device). e.nkey == d.nkey) ds ≡ false)
  unfolding insert_device
  insert_device-new d ds ds' h =
      (ground arith, no_key d.nkey d.user_id d.device_id ds (ground arith))

  pub enroll_action-Joined :
      (around : Surroundings) (now : ℕ) (digest : Bytes) (r : DeviceRegistration) (encoded : Bytes)
      (db db' : Registry)
      → enroll_action p sql capacity around now r.payload.user_id digest r encoded db ≡ ok db'
      → (any (is_consumable db.users now digest) db.tokens ≡ true)
        × (db'.tokens ≡ map (consume db.users now digest r.payload.nats_public_key) db.tokens)
        × Joined r db db'
  unfolding enroll_action
  enroll_action-Joined around now digest r encoded db db' h =
      let d = new_device p sql capacity around r.payload.user_id r encoded in
      let (u, c, h1) =
        >>=-eq-ok
          (ensure (count_if (is_consumable db.users now digest) db.tokens == 1)
            "enrollment token expired or consumed")
          _ h in
      let (ds, i, h2) = >>=-eq-ok (insert_device p sql capacity d db.devices) _ h1 in
      let (t, j, h3) = >>=-eq-ok (reference_of around.fresh_reference) _ h2 in
      let (done, k, h4) = >>=-eq-ok (append around _ false db.audit) _ h3 in
      let (grown, fresh) = insert_device-new d db.devices ds i in
      let same : (db'.devices ≡ ds)
          × (db'.tokens ≡ map (consume db.users now digest r.payload.nats_public_key) db.tokens) =
        ground arith in
      (
        count_if-any _ db.tokens (ground arith),
        same.1,
        record {
          device = d;
          added = same.0 ∙ grown;
          new_key = fresh;
          its_key = refl;
          its_user = refl;
          waiting = (refl, refl);
        },
      )

  pub audit_event-Again :
      (around : Surroundings) (event : Event) (db : Registry)
      → ((e : String) × (audit_event p sql capacity around event db ≡ (err e, db)))
        ⊎ ((db' : Registry) × (audit_event p sql capacity around event db ≡ (ok tt, db'))
            × Again db db')
  unfolding audit_event
  audit_event-Again around event db = elim (Result-cases (append around event false db.audit)) [
    | inr (e, k) ↦ inl (e, rw (k, audit_event))
    | inl (done, k) ↦
        let after : Registry = record db { audit = done.1 } in
        elim (Result-cases
          (check_database capacity false (sql.page_count after) (sql.page_size after))) [
            | inr (e, c) ↦ inl (e, rw (k, audit_event, c))
            | inl (u, c) ↦ elim (Bool-cases (sql.commits after)) [
              | inl d ↦ inr (
                after,
                rw (k, audit_event, c, d),
                record { tokens_same = refl; devices_same = refl },
              )
              | inr d ↦ inl ("commit", rw (k, audit_event, c, d))
            ]
          ]
  ]

  pub retry_checks-key :
      (key previous : Text) (encoded : Bytes) (db : Registry) (event : Event)
      → retry_checks p sql capacity key previous encoded db ≡ ok event
      → previous ≡ key
  unfolding retry_checks
  retry_checks-key key previous encoded db event k =
      let (u, c, h) =
        >>=-eq-ok (ensure (previous == key) "enrollment token already consumed") _ k in
      ground arith

  pub retry-Again :
      (around : Surroundings) (key previous : Text) (encoded : Bytes) (db : Registry)
      → ((e : String) × (retry p sql capacity around key previous encoded db ≡ (err e, db)))
        ⊎ (record {
          db' : Registry;
          result : retry p sql capacity around key previous encoded db ≡ (ok tt, db');
          same_key : previous ≡ key;
          again : Again db db';
        })
  unfolding retry
  retry-Again around key previous encoded db =
      elim (Result-cases (retry_checks p sql capacity key previous encoded db)) [
        | inr (e, k) ↦ inl (e, rw (k, retry))
        | inl (event, k) ↦ elim (audit_event-Again around event db) [
          | inl (e, q) ↦ inl (e, rw (k, retry, q))
          | inr (db', q, a) ↦ inr (record {
            db' = db';
            result = rw (k, retry, q);
            same_key = retry_checks-key key previous encoded db event k;
            again = a;
          })
        ]
      ]
