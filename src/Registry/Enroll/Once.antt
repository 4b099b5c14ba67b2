-- ===== src/Registry/Enroll/Once.antt =====
-- The outcomes of `enroll` of identity_model.rs, and the token that it spends.
use epochgrid.Base.{
  ℕ, map, ◌==◌, bytes_eq, nat_eq, ◌&&◌, ensure, Text, Bytes, none, some, ok, err, String, ◌≡◌, ◌≢◌,
  ◌∙◌, arith, ◌⊎◌, inl, inr, Bool-cases, Option-cases, Result-cases, Unique, >>=-eq-ok, subst,
}
use epochgrid.Wire.{DeviceRegistration, Primitives, register, encode}
use epochgrid.Identity.{verify}
use epochgrid.Merkle.{hash}
use epochgrid.Capacity.{Capacity}
use epochgrid.Store.{Sqlite}
use epochgrid.Audit.Log.{Surroundings}
use epochgrid.Registry.Tables.{Registry}
use epochgrid.Registry.Enroll.{
  used_by, token_user, enroll_action, enroll_checks, provider_checks, first_enrollment,
  enroll_token, enroll,
}
use epochgrid.Registry.Enroll.Spending.{digest_of, used_by-consume, consume-digest}
use epochgrid.Registry.Enroll.Steps.{Again, Joined, retry-Again, enroll_action-Joined}

module _ (p : Primitives) (sql : Sqlite Registry) (capacity : Capacity) where
  -- How the token stood before and what the tables are behind a successful enrollment.
  pub record Enrolled (digest : Bytes) (registration : DeviceRegistration) (db db' : Registry)
      : Type 0 where
    pub spent :
        Unique (map digest_of db.tokens)
        → used_by digest db'.tokens ≡ some registration.payload.nats_public_key
    pub how :
        ((used_by digest db.tokens ≡ some registration.payload.nats_public_key)
          × Again p sql capacity db db')
        ⊎ ((used_by digest db.tokens ≡ none) × Joined p sql capacity registration db db')
    pub digests_same : map digest_of db'.tokens ≡ map digest_of db.tokens

  first_enrollment-Enrolled :
      (around : Surroundings) (now : ℕ) (token : Text) (digest : Bytes) (r : DeviceRegistration)
      (encoded : Bytes) (db : Registry)
      → used_by digest db.tokens ≡ none
      → ((e : String) × (first_enrollment p sql capacity around now token r.payload.user_id digest r
              encoded db
            ≡ (err e, db)))
        ⊎ ((db' : Registry) × (first_enrollment p sql capacity around now token r.payload.user_id
                digest r encoded db
              ≡ (ok tt, db'))
            × Enrolled digest r db db')
  unfolding first_enrollment
  first_enrollment-Enrolled around now token digest r encoded db unused =
      elim (Result-cases (provider_checks p sql capacity now token r.payload.user_id db)) [
        | inr (e, k) ↦ inl (e, rw (k, first_enrollment))
        | inl (u, k) ↦
            elim (Result-cases
              (enroll_action p sql capacity around now r.payload.user_id digest r encoded db)) [
                | inr (e, a) ↦ inl (e, rw (k, first_enrollment, a))
                | inl (after, a) ↦ elim (Bool-cases (sql.commits after)) [
                  | inr c ↦ inl ("commit", rw (k, first_enrollment, a, c))
                  | inl c ↦
                      let (consumed, tokens, joined) =
                        enroll_action-Joined p sql capacity around now digest r encoded db after
                          a in
                      inr (
                        after,
                        rw (k, first_enrollment, a, c),
                        record {
                          spent = λ unique. rw tokens (
                              used_by-consume db.users now digest r.payload.nats_public_key
                                db.tokens unique consumed);
                          how = inr (unused, joined);
                          digests_same = rw tokens (
                              consume-digest db.users now digest r.payload.nats_public_key
                                db.tokens);
                        },
                      )
                ]
              ]
      ]

  enroll_token-Enrolled :
      (around : Surroundings) (now : ℕ) (token : Text) (digest : Bytes) (r : DeviceRegistration)
      (encoded : Bytes) (db : Registry)
      → ((e : String) × (enroll_token p sql capacity around now token r
              (r.payload.user_id, digest, encoded)
              db
            ≡ (err e, db)))
        ⊎ ((db' : Registry) × (enroll_token p sql capacity around now token r
                (r.payload.user_id, digest, encoded)
                db
              ≡ (ok tt, db'))
            × Enrolled digest r db db')
  unfolding enroll_token
  enroll_token-Enrolled around now token digest r encoded db =
      elim (Option-cases (used_by digest db.tokens)) [
        | inl n ↦ elim (first_enrollment-Enrolled around now token digest r encoded db n) [
          | inl (e, q) ↦ inl (e, rw (n, enroll_token, q))
          | inr (db', q, x) ↦ inr (db', rw (n, enroll_token, q), x)
        ]
        | inr (previous, n) ↦
            elim (retry-Again p sql capacity around r.payload.nats_public_key previous encoded db) [
              | inl (e, q) ↦ inl (e, rw (n, enroll_token, q))
              | inr x ↦ inr (
                x.db',
                rw (n, enroll_token, x.result),
                record {
                  spent = λ unique. rw (x.again.tokens_same, n, x.same_key);
                  how = inl (rw (n, x.same_key), x.again);
                  digests_same = rw x.again.tokens_same;
                },
              )
            ]
      ]

  enroll_checks-ok :
      (token : Text) (r : DeviceRegistration) (user : Text) (digest encoded : Bytes)
      → enroll_checks p sql capacity token r ≡ ok (user, digest, encoded)
      → (user ≡ r.payload.user_id)
        × (hash p token ≡ ok digest)
        × (verify p r ≡ ok tt)
        × (token_user p token ≡ ok r.payload.user_id)
  unfolding enroll_checks
  enroll_checks-ok token r user digest encoded h =
      let (u, v, h1) = >>=-eq-ok (verify p r) _ h in
      let (name, n, h2) = >>=-eq-ok (token_user p token) _ h1 in
      let (u', c, h3) =
        >>=-eq-ok
          (ensure (r.payload.user_id == name && r.payload.generation == 1)
            "enrollment identity mismatch")
          _ h2 in
      let (d, q, h4) = >>=-eq-ok (hash p token) _ h3 in
      let (b, w, h5) = >>=-eq-ok (encode p (register r)) _ h4 in
      let same : r.payload.user_id ≡ name = ground arith in
      (ground arith, ground arith, v, n ∙ ground arith)

  -- An enrollment fails and leaves every table, or succeeds for a verified registration of the token's
  -- user: then, where the digests of the tokens are distinct, as their column is the primary key, the
  -- token is spent on the registration's key; and it was either spent on the same key before, and the
  -- devices are as they were, or it was unused, and one device is added, with a key that no device had,
  -- that is not ready yet.
  pub enroll_lem :
      (around : Surroundings) (now : ℕ) (token : Text) (r : DeviceRegistration) (db : Registry)
      → ((e : String) × (enroll p sql capacity around now token r db ≡ (err e, db))) ⊎ (record {
        db' : Registry;
        digest : Bytes;
        result : enroll p sql capacity around now token r db ≡ (ok tt, db');
        authentic :
            (verify p r ≡ ok tt)
            × (token_user p token ≡ ok r.payload.user_id)
            × (hash p token ≡ ok digest);
        enrolled : Enrolled digest r db db';
      })
  unfolding enroll
  enroll_lem around now token r db = elim (Result-cases (enroll_checks p sql capacity token r)) [
    | inr (e, k) ↦ inl (e, rw (k, enroll))
    | inl ((user, digest, encoded), k) ↦
        let (same, hashed, v, named) = enroll_checks-ok token r user digest encoded k in
        let k' =
          subst (λ (u : Text). enroll_checks p sql capacity token r ≡ ok (u, digest, encoded)) same
            k in
        elim (enroll_token-Enrolled around now token digest r encoded db) [
          | inl (e, q) ↦ inl (e, rw (k', enroll, q))
          | inr (db', q, x) ↦ inr (record {
            db' = db';
            digest = digest;
            result = rw (k', enroll, q);
            authentic = (v, named, hashed);
            enrolled = x;
          })
        ]
  ]

  -- Once a token is spent on a key, no enrollment of another key with it succeeds.
  pub enroll_once :
      (around : Surroundings) (now : ℕ) (token : Text) (digest : Bytes) (key : Text)
      (r : DeviceRegistration) (db : Registry)
      → hash p token ≡ ok digest
      → used_by digest db.tokens ≡ some key
      → r.payload.nats_public_key ≢ key
      → (e : String) × (enroll p sql capacity around now token r db ≡ (err e, db))
  enroll_once around now token digest key r db hashed used other =
      elim (enroll_lem around now token r db) [
        | inl x ↦ x
        | inr x ↦
            let same : x.digest ≡ digest = ground (arith, x.authentic, hashed) in
            elim x.enrolled.how [
              | inl (spent, again) ↦ absurd (
                  let s =
                    subst (λ (d : Bytes). used_by d db.tokens ≡ some r.payload.nats_public_key) same
                      spent in
                  ground (arith, s, used, other))
              | inr (unused, joined) ↦ absurd (
                  let s = subst (λ (d : Bytes). used_by d db.tokens ≡ none) same unused in
                  ground (arith, s, used))
            ]
      ]
