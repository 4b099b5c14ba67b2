-- ===== src/Transparency/Validity.antt =====
-- What `Snapshot::validate` accepts.
use epochgrid.Base.{
  List, [], ◌∷◌, map, length, any, ◌==◌, nat_eq, bytes_eq, true, false, Text, text, Bytes, All,
  Unique, ok, starts_with, ◌≡◌, ◌≢◌, refl, ◌≤◌, ◌↔◌, arith,
}
use epochgrid.Wire.{DeviceRegistration, Snapshot, Primitives, audit_log, encode, KeyPair}
use epochgrid.Identity.{verify_signature, key}
use epochgrid.Transparency.Snapshots.{root, signing_bytes, validate, distinct_identities, signed}

abbrev pub endpoint_of : DeviceRegistration → Text
endpoint_of entry = key entry.payload

abbrev pub nkey_of : DeviceRegistration → Text
nkey_of entry = entry.payload.nats_public_key

-- The value is not among those seen.
abbrev Unseen : Text → List Text → Type 0
Unseen x seen = any (λ y. y == x) seen ≡ false

Unseen-cons : (x y : Text) (seen : List Text) → Unseen x (y ∷ seen) → (y ≢ x) × Unseen x seen
Unseen-cons x y seen h = ground arith

Unseen-push : (x y : Text) (seen : List Text) → y ≢ x → Unseen x seen → Unseen x (y ∷ seen)
Unseen-push x y seen n h = ground arith

All-head_ne :
    (f : DeviceRegistration → Text) (y : Text) (seen : List Text) (xs : List DeviceRegistration)
    → All (λ e. Unseen (f e) (y ∷ seen)) xs
    → All (λ z. y ≢ z) (map f xs) × All (λ e. Unseen (f e) seen) xs
All-head_ne f y seen [] h = (tt, tt)
All-head_ne f y seen (x ∷ xs) h =
    let (ne, old) = Unseen-cons (f x) y seen h.0 in
    let (rest, olds) = All-head_ne f y seen xs h.1 in ((ne, rest), (old, olds))

All-tail-Unseen :
    (f : DeviceRegistration → Text) (y : Text) (seen : List Text) (xs : List DeviceRegistration)
    → All (λ z. y ≢ z) (map f xs)
    → All (λ e. Unseen (f e) seen) xs
    → All (λ e. Unseen (f e) (y ∷ seen)) xs
All-tail-Unseen f y seen [] h k = tt
All-tail-Unseen f y seen (x ∷ xs) h k =
    (Unseen-push (f x) y seen h.0 k.0, All-tail-Unseen f y seen xs h.1 k.1)

module _ (p : Primitives) where
  pub record Distinct (endpoints keys : List Text) (entries : List DeviceRegistration)
      : Type 0 where
    pub verified : All (λ e. verify_signature p e ≡ ok tt) entries
    pub endpoints_unseen : All (λ e. Unseen (endpoint_of e) endpoints) entries
    pub keys_unseen : All (λ e. Unseen (nkey_of e) keys) entries
    pub endpoints_unique : Unique (map endpoint_of entries)
    pub keys_unique : Unique (map nkey_of entries)

  Distinct-cons :
      (es ks : List Text) (x : DeviceRegistration) (xs : List DeviceRegistration)
      → verify_signature p x ≡ ok tt
      → Unseen (endpoint_of x) es
      → Unseen (nkey_of x) ks
      → Distinct (endpoint_of x ∷ es) (nkey_of x ∷ ks) xs
      → Distinct es ks (x ∷ xs)
  Distinct-cons es ks x xs v a b d =
      let (ne, old) = All-head_ne endpoint_of (endpoint_of x) es xs d.endpoints_unseen in
      let (kne, kold) = All-head_ne nkey_of (nkey_of x) ks xs d.keys_unseen in
      record {
        verified = (v, d.verified);
        endpoints_unseen = (a, old);
        keys_unseen = (b, kold);
        endpoints_unique = (ne, d.endpoints_unique);
        keys_unique = (kne, d.keys_unique);
      }

  distinct_step :
      (es ks : List Text) (x : DeviceRegistration) (xs : List DeviceRegistration)
      → distinct_identities p es ks (x ∷ xs) ≡ ok tt
      → (verify_signature p x ≡ ok tt)
        × Unseen (endpoint_of x) es
        × Unseen (nkey_of x) ks
        × (distinct_identities p (endpoint_of x ∷ es) (nkey_of x ∷ ks) xs ≡ ok tt)
  unfolding distinct_identities
  distinct_step es ks x xs h = ground arith

  pub distinct_identities-Distinct :
      (es ks : List Text) (xs : List DeviceRegistration)
      → distinct_identities p es ks xs ≡ ok tt
      → Distinct es ks xs
  distinct_identities-Distinct es ks [] h = record {
    verified = tt;
    endpoints_unseen = tt;
    keys_unseen = tt;
    endpoints_unique = tt;
    keys_unique = tt;
  }
  distinct_identities-Distinct es ks (x ∷ xs) h =
      let (v, a, b, rest) = distinct_step es ks x xs h in
      Distinct-cons es ks x xs v a b
        (distinct_identities-Distinct (endpoint_of x ∷ es) (nkey_of x ∷ ks) xs rest)

  Distinct-head :
      (es ks : List Text) (x : DeviceRegistration) (xs : List DeviceRegistration)
      → Distinct es ks (x ∷ xs)
      → Distinct (endpoint_of x ∷ es) (nkey_of x ∷ ks) xs
  Distinct-head es ks x xs d = record {
    verified = d.verified.1;
    endpoints_unseen =
        All-tail-Unseen endpoint_of (endpoint_of x) es xs d.endpoints_unique.0 d.endpoints_unseen.1;
    keys_unseen = All-tail-Unseen nkey_of (nkey_of x) ks xs d.keys_unique.0 d.keys_unseen.1;
    endpoints_unique = d.endpoints_unique.1;
    keys_unique = d.keys_unique.1;
  }

  pub Distinct-distinct_identities :
      (es ks : List Text) (xs : List DeviceRegistration)
      → Distinct es ks xs
      → distinct_identities p es ks xs ≡ ok tt
  unfolding distinct_identities
  Distinct-distinct_identities es ks [] d = refl
  Distinct-distinct_identities es ks (x ∷ xs) d = ground (
    arith,
    d.verified.0,
    d.endpoints_unseen.0,
    d.keys_unseen.0,
    Distinct-distinct_identities (endpoint_of x ∷ es) (nkey_of x ∷ ks) xs
        (Distinct-head es ks x xs d),
  )

  -- The conditions of `validate`, each by itself.
  pub record IsValid (s : Snapshot) : Type 0 where
    pub bounded : length s.entries ≤ 256
    pub fits : (bytes : Bytes) × (encode p (audit_log s) ≡ ok bytes)
    pub version_one : s.checkpoint.version ≡ 1
    pub size_counts : s.checkpoint.size ≡ length s.entries
    pub user_signer : starts_with (text "U") s.checkpoint.signer ≡ true
    pub authentic :
        (message : Bytes) × (signing_bytes p s.checkpoint ≡ ok message)
        × (p.nkey_verify s.checkpoint.signer message s.checkpoint.signature ≡ true)
    pub root_matches : root p s.entries ≡ ok s.checkpoint.root
    pub distinct : Distinct [] [] s.entries

  pub validate-IsValid : (s : Snapshot) → validate p s ≡ ok tt → IsValid s
  unfolding validate
  validate-IsValid s h = record {
    bounded = ground arith;
    fits = ground arith;
    version_one = ground arith;
    size_counts = ground arith;
    user_signer = ground arith;
    authentic = ground arith;
    root_matches = ground arith;
    distinct = distinct_identities-Distinct [] [] s.entries (ground arith);
  }

  pub IsValid-validate : (s : Snapshot) → IsValid s → validate p s ≡ ok tt
  unfolding validate
  IsValid-validate s v = ground (
    arith,
    v.fits,
    v.authentic,
    v.root_matches,
    Distinct-distinct_identities [] [] s.entries v.distinct,
  )

  -- `validate` accepts a snapshot exactly when it is valid.
  pub validate_iff : (s : Snapshot) → (validate p s ≡ ok tt) ↔ IsValid s
  validate_iff s = (validate-IsValid s, IsValid-validate s)

  pub validate-signed :
      (entries : List DeviceRegistration) (pair : KeyPair) (s : Snapshot)
      → signed p entries pair ≡ ok s
      → (validate p s ≡ ok tt) × (s.entries ≡ entries) × (s.checkpoint.signer ≡ pair.public_key)
  unfolding signed
  validate-signed entries pair s h = ground arith
