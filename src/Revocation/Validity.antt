-- ===== src/Revocation/Validity.antt =====
-- What `RevocationLog::validate` accepts.
use epochgrid.Base.{
  List, [], ◌∷◌, ◌++◌, map, length, any, ◌==◌, nat_eq, bytes_eq, Bool, true, false, ◌||◌, Text,
  Bytes, All, Unique, ok, ◌≡◌, ◌≢◌, ◌≤◌, ◌⊎◌, inl, inr, arith, any-split, Bool-cases, i64_max,
  subst, append_assoc,
}
use epochgrid.Wire.{
  DeviceRegistration, RevokeRequest, Revocation, RevocationLog, Snapshot, Primitives,
}
use epochgrid.Revocation.Requests.{is_author, is_endpoint, request_bytes, validate_request}
use epochgrid.Revocation.Logs.{root, checkpoint_bytes, validate, validate_entries}
use epochgrid.Transparency

-- A registration of the log with a property.
pub record Among (P : DeviceRegistration → Type 0) (registrations : Snapshot) : Type 0 where
  pub before : List DeviceRegistration
  pub it : DeviceRegistration
  pub after : List DeviceRegistration
  pub stands : registrations.entries ≡ before ++ it ∷ after
  pub holds : P it

-- An entry that may follow `previous`: its device is registered, its author is the operator or a device of
-- the same user that was not revoked before, and the device was not revoked before.
pub record Admitted (p : Primitives) (registrations : Snapshot) (previous : List Revocation)
    (entry : Revocation) : Type 0 where
  pub registered :
      Among
        (λ d.
          (d.payload.user_id ≡ entry.request.user)
          × (d.payload.device_id ≡ entry.request.device)
          × (d.payload.nats_public_key ≡ entry.request.nkey))
        registrations
  pub authentic :
      (message : Bytes) × (request_bytes p entry.request ≡ ok message)
      × (p.nkey_verify entry.request.author message entry.request.signature ≡ true)
  pub author_active : All (λ r. r.request.nkey ≢ entry.request.author) previous
  pub authority :
      (entry.request.author ≡ registrations.checkpoint.signer)
      ⊎ Among
          (λ d.
            (d.payload.nats_public_key ≡ entry.request.author)
            × (d.payload.user_id ≡ entry.request.user))
          registrations
  pub first : All (λ r. r.request.nkey ≢ entry.request.nkey) previous
  pub cutoff : entry.chat_cutoff ≤ i64_max

-- The entries in their order, each admitted behind those before it.
abbrev pub AllAdmitted : Primitives → Snapshot → List Revocation → List Revocation → Type 0
AllAdmitted p registrations previous [] = Unit
AllAdmitted p registrations previous (entry ∷ rest) =
    Admitted p registrations previous entry
    × AllAdmitted p registrations (previous ++ entry ∷ []) rest

among :
    (P : DeviceRegistration → Type 0) (registrations : Snapshot) (test : DeviceRegistration → Bool)
    → ((d : DeviceRegistration) → test d ≡ true → P d)
    → any test registrations.entries ≡ true
    → Among P registrations
among P registrations test sound h =
    let (before, d, after, q, t) = any-split test registrations.entries h in
    record { before = before; it = d; after = after; stands = q; holds = sound d t }

module _ (p : Primitives) (registrations : Snapshot) where
  authority_cases :
      (r : RevokeRequest)
      → (r.author == registrations.checkpoint.signer || any (is_author r) registrations.entries)
        ≡ true
      → (r.author ≡ registrations.checkpoint.signer)
        ⊎ Among
            (λ d. (d.payload.nats_public_key ≡ r.author) × (d.payload.user_id ≡ r.user))
            registrations
  authority_cases r h = elim (Bool-cases (r.author == registrations.checkpoint.signer)) [
    | inl e ↦ inl (ground arith)
    | inr e ↦
        inr
          (among _ registrations (is_author r) (λ d t. (ground arith, ground arith)) (ground arith))
  ]

  endpoint_cases :
      (r : RevokeRequest)
      → any (is_endpoint r) registrations.entries ≡ true
      → Among
          (λ d.
            (d.payload.user_id ≡ r.user)
            × (d.payload.device_id ≡ r.device)
            × (d.payload.nats_public_key ≡ r.nkey))
          registrations
  endpoint_cases r h =
      among _ registrations (is_endpoint r) (λ d t. (ground arith, ground arith, ground arith)) h

  none_among :
      (key : Text) (previous : List Revocation)
      → any (λ r. r.request.nkey == key) previous ≡ false
      → All (λ r. r.request.nkey ≢ key) previous
  none_among key [] h = tt
  none_among key (r ∷ previous) h = (λ q. ground arith, none_among key previous (ground arith))

  entry_step :
      (previous : List Revocation) (entry : Revocation) (rest : List Revocation)
      → validate_entries p registrations previous (entry ∷ rest) ≡ ok tt
      → Admitted p registrations previous entry
        × (validate_entries p registrations (previous ++ entry ∷ []) rest ≡ ok tt)
  unfolding validate_entries validate_request
  entry_step previous entry rest h = (
    record {
      registered = endpoint_cases entry.request (ground arith);
      authentic = ground arith;
      author_active = none_among entry.request.author previous (ground arith);
      authority = authority_cases entry.request (ground arith);
      first = none_among entry.request.nkey previous (ground arith);
      cutoff = ground arith;
    },
    ground arith,
  )

  pub validate_entries-AllAdmitted :
      (previous entries : List Revocation)
      → validate_entries p registrations previous entries ≡ ok tt
      → AllAdmitted p registrations previous entries
  validate_entries-AllAdmitted previous [] h = tt
  validate_entries-AllAdmitted previous (entry ∷ rest) h =
      let (a, k) = entry_step previous entry rest h in
      (a, validate_entries-AllAdmitted (previous ++ entry ∷ []) rest k)

All-middle :
    (P : Revocation → Type 0) (a : List Revocation) (x : Revocation) (b : List Revocation)
    → All P (a ++ x ∷ b)
    → P x
All-middle P [] x b h = h.0
All-middle P (y ∷ a) x b h = All-middle P a x b h.1

pub nkey_of : Revocation → Text
nkey_of r = r.request.nkey

module _ (p : Primitives) (registrations : Snapshot) where
  later_ne :
      (a : List Revocation) (x : Revocation) (b rest : List Revocation)
      → AllAdmitted p registrations (a ++ x ∷ b) rest
      → All (λ k. nkey_of x ≢ k) (map nkey_of rest)
  unfolding nkey_of
  later_ne a x b [] h = tt
  later_ne a x b (e ∷ rest) h = (
    All-middle (λ r. r.request.nkey ≢ e.request.nkey) a x b h.0.first,
    later_ne a x (b ++ e ∷ []) rest (
        subst (λ (l : List Revocation). AllAdmitted p registrations l rest)
          (append_assoc a (x ∷ b) (e ∷ [])) h.1),
  )

  AllAdmitted-Unique :
      (previous entries : List Revocation)
      → AllAdmitted p registrations previous entries
      → Unique (map nkey_of entries)
  AllAdmitted-Unique previous [] h = tt
  AllAdmitted-Unique previous (e ∷ rest) h =
      (later_ne previous e [] rest h.1, AllAdmitted-Unique (previous ++ e ∷ []) rest h.1)

  pub record IsValid (log : RevocationLog) : Type 0 where
    pub registry : Transparency.validate p registrations ≡ ok tt
    pub bounded : length log.entries ≤ 256
    pub size_counts : log.checkpoint.size ≡ length log.entries
    pub same_signer : log.checkpoint.signer ≡ registrations.checkpoint.signer
    pub authentic :
        (message : Bytes) × (checkpoint_bytes p log.checkpoint ≡ ok message)
        × (p.nkey_verify log.checkpoint.signer message log.checkpoint.signature ≡ true)
    pub root_matches : root p log.entries ≡ ok log.checkpoint.root
    pub admitted : AllAdmitted p registrations [] log.entries
    pub unique : Unique (map nkey_of log.entries)

  -- A log that `validate` accepts belongs to the directory's signer and is bounded and authentic; each
  -- of its entries is admitted behind those before it, so a device that was revoked authorises no
  -- later entry, and no device is revoked twice.
  pub validate-IsValid : (log : RevocationLog) → validate p log registrations ≡ ok tt → IsValid log
  unfolding validate
  validate-IsValid log h =
      let all = validate_entries-AllAdmitted p registrations [] log.entries (ground arith) in
      record {
        registry = ground arith;
        bounded = ground arith;
        size_counts = ground arith;
        same_signer = ground arith;
        authentic = ground arith;
        root_matches = ground arith;
        admitted = all;
        unique = AllAdmitted-Unique [] log.entries all;
      }
