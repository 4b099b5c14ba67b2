-- ===== src/Transparency/Log/Writers.antt =====
-- The registration log under any number of concurrent writers. A history holds, newest first, the
-- values that were written under the key; a write is accepted only on the value that it has read.
use epochgrid.Base.{
  List, [], ◌∷◌, ◌++◌, find, ◌==◌, bytes_eq, Bytes, some, none, if◌then◌else◌, >>=-eq-ok, ok, err,
  ◌≡◌, arith, append_assoc, ◌∙◌, ap,
}
use epochgrid.Wire.{DeviceRegistration, Snapshot, Primitives, KeyPair, audit_log, encode}
use epochgrid.Wire
use epochgrid.Identity.{key}
use epochgrid.Transparency.Snapshots.{decode, validate, signed, registration_eq}
use epochgrid.Transparency.Validity.{validate-signed}
use epochgrid.Transparency.Log.{already, propose, attempt, propose_entries}

-- What a writer that proposes `bytes` has read and made.
pub record Proposal (p : Primitives) (pair : KeyPair) (r : DeviceRegistration) (value bytes : Bytes)
    : Type 0 where
  pub old : Snapshot
  pub new : Snapshot
  pub read : decode p value ≡ ok old
  pub own_log : old.checkpoint.signer ≡ pair.public_key
  pub fresh : find (λ e. key e.payload == key r.payload) old.entries ≡ none
  pub valid : validate p new ≡ ok tt
  pub appended : new.entries ≡ old.entries ++ r ∷ []
  pub same_signer : new.checkpoint.signer ≡ old.checkpoint.signer
  pub written : encode p (audit_log new) ≡ ok bytes

module _ (p : Primitives) (pair : KeyPair) where
  propose_cases :
      (entries : List DeviceRegistration) (bytes : Bytes)
      → propose_entries p pair entries ≡ ok (propose bytes)
      → (new : Snapshot) × (signed p entries pair ≡ ok new) × (encode p (audit_log new) ≡ ok bytes)
  unfolding propose_entries
  propose_cases entries bytes h = ground arith

  -- A proposal is the log that was read with the registration at its end, signed by the log's own key.
  pub attempt_propose :
      (r : DeviceRegistration) (value bytes : Bytes)
      → attempt p pair r value ≡ ok (propose bytes)
      → Proposal p pair r value bytes
  unfolding attempt
  attempt_propose r value bytes h =
      let (old, read, rest) = >>=-eq-ok (decode p value) _ h in
      let own : old.checkpoint.signer ≡ pair.public_key = ground arith in
      let fresh : find (λ e. key e.payload == key r.payload) old.entries ≡ none = ground arith in
      let (new, made, written) = propose_cases (old.entries ++ r ∷ []) bytes (ground arith) in
      let (valid, appended, signer) = validate-signed p (old.entries ++ r ∷ []) pair new made in
      record {
        old = old;
        new = new;
        read = read;
        own_log = own;
        fresh = fresh;
        valid = valid;
        appended = appended;
        same_signer = cc;
        written = written;
      }

  -- A registration that is already in the log is confirmed only if it is the same one.
  pub attempt_already :
      (r : DeviceRegistration) (value : Bytes) (old : Snapshot) (e : DeviceRegistration)
      → decode p value ≡ ok old
      → old.checkpoint.signer ≡ pair.public_key
      → find (λ x. key x.payload == key r.payload) old.entries ≡ some e
      → attempt p pair r value
        ≡ (if e == r then ok already else err "immutable transparency registration conflict")
  unfolding attempt
  attempt_already r value old e read own there = ground arith

-- Histories, newest value first.
pub data Write (p : Primitives) (pair : KeyPair) : List Bytes → List Bytes → Type 0 where
  write :
      (r : DeviceRegistration) (value bytes : Bytes) (older : List Bytes)
      → attempt p pair r value ≡ ok (propose bytes)
      → Write p pair (value ∷ older) (bytes ∷ value ∷ older)

pub data Writes (p : Primitives) (pair : KeyPair) (start : List Bytes) : List Bytes → Type 0 where
  here : Writes p pair start start
  next : {h h' : List Bytes} → Writes p pair start h → Write p pair h h' → Writes p pair start h'

-- The value holds a log that begins with these entries.
pub record Begins (p : Primitives) (entries : List DeviceRegistration) (bytes : Bytes)
    : Type 0 where
  pub snapshot : Snapshot
  pub holds : decode p bytes ≡ ok snapshot
  pub rest : List DeviceRegistration
  pub begins : snapshot.entries ≡ entries ++ rest

abbrev pub Newest : (Bytes → Type 0) → List Bytes → Type 0
Newest P [] = ⊥
Newest P (b ∷ bs) = P b

module _ (p : Primitives) (pair : KeyPair)
    (law : (s : Snapshot) (bytes : Bytes)
      → encode p (audit_log s) ≡ ok bytes
      → Wire.decode p bytes ≡ ok (audit_log s)) where
  pub decode_written :
      (s : Snapshot) (bytes : Bytes)
      → encode p (audit_log s) ≡ ok bytes
      → validate p s ≡ ok tt
      → decode p bytes ≡ ok s
  unfolding decode
  decode_written s bytes e v = ground (arith, law s bytes)

  Begins-write :
      (r : DeviceRegistration) (entries : List DeviceRegistration) (value bytes : Bytes)
      → attempt p pair r value ≡ ok (propose bytes)
      → Begins p entries value
      → Begins p entries bytes
  Begins-write r entries value bytes a b =
      let q = attempt_propose p pair r value bytes a in
      let same : q.old ≡ b.snapshot = cc (q.read, b.holds) in
      record {
        snapshot = q.new;
        holds = decode_written q.new bytes q.written q.valid;
        rest = b.rest ++ r ∷ [];
        begins =
            q.appended
            ∙ ap (λ (s : Snapshot). s.entries ++ r ∷ []) same
            ∙ ap (λ (l : List DeviceRegistration). l ++ r ∷ []) b.begins
            ∙ append_assoc entries b.rest (r ∷ []);
      }

  -- Whatever writers do, the newest value is a valid snapshot that begins with the entries of any
  -- value that was the newest before: the log only grows at its end.
  pub Writes-Begins :
      {h h' : List Bytes} (entries : List DeviceRegistration)
      → Newest (Begins p entries) h
      → Writes p pair h h'
      → Newest (Begins p entries) h'
  Writes-Begins entries b here = b
  Writes-Begins entries b (next w (write r value bytes older a)) =
      Begins-write r entries value bytes a (Writes-Begins entries b w)
