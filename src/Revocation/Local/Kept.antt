-- ===== src/Revocation/Local/Kept.antt =====
-- The revoked devices of a client before and after `accept_revocations` of revocation.rs.
use epochgrid.Base.{
  ℕ, Bytes, List, [], ◌∷◌, ◌++◌, length, take, bytes_eq, true, Text, All, Option, some, ok, err,
  ◌≡◌, sym, ap, ◌∙◌, ◌⊎◌, inl, inr, String, arith, any-append, any-snoc, append-nil, append_assoc,
  Bool-cases, Result-cases, >>=-eq-ok, length-take, subst, ◌≤◌,
}
use epochgrid.Wire.{Revocation, RevocationLog, Checkpoint, Snapshot, Primitives}
use epochgrid.Capacity.{Capacity}
use epochgrid.Store.{Sqlite, transaction_atomic}
use epochgrid.Merkle.Binding.{Collision}
use epochgrid.Merkle.Entries.{Distinguishes, root_entries}
use epochgrid.Revocation.Logs.{root, leaf, validate}
use epochgrid.Revocation.Validity.{IsValid}
use epochgrid.Revocation.Local.{
  RevokedDevice, Revoked, is_revoked, insert_or_ignore, row, record_entries, extends, accept_inner,
  accept_revocations,
}

-- The rows of `devices` are the first of `devices'`, unchanged.
unfoldable pub Kept : List RevokedDevice → List RevokedDevice → Type 0
Kept devices devices' = (more : List RevokedDevice) × (devices' ≡ devices ++ more)

Kept-trans : (a b c : List RevokedDevice) → Kept a b → Kept b c → Kept a c
unfolding Kept
Kept-trans a b c (m, e) (n, f) =
    (m ++ n, f ∙ ap (λ (l : List RevokedDevice). l ++ n) e ∙ append_assoc a m n)

is_revoked-Kept :
    (a b : List RevokedDevice) (k : Text) → Kept a b → is_revoked a k ≡ true → is_revoked b k ≡ true
unfolding Kept is_revoked
is_revoked-Kept a b k (m, e) h = rw e (any-append _ a m h)

insert-Kept :
    (d : RevokedDevice) (ds : List RevokedDevice)
    → Kept ds (insert_or_ignore d ds) × (is_revoked (insert_or_ignore d ds) d.nkey ≡ true)
unfolding Kept insert_or_ignore
insert-Kept d ds = elim (Bool-cases (is_revoked ds d.nkey)) [
  | inl e ↦ (([], rw e (sym (append-nil ds))), rw e e)
  | inr e ↦ ((d ∷ [], rw e), rw e (unfold is_revoked in any-snoc _ ds d (ground arith)))
]

module _ (p : Primitives) where
  row-nkey :
      (registrations : Snapshot) (r : Revocation) (d : RevokedDevice)
      → row p registrations r ≡ ok d
      → d.nkey ≡ r.request.nkey
  unfolding row
  row-nkey registrations r d h = ground arith

  record_entries-Kept :
      (registrations : Snapshot) (entries : List Revocation) (ds ds' : List RevokedDevice)
      → record_entries p registrations entries ds ≡ ok ds'
      → Kept ds ds' × All (λ r. is_revoked ds' r.request.nkey ≡ true) entries
  unfolding record_entries
  record_entries-Kept registrations [] ds ds' h =
      (unfold Kept in ([], ground (arith, append-nil ds)), tt)
  record_entries-Kept registrations (r ∷ rest) ds ds' h =
      let (d, e, h') = >>=-eq-ok (row p registrations r) _ h in
      let (kept, all) = record_entries-Kept registrations rest (insert_or_ignore d ds) ds' h' in
      let (first, there) = insert-Kept d ds in
      (
        Kept-trans ds (insert_or_ignore d ds) ds' first kept,
        (
          subst (λ (k : Text). is_revoked ds' k ≡ true) (row-nkey registrations r d e)
              (is_revoked-Kept (insert_or_ignore d ds) ds' d.nkey kept there),
          all,
        ),
      )

  pub record Accepted (log : RevocationLog) (db db' : Revoked) : Type 0 where
    pub kept : Kept db.devices db'.devices
    pub covered : All (λ r. is_revoked db'.devices r.request.nkey ≡ true) log.entries
    pub pinned : db'.checkpoint ≡ some log.checkpoint
    pub extended : extends p log db.checkpoint ≡ ok tt

  accept_inner-Accepted :
      (log : RevocationLog) (registrations : Snapshot) (db db' : Revoked)
      → accept_inner p log registrations db ≡ ok (tt, db')
      → Accepted log db db'
  unfolding accept_inner
  accept_inner-Accepted log registrations db db' h =
      let (u, e, h1) = >>=-eq-ok (extends p log db.checkpoint) _ h in
      let (ds, r, h2) = >>=-eq-ok (record_entries p registrations log.entries db.devices) _ h1 in
      let all = record_entries-Kept registrations log.entries db.devices ds r in
      let same : db' ≡ record { devices = ds; checkpoint = some log.checkpoint } = ground arith in
      record { kept = rw same all.0; covered = rw same all.1; pinned = rw same; extended = e }

  module _ (sql : Sqlite Revoked) (capacity : Capacity) where
    -- `accept_revocations` either fails and leaves the tables as they were, or succeeds on a valid log:
    -- then every device that was revoked before is still revoked by the same row, every device of the
    -- log is revoked, the log extends the checkpoint that was stored, and its own is stored.
    pub accept_revocations_lem :
        (log : RevocationLog) (registrations : Snapshot) (db : Revoked)
        → ((e : String) × (accept_revocations p sql capacity log registrations db ≡ (err e, db)))
          ⊎ (record {
            db' : Revoked;
            result : accept_revocations p sql capacity log registrations db ≡ (ok tt, db');
            valid : validate p log registrations ≡ ok tt;
            accepted : Accepted log db db';
          })
    unfolding accept_revocations
    accept_revocations_lem log registrations db =
        elim (Result-cases (validate p log registrations)) [
          | inr (e, h) ↦ inl (e, rw (h, accept_revocations))
          | inl (u, h) ↦
              elim (transaction_atomic sql capacity true (accept_inner p log registrations) db) [
                | inr (e, k) ↦ inl (e, ground (arith, k))
                | inl t ↦ inr (record {
                  db' = t.after;
                  result = ground (arith, t.result);
                  valid = h;
                  accepted = accept_inner-Accepted log registrations db t.after (t.acted);
                })
              ]
        ]

  extends_cases :
      (log : RevocationLog) (previous : Checkpoint)
      → extends p log (some previous) ≡ ok tt
      → (previous.signer ≡ log.checkpoint.signer)
        × (previous.size ≤ length log.entries)
        × (root p (take previous.size log.entries) ≡ ok previous.root)
  unfolding extends
  extends_cases log previous h = (ground arith, ground arith, ground arith)

  -- postcard writes different revocations differently.
  abbrev pub WritesApart : Type 0
  WritesApart =
      (a b : Revocation) (bytes : Bytes)
      → p.revocation_bytes a ≡ some bytes
      → p.revocation_bytes b ≡ some bytes
      → a ≡ b

  leaf-Distinguishes : WritesApart → Distinguishes p (leaf p)
  leaf-Distinguishes law a b bytes h k = law a b bytes (ground arith) (ground arith)

  Accepted-prefix :
      WritesApart
      → (old : RevocationLog) (earlier : Snapshot) (log : RevocationLog) (db db' : Revoked)
      → IsValid p earlier old
      → db.checkpoint ≡ some old.checkpoint
      → Accepted log db db'
      → Collision p ⊎ (take (length old.entries) log.entries ≡ old.entries)
  unfolding root
  Accepted-prefix law old earlier log db db' v c a =
      let (signer, long, same) =
        extends_cases log old.checkpoint
          (subst (λ (o : Option Checkpoint). extends p log o ≡ ok tt) c a.extended) in
      let n = length old.entries in
      let same' =
        subst (λ (m : ℕ). root p (take m log.entries) ≡ ok old.checkpoint.root) v.size_counts
          same in
      let len : length (take n log.entries) ≡ n =
        omega (arith, long, v.size_counts, length-take n log.entries) in
      root_entries p (leaf p) (leaf-Distinguishes law) (take n log.entries) old.entries
        old.checkpoint.root len same' v.root_matches

  -- Where postcard writes different revocations differently: a client that has stored the checkpoint of
  -- a valid log accepts a later log only if it begins with the entries of that log, unless a collision
  -- of SHA-256 is at hand.
  pub accept_revocations-prefix :
      (sql : Sqlite Revoked) (capacity : Capacity)
      → WritesApart
      → (old log : RevocationLog) (earlier registrations : Snapshot) (db db' : Revoked)
      → IsValid p earlier old
      → db.checkpoint ≡ some old.checkpoint
      → accept_revocations p sql capacity log registrations db ≡ (ok tt, db')
      → Collision p ⊎ (take (length old.entries) log.entries ≡ old.entries)
  accept_revocations-prefix sql capacity law old log earlier registrations db db' v c h =
      elim (accept_revocations_lem sql capacity log registrations db) [
        | inl (e, k) ↦ absurd (ground (arith, h, k))
        | inr x ↦ Accepted-prefix law old earlier log db x.db' v c x.accepted
      ]
