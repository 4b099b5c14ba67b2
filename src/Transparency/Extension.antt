-- ===== src/Transparency/Extension.antt =====
-- The log behind `Snapshot::extends` of transparency.rs.
use epochgrid.Base.{
  ℕ, List, [], Bytes, some, ◌++◌, length, take, ok, ◌≡◌, ◌⊎◌, arith, ◌≤◌, length-take,
  length-append, take-append_self, subst,
}
use epochgrid.Wire.{DeviceRegistration, Checkpoint, Snapshot, Primitives, register, version}
use epochgrid.Wire.RoundTrip.{decode-encode}
use epochgrid.Merkle.Binding.{Collision}
use epochgrid.Merkle.Entries.{Distinguishes, root_entries}
use epochgrid.Transparency.Snapshots.{leaf, root, extends}
use epochgrid.Transparency.Validity.{IsValid}

module _ (p : Primitives) where
  pub record Extends (s : Snapshot) (previous : Checkpoint) : Type 0 where
    pub same_signer : s.checkpoint.signer ≡ previous.signer
    pub long_enough : previous.size ≤ length s.entries
    pub same_root : root p (take previous.size s.entries) ≡ ok previous.root

  pub extends-Extends :
      (s : Snapshot) (previous : Checkpoint) → extends p s previous ≡ ok tt → Extends s previous
  unfolding extends
  extends-Extends s previous h = record {
    same_signer = ground arith;
    long_enough = ground arith;
    same_root = ground arith;
  }

  -- postcard takes back what it writes of a registration.
  abbrev pub TakesBack : Type 0
  TakesBack =
      (r : DeviceRegistration) (written : Bytes)
      → p.envelope_bytes (record { version = version; body = register r }) ≡ some written
      → p.take_envelope written ≡ some (record { version = version; body = register r }, [])

  leaf-Distinguishes : TakesBack → Distinguishes p (leaf p)
  unfolding leaf
  leaf-Distinguishes law a b bytes h k =
      let one = decode-encode p (register a) bytes (law a) h in
      let other = decode-encode p (register b) bytes (law b) k in
      let same : register a ≡ register b = cc in cc

  -- Where postcard takes back what it writes of a registration: a snapshot that passes `extends`
  -- against the checkpoint of a valid snapshot has the same signer and, unless a collision of SHA-256
  -- is at hand, begins with that snapshot's entries: nothing was dropped, reordered or rewritten.
  pub extends_prefix :
      TakesBack
      → (s old : Snapshot) → IsValid p old
      → extends p s old.checkpoint ≡ ok tt
      → (s.checkpoint.signer ≡ old.checkpoint.signer)
        × (Collision p ⊎ (take (length old.entries) s.entries ≡ old.entries))
  unfolding root
  extends_prefix law s old v h =
      let e = extends-Extends s old.checkpoint h in
      let n = length old.entries in
      let same =
        subst (λ (m : ℕ). root p (take m s.entries) ≡ ok old.checkpoint.root) v.size_counts
          e.same_root in
      let long : length (take n s.entries) ≡ n =
        omega (arith, e.long_enough, v.size_counts, length-take n s.entries) in
      (
        e.same_signer,
        root_entries p (leaf p) (leaf-Distinguishes law) (take n s.entries) old.entries
            old.checkpoint.root long same v.root_matches,
      )

  -- Conversely, whatever is appended to a valid log by the same signer passes `extends`.
  pub extends-append :
      (s old : Snapshot) (more : List DeviceRegistration)
      → IsValid p old
      → s.checkpoint.signer ≡ old.checkpoint.signer
      → s.entries ≡ old.entries ++ more
      → extends p s old.checkpoint ≡ ok tt
  unfolding extends
  extends-append s old more v signer e =
      let cut : take old.checkpoint.size s.entries ≡ old.entries =
        rw (e, v.size_counts) (take-append_self old.entries more) in
      let len : old.checkpoint.size ≤ length s.entries =
        rw e (omega (arith, v.size_counts, length-append old.entries more)) in
      ground (arith, signer, len, cut, v.root_matches)
