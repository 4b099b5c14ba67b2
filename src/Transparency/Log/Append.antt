-- ===== src/Transparency/Log/Append.antt =====
-- `append` of transparency.rs over a bucket that keeps its contract, whatever other writers do
-- during its calls.
use epochgrid.Base.{ℕ, List, ◌∷◌, ◌++◌, bytes_eq, Bytes, Option, some, Result, ok, ◌≡◌}
use epochgrid.Wire.{DeviceRegistration, Snapshot, Primitives, KeyPair, audit_log, encode}
use epochgrid.Wire
use epochgrid.Transparency.Snapshots.{decode}
use epochgrid.Transparency.Log.{Bucket}
use epochgrid.Transparency.Log.Writers.{Writes, Newest}
use epochgrid.Transparency.Log.Pushes.{Pushes, values, Contract}

-- The newest value holds a log in which the registration stands.
pub record Registered (p : Primitives) (r : DeviceRegistration) (bytes : Bytes) : Type 0 where
  pub snapshot : Snapshot
  pub holds : decode p bytes ≡ ok snapshot
  pub before : List DeviceRegistration
  pub after : List DeviceRegistration
  pub stands : snapshot.entries ≡ before ++ r ∷ after

module _ (p : Primitives) (pair : KeyPair) (r : DeviceRegistration) where
  module _
      (law : (s : Snapshot) (bytes : Bytes)
        → encode p (audit_log s) ≡ ok bytes
        → Wire.decode p bytes ≡ ok (audit_log s))
      {W : Type 0} (bucket : Bucket W) (history : W → List (ℕ × Bytes))
      (keeps : Contract p pair bucket history) where
    record Outcome (w : W) (result : Option (Result (Unit {0}))) (w' : W) : Type 0 where
      grows : Writes p pair (values (history w)) (values (history w'))
      confirmed : result ≡ some (ok tt) → Newest (Registered p r) (values (history w'))

    -- What `append` and its loop leave behind.
    pub record Appended (w : W) (result : Result (Unit {0})) (w' : W) : Type 0 where
      pub grows : Writes p pair (values (history w)) (values (history w'))
      pub confirmed : result ≡ ok tt → Newest (Registered p r) (values (history w'))
