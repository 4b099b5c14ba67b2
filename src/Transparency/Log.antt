-- ===== src/Transparency/Log.antt =====
-- `append` of transparency.rs: a registration is published by one compare-and-swap on the key
-- `snapshot`. `attempt` is the body of the loop between the read and the update.
pub mod Writers
pub mod Pushes
pub mod Append
use epochgrid.Base.{
  ℕ, zero, suc, List, [], ◌∷◌, ◌++◌, find, ◌==◌, nat_eq, bytes_eq, Bool, true, false, Text, Bytes,
  Option, none, some, Result, ok, err, context, ensure, ◌>>=◌, ◌>>◌, if◌then◌else◌,
}
use epochgrid.Wire.{DeviceRegistration, Snapshot, Primitives, KeyPair, audit_log, encode}
use epochgrid.Identity.{key, verify}
use epochgrid.Transparency.Snapshots.{decode, signed, registration_eq}

pub data Attempt : Type 0 where
  already : Attempt
  propose : Bytes → Attempt

-- The NATS key-value bucket in a world `W`: the current value of `snapshot` with its revision, and an
-- update that is refused at another revision. Both are calls on the network, which can fail.
pub record Bucket (W : Type 0) : Type 0 where
  pub entry : W → Result (Option (Bytes × ℕ)) × W
  pub update : Bytes → ℕ → W → Bool × W

module _ (p : Primitives) (pair : KeyPair) where
  unfoldable pub propose_entries : List DeviceRegistration → Result Attempt
  propose_entries entries = do
    snapshot ← signed p entries pair
    bytes ← encode p (audit_log snapshot)
    ok (propose bytes)

module _ (p : Primitives) (pair : KeyPair) (registration : DeviceRegistration) where
  unfoldable pub attempt : Bytes → Result Attempt
  unfolding propose_entries
  attempt value = do
    snapshot ← decode p value
    ensure (snapshot.checkpoint.signer == pair.public_key) "directory signer changed"
    elim (find (λ r. key r.payload == key registration.payload) snapshot.entries) [
      | some existing ↦ do
        ensure (existing == registration) "immutable transparency registration conflict"
        ok already
      | none ↦ propose_entries p pair (snapshot.entries ++ registration ∷ [])
    ]

  module _ {W : Type 0} (bucket : Bucket W) where
    -- One round: `none` asks for another.
    pub try_update : Attempt → ℕ → W → Option (Result (Unit {0})) × W
    try_update already revision w = (some (ok tt), w)
    try_update (propose bytes) revision w =
        let (confirmed, w') = bucket.update bytes revision w in
        (if confirmed then some (ok tt) else none, w')

    pub after_read : Result (Option (Bytes × ℕ)) → W → Option (Result (Unit {0})) × W
    unfolding try_update
    after_read (err e) w = (some (err e), w)
    after_read (ok none) w = (some (err "transparency log missing; restart service"), w)
    after_read (ok (some (value, revision))) w = elim (attempt value) [
      | err e ↦ (some (err e), w)
      | ok a ↦ try_update a revision w
    ]

    unfoldable pub round : W → Option (Result (Unit {0})) × W
    unfolding after_read
    round w = let (answer, w') = bucket.entry w in after_read answer w'

    pub rounds : ℕ → W → Result (Unit {0}) × W
    rounds zero w = (err "transparency append could not be confirmed; retry registration", w)
    rounds (suc n) w =
        let (result, w') = round w in elim result [ some r ↦ (r, w') | none ↦ rounds n w' ]

    unfoldable pub append : W → Result (Unit {0}) × W
    unfolding rounds
    append w = elim (verify p registration) [ err e ↦ (err e, w) | ok _ ↦ rounds 4 w ]
