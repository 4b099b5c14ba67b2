-- ===== src/Trust/Table.antt =====
-- The tables `device_trust`, `transparency_state` and `trust_alert` of trust.rs. A checkpoint stands
-- as the value that its row encodes.
use epochgrid.Base.{
  List, [], ◌∷◌, find, ◌==◌, bytes_eq, Eq, ◌&&◌, Bool, Text, Option, if◌then◌else◌,
}
use epochgrid.Wire.{Checkpoint}

pub data TrustState : Type 0 where
  unverified verified changed : TrustState

instance abbrev pub trust_state_eq : Eq TrustState
trust_state_eq = record { dec = hlevel }

pub record DeviceTrust : Type 0 where
  pub user : Text
  pub device : Text
  pub fingerprint : Text
  pub latest_fingerprint : Text
  pub state : TrustState

pub record Directory : Type 0 where
  pub signer : Text
  pub checkpoint : Option Checkpoint

pub record Tables : Type 0 where
  pub devices : List DeviceTrust
  pub directory : Option Directory
  pub alert : Option Text

-- `WHERE user=?1 AND device=?2`
abbrev pub is_row : Text → Text → DeviceTrust → Bool
is_row user device r = r.user == user && r.device == device

unfoldable pub device_trust : Text → Text → List DeviceTrust → Option DeviceTrust
device_trust user device rows = find (is_row user device) rows

-- `UPDATE device_trust SET .. WHERE user=?1 AND device=?2`
unfoldable pub update_rows :
    Text → Text → (DeviceTrust → DeviceTrust) → List DeviceTrust → List DeviceTrust
update_rows user device f [] = []
update_rows user device f (r ∷ rows) =
    (if is_row user device r then f r else r) ∷ update_rows user device f rows
