-- ===== src/Capacity/Ranges.antt =====
-- What a validated policy guarantees to the arithmetic that uses it.
use epochgrid.Base.{
  ℕ, ◌+◌, ◌*◌, ◌≤◌, ◌<◌, Bool, ok, ◌≡◌, refl, ℕ_discrete, arith, u64_max, if◌then◌else◌, ◌↔◌,
}
use epochgrid.Wire.{max_wire}
use epochgrid.Capacity.Policy.{Capacity, default, validate, check_database}

pub default-valid : validate default ≡ ok tt
unfolding validate default ℕ_discrete
default-valid = refl

pub record InRange (c : Capacity) : Type 0 where
  pub users : (0 < c.retained_users) × (c.retained_users ≤ 32)
  pub devices : (0 < c.retained_devices) × (c.retained_devices ≤ 32)
  pub per_user : (0 < c.devices_per_user) × (c.devices_per_user ≤ c.retained_devices)
  pub groups : (0 < c.retained_groups) × (c.retained_groups ≤ 128)
  pub messages : (0 < c.pending_messages) × (c.pending_messages ≤ 4096)
  pub bytes : (0 < c.pending_bytes) × (c.pending_bytes ≤ 67108864)
  pub reserve : (0 < c.recovery_bytes) × (c.recovery_bytes < c.database_bytes)
  pub database : c.database_bytes ≤ 17179869184
  pub rate : (0 < c.requests_per_second) × (c.requests_per_second ≤ 1024)
  pub burst : (0 < c.request_burst) × (c.request_burst ≤ 1024)

-- A validated policy has every budget in its range; so the `u64` subtraction of the recovery reserve
-- and the sums with the outbox reserve do not overflow.
pub validate-InRange :
    (c : Capacity)
    → validate c ≡ ok tt
    → InRange c
      × (c.recovery_bytes ≤ c.database_bytes)
      × (c.pending_bytes + 32 * max_wire ≤ u64_max)
unfolding validate
validate-InRange c h = ground arith

-- The check passes exactly when the pages fit what the policy leaves: all of the budget to recovery
-- work, and the budget less the reserve to any other.
pub check_database_iff :
    (c : Capacity) (reserve : Bool) (pages size : ℕ)
    → validate c ≡ ok tt
    → (check_database c reserve pages size ≡ ok tt)
      ↔ (pages * size + (if reserve then 0 else c.recovery_bytes) ≤ c.database_bytes)
unfolding check_database
check_database_iff c reserve pages size h =
    let r = (validate-InRange c h).0 in (λ e. ground (arith, r), λ e. ground (arith, r))
