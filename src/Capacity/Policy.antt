-- ===== src/Capacity/Policy.antt =====
-- `Capacity` of capacity.rs.
use epochgrid.Base.{
  ℕ, ◌+◌, ◌-◌, ◌*◌, List, [], ◌∷◌, leb, ltb, ◌==◌, nat_eq, Bool, ◌&&◌, Result, ok, ensure, ◌>>◌,
  if◌then◌else◌, u64_max,
}
use epochgrid.Wire.{max_wire}

pub record Capacity : Type 0 where
  pub version : ℕ
  pub retained_users : ℕ
  pub retained_devices : ℕ
  pub devices_per_user : ℕ
  pub retained_tokens : ℕ
  pub retained_groups : ℕ
  pub membership_edges : ℕ
  pub groups_per_device : ℕ
  pub pending_messages : ℕ
  pub pending_bytes : ℕ
  pub database_bytes : ℕ
  pub recovery_bytes : ℕ
  pub requests_per_second : ℕ
  pub request_burst : ℕ
  pub chat_bytes : ℕ
  pub mailbox_bytes : ℕ
  pub directory_bytes : ℕ
  pub channels_bytes : ℕ
  pub transparency_bytes : ℕ

abbrev mib : ℕ
mib = 1048576

unfoldable pub default : Capacity
default = record {
  version = 1;
  retained_users = 32;
  retained_devices = 32;
  devices_per_user = 8;
  retained_tokens = 256;
  retained_groups = 32;
  membership_edges = 512;
  groups_per_device = 16;
  pending_messages = 256;
  pending_bytes = 4 * mib;
  database_bytes = 256 * mib;
  recovery_bytes = 16 * mib;
  requests_per_second = 32;
  request_burst = 64;
  chat_bytes = 64 * mib;
  mailbox_bytes = 16 * mib;
  directory_bytes = mib;
  channels_bytes = mib;
  transparency_bytes = mib;
}

-- The two loops of `validate`, over values with their ceilings and over broker budgets.
unfoldable pub in_range : List (ℕ × ℕ) → Result (Unit {0})
in_range [] = ok tt
in_range ((value, ceiling) ∷ rest) = do
  ensure (ltb 0 value && leb value ceiling) "capacity range invalid"
  in_range rest

unfoldable pub in_broker_range : List ℕ → Result (Unit {0})
in_broker_range [] = ok tt
in_broker_range (bytes ∷ rest) = do
  ensure (leb 262144 bytes && leb bytes (1024 * 1024 * mib)) "broker byte budget out of range"
  in_broker_range rest

abbrev pub ceilings : Capacity → List (ℕ × ℕ)
ceilings c =
    (c.retained_users, 32)
    ∷ (c.retained_devices, 32)
    ∷ (c.devices_per_user, 32)
    ∷ (c.retained_tokens, 4096)
    ∷ (c.retained_groups, 128)
    ∷ (c.membership_edges, 4096)
    ∷ (c.groups_per_device, 16)
    ∷ (c.pending_messages, 4096)
    ∷ (c.pending_bytes, 64 * mib)
    ∷ (c.database_bytes, 16 * 1024 * mib)
    ∷ (c.recovery_bytes, 1024 * mib)
    ∷ (c.requests_per_second, 1024)
    ∷ (c.request_burst, 1024)
    ∷ []

abbrev pub broker_budgets : Capacity → List ℕ
broker_budgets c =
    c.chat_bytes ∷ c.mailbox_bytes ∷ c.directory_bytes ∷ c.channels_bytes ∷ c.transparency_bytes
    ∷ []

unfoldable pub validate : Capacity → Result (Unit {0})
unfolding in_range in_broker_range
validate c = do
  ensure (c.version == 1) "unsupported capacity version"
  in_range (ceilings c)
  ensure (leb c.devices_per_user c.retained_devices) "device capacity inconsistent"
  ensure (ltb c.recovery_bytes c.database_bytes) "recovery reserve must fit database budget"
  in_broker_range (broker_budgets c)

-- `check_database`, on the page count and page size that SQLite reports. `database_bytes - reserve`
-- is a subtraction of `u64`; `pages.checked_mul(size)` fails past `u64::MAX`.
unfoldable pub check_database : Capacity → Bool → ℕ → ℕ → Result (Unit {0})
check_database c reserve pages size = do
  let limit = c.database_bytes - (if reserve then 0 else c.recovery_bytes)
  ensure (leb (pages * size) u64_max && leb (pages * size) limit)
      "capacity exhausted: database; operator storage increase required"

-- The outbox test of `check_client`: what is retained fits the budget, with a reserve of 32 messages.
unfoldable pub check_usage : Capacity → Bool → ℕ → ℕ → ℕ → Result (Unit {0})
check_usage c reserve groups messages bytes = do
  ensure (leb groups c.retained_groups) "capacity exhausted: local groups"
  let extra : ℕ = if reserve then 32 else 0
  ensure
      (leb messages (c.pending_messages + extra) && leb bytes (c.pending_bytes + extra * max_wire))
      "capacity below retained pending outbox usage"
