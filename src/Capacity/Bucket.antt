-- ===== src/Capacity/Bucket.antt =====
-- `RateLimit` of capacity.rs. An `Instant` is a number of nanoseconds; tokens are counted in billionths.
use epochgrid.Base.{
  ℕ, ◌+◌, ◌-◌, ◌*◌, min, max, ltb, Bool, true, false, List, [], ◌∷◌, if◌then◌else◌, u64_max,
}

abbrev pub billion : ℕ
billion = 1000000000

abbrev pub u128_max : ℕ
u128_max = 0xffffffffffffffffffffffffffffffff

pub record RateLimit : Type 0 where
  pub tokens : ℕ
  pub last : ℕ
  pub rate : ℕ
  pub burst : ℕ

unfoldable pub new : ℕ → ℕ → ℕ → RateLimit
new rate burst now = record {
  tokens = burst * billion;
  last = now;
  rate = rate;
  burst = burst * billion;
}

-- `saturating_duration_since`, `saturating_mul` on `u128` and `saturating_add` on `u64`.
unfoldable pub refill : RateLimit → ℕ → RateLimit
refill r now =
    let credit = min (min u128_max ((now - r.last) * r.rate)) r.burst in
    record r { tokens = min (min u64_max (r.tokens + credit)) r.burst; last = max now r.last }

unfoldable pub allow : RateLimit → ℕ → RateLimit × Bool
allow r now =
    let filled = refill r now in
    if ltb filled.tokens billion
    then (filled, false)
    else (record filled { tokens = filled.tokens - billion }, true)

-- The calls of a sequence of times, and how many were allowed.
unfoldable pub run : RateLimit → List ℕ → RateLimit × ℕ
run r [] = (r, 0)
run r (now ∷ later) =
    let (r', allowed) = allow r now in
    let (end, count) = run r' later in (end, (if allowed then 1 else 0) + count)
