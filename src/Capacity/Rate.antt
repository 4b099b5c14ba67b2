-- ===== src/Capacity/Rate.antt =====
-- How much the token bucket lets through.
use epochgrid.Base.{
  ℕ, ◌+◌, ◌-◌, ◌*◌, ◌≤◌, ◌<◌, true, false, List, [], ◌∷◌, ◌≡◌, arith, if◌then◌else◌, ltb, u64_max,
}
use epochgrid.Capacity.Bucket.{RateLimit, billion, new, refill, allow, run}

pub record IsValid (r : RateLimit) : Type 0 where
  pub within : r.tokens ≤ r.burst
  pub fits : r.burst ≤ u64_max

-- Both parameters are `u32`.
pub new-IsValid : (rate burst now : ℕ) → burst < 4294967296 → IsValid (new rate burst now)
unfolding new
new-IsValid rate burst now h = record { within = omega arith; fits = omega arith }

refill-gain :
    (r : RateLimit) (now : ℕ)
    → (refill r now).tokens + r.rate * r.last ≤ r.tokens + r.rate * (refill r now).last
unfolding refill
refill-gain r now = grind arith

refill-IsValid : (r : RateLimit) (now : ℕ) → IsValid r → IsValid (refill r now)
unfolding refill
refill-IsValid r now v = ground arith

pub allow-IsValid : (r : RateLimit) (now : ℕ) → IsValid r → IsValid (allow r now).0
unfolding allow
allow-IsValid r now v = ground (arith, refill-IsValid r now v)

pub allow-rate :
    (r : RateLimit) (now : ℕ) → ((allow r now).0.rate ≡ r.rate) × (r.last ≤ (allow r now).0.last)
unfolding allow refill
allow-rate r now = ground arith

allow-gain :
    (r : RateLimit) (now : ℕ)
    → (allow r now).0.tokens + (if (allow r now).1 then 1 else 0) * billion + r.rate * r.last
      ≤ r.tokens + r.rate * (allow r now).0.last
unfolding allow
allow-gain r now = ground (arith, refill-gain r now)

run-gain :
    (r : RateLimit) (times : List ℕ)
    → (run r times).0.tokens + (run r times).1 * billion + r.rate * r.last
      ≤ r.tokens + r.rate * (run r times).0.last
unfolding run
run-gain r [] = omega arith
run-gain r (now ∷ later) =
    let rest = run-gain (allow r now).0 later in
    let same = (allow-rate r now).0 in omega (arith, allow-gain r now, rw same at rest)

run-IsValid :
    (r : RateLimit) (times : List ℕ)
    → IsValid r
    → IsValid (run r times).0 × (r.last ≤ (run r times).0.last)
unfolding run
run-IsValid r [] v = (v, omega arith)
run-IsValid r (now ∷ later) v =
    let (v', later_last) = run-IsValid (allow r now).0 later (allow-IsValid r now v) in
    (v', omega (arith, (allow-rate r now).1))

-- Over any calls, at any times and in any order of them, no more than the burst and what the rate
-- yields between the first and the latest time is allowed, and the bucket stays within its burst.
pub run_bound :
    (r : RateLimit) (times : List ℕ)
    → IsValid r
    → IsValid (run r times).0
      × ((run r times).1 * billion + r.rate * r.last ≤ r.burst + r.rate * (run r times).0.last)
run_bound r times v = ((run-IsValid r times v).0, omega (arith, run-gain r times))

-- A call is allowed once the rate has yielded a token since the last call, whatever was used before;
-- a clock that runs backwards yields nothing.
pub allow_after :
    (r : RateLimit) (now : ℕ)
    → IsValid r
    → billion ≤ r.burst
    → (billion ≤ (now - r.last) * r.rate → (allow r now).1 ≡ true)
      × (now ≤ r.last → (allow r now).1 ≡ (if ltb r.tokens billion then false else true))
unfolding allow refill
allow_after r now v b = (λ h. ground arith, λ h. ground arith)
