-- ===== src/Merkle/Split.antt =====
-- `usize::next_power_of_two` (std) and the cut of a list at half of it, for `root` of transparency.rs.
use epochgrid.Base.{
  ℕ, zero, suc, ◌+◌, ◌*◌, ◌/◌, ◌^◌, ◌≤◌, ◌<◌, ltb, if◌then◌else◌, arith, ◌≡◌, refl, inl, inr,
  Bool-cases,
}

-- Doubling from `p` until `n` is reached.
grow : ℕ → ℕ → ℕ → ℕ
grow zero p n = p
grow (suc f) p n = let doubled = grow f (p + p) n in if ltb p n then doubled else p

unfoldable pub next_power_of_two : ℕ → ℕ
unfolding grow
next_power_of_two n = grow n 1 n

le-grow : (f p n : ℕ) → 1 ≤ p → n ≤ p + f → n ≤ grow f p n
unfolding grow
le-grow zero p n h k = omega arith
le-grow (suc f) p n h k = ground (arith, le-grow f (p + p) n)

grow-lt : (f p n : ℕ) → p < n + n → grow f p n < n + n
unfolding grow
grow-lt zero p n h = h
grow-lt (suc f) p n h = ground (arith, grow-lt f (p + p) n)

pub le-next_power_of_two : (n : ℕ) → n ≤ next_power_of_two n
unfolding next_power_of_two
le-next_power_of_two n = le-grow n 1 n (omega arith) (omega arith)

pub next_power_of_two-lt : (n : ℕ) → 1 ≤ n → next_power_of_two n < n + n
unfolding next_power_of_two
next_power_of_two-lt n h = grow-lt n 1 n (omega arith)

-- Doubling a power of two gives a power of two.
grow_power : (f i n : ℕ) → (j : ℕ) × (grow f (2 ^ i) n ≡ 2 ^ j)
unfolding grow
grow_power zero i n = (i, refl)
grow_power (suc f) i n = elim (Bool-cases (ltb (2 ^ i) n)) [
  | inl t ↦
      let (j, e) = grow_power f (suc i) n in
      let doubled : 2 ^ i + 2 ^ i ≡ 2 ^ suc i = omega arith in (j, rw (t, doubled) e)
  | inr s ↦ (i, rw s refl)
]

pub next_power_of_two_power : (n : ℕ) → (j : ℕ) × (next_power_of_two n ≡ 2 ^ j)
unfolding next_power_of_two
next_power_of_two_power n = grow_power n 0 n

pub pow-pos : (j : ℕ) → 1 ≤ 2 ^ j
pow-pos zero = omega arith
pow-pos (suc j) = omega (arith, pow-pos j)

-- A smaller power of two fits twice into a larger one.
double-pow-le : (i j : ℕ) → 2 ^ i < 2 ^ j → 2 * 2 ^ i ≤ 2 ^ j
double-pow-le zero zero h = absurd (omega arith)
double-pow-le zero (suc j) h = omega (arith, pow-pos j)
double-pow-le (suc i) zero h = absurd (omega (arith, pow-pos i))
double-pow-le (suc i) (suc j) h = omega (arith, double-pow-le i j)

-- Half of the next power of two is the largest power of two below the number.
pub next_power_of_two_half :
    (n : ℕ) → 2 ≤ n → (j : ℕ) × (next_power_of_two n / 2 ≡ 2 ^ j) × (n ≤ 2 * 2 ^ j)
next_power_of_two_half n h = let (j, e) = next_power_of_two_power n in half_power j e
  where
    half_power :
        (j : ℕ)
        → next_power_of_two n ≡ 2 ^ j
        → (j : ℕ) × (next_power_of_two n / 2 ≡ 2 ^ j) × (n ≤ 2 * 2 ^ j)
    half_power zero e = absurd (omega (arith, le-next_power_of_two n))
    half_power (suc j) e = (j, omega arith, omega (arith, le-next_power_of_two n))

-- There is one power of two below a number whose double is not below it.
pub pow_unique : (i j n : ℕ) → 2 ^ i < n → n ≤ 2 * 2 ^ i → 2 ^ j < n → n ≤ 2 * 2 ^ j → 2 ^ i ≡ 2 ^ j
pow_unique i j n a b c d = grind (arith, double-pow-le i j, double-pow-le j i)
