-- ===== src/Merkle/Fuel.antt =====
-- The fuel of `root` of transparency.rs and revocation.rs.
use epochgrid.Base.{
  ℕ, zero, suc, ◌≤◌, ◌<◌, Bytes, List, [], ◌∷◌, length, take, drop, Result, ◌≡◌, refl, ap₂, arith,
  length-take, length-drop,
}
use epochgrid.Wire.{Primitives}
use epochgrid.Merkle.{split_at, hash_node, root_fuel, root}
use epochgrid.Merkle.Split.{le-next_power_of_two, next_power_of_two-lt}

pub split_at-pos : (n : ℕ) → 2 ≤ n → 1 ≤ split_at n
unfolding split_at
split_at-pos n h = omega (arith, le-next_power_of_two n)

pub split_at-lt : (n : ℕ) → 2 ≤ n → split_at n < n
unfolding split_at
split_at-lt n h = omega (arith, next_power_of_two-lt n)

module _ {A : Type 0} (xs : List A) (h : 2 ≤ length xs) where
  pub length-left-lt : length (take (split_at (length xs)) xs) < length xs
  length-left-lt = omega (arith, length-take (split_at (length xs)) xs, split_at-lt (length xs) h)

  pub length-right-lt : length (drop (split_at (length xs)) xs) < length xs
  length-right-lt = omega (arith, length-drop (split_at (length xs)) xs, split_at-pos (length xs) h)

module _ {A : Type 0} (p : Primitives) (leaf : A → Result Bytes) where
  -- Any two amounts of fuel above the number of entries give the same root.
  pub root_fuel-enough :
      (f g : ℕ) (xs : List A)
      → length xs < f
      → length xs < g
      → root_fuel p leaf f xs ≡ root_fuel p leaf g xs
  unfolding root_fuel
  root_fuel-enough zero g xs h k = absurd (omega arith)
  root_fuel-enough (suc f) zero xs h k = absurd (omega arith)
  root_fuel-enough (suc f) (suc g) [] h k = refl
  root_fuel-enough (suc f) (suc g) (x ∷ []) h k = refl
  root_fuel-enough (suc f) (suc g) (x ∷ y ∷ rest) h k =
      let xs : List A = x ∷ y ∷ rest in
      let n = split_at (length xs) in
      ap₂ (hash_node p)
        (root_fuel-enough f g (take n xs) (omega (arith, length-left-lt xs (omega arith)))
          (omega (arith, length-left-lt xs (omega arith))))
        (root_fuel-enough f g (drop n xs) (omega (arith, length-right-lt xs (omega arith)))
          (omega (arith, length-right-lt xs (omega arith))))

  -- The equation of the source, with the recursion put back: a list of two or more is cut at half
  -- the next power of two, and the roots of its parts are hashed behind the byte 1.
  pub root-eq-node :
      (xs : List A)
      → 2 ≤ length xs
      → root p leaf xs
        ≡ hash_node p
            (root p leaf (take (split_at (length xs)) xs))
            (root p leaf (drop (split_at (length xs)) xs))
  unfolding root root_fuel
  root-eq-node [] h = absurd (omega arith)
  root-eq-node (x ∷ []) h = absurd (omega arith)
  root-eq-node (x ∷ y ∷ rest) h =
      let xs : List A = x ∷ y ∷ rest in
      let n = split_at (length xs) in
      ap₂ (hash_node p)
        (root_fuel-enough (length xs) (suc (length (take n xs))) (take n xs) (length-left-lt xs h)
          (omega arith))
        (root_fuel-enough (length xs) (suc (length (drop n xs))) (drop n xs) (length-right-lt xs h)
          (omega arith))
