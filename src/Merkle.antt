-- ===== src/Merkle.antt =====
-- The Merkle root of transparency.rs and revocation.rs. Both files have the same recursion over their
-- own entries; here it stands once, over the bytes of a leaf.
mod Split
pub mod Fuel
pub mod Binding
pub mod Entries
pub mod Reference
use epochgrid.Base.{
  ℕ, zero, suc, ◌/◌, Bytes, List, [], ◌∷◌, ◌++◌, length, take, drop, ◌==◌, nat_eq, Result, ok, err,
  context, ensure, ◌>>=◌, ◌>>◌,
}
use epochgrid.Wire.{Primitives}
unfoldable pub use Split.{next_power_of_two}

-- `hash` of transparency.rs: SHA-256, in an array of 32 bytes.
unfoldable pub hash : Primitives → Bytes → Result Bytes
hash p bytes = do
  digest ← context (p.sha256 bytes) "SHA-256 failed"
  ensure (length digest == 32) "unexpected SHA-256 length"
  ok digest

unfoldable pub hash_leaf : Primitives → Result Bytes → Result Bytes
unfolding hash
hash_leaf p leaf = do bytes ← leaf; hash p (0 ∷ bytes)

unfoldable pub hash_node : Primitives → Result Bytes → Result Bytes → Result Bytes
unfolding hash
hash_node p left right = do l ← left; r ← right; hash p (1 ∷ l ++ r)

unfoldable pub split_at : ℕ → ℕ
split_at n = next_power_of_two n / 2

module _ {A : Type 0} (p : Primitives) (leaf : A → Result Bytes) where
  -- The recursion, on fuel.
  unfoldable pub root_fuel : ℕ → List A → Result Bytes
  root_fuel zero entries = err "out of fuel"
  root_fuel (suc f) [] = hash p []
  root_fuel (suc f) (x ∷ []) = hash_leaf p (leaf x)
  root_fuel (suc f) (x ∷ y ∷ rest) =
      let split = split_at (length (x ∷ y ∷ rest)) in
      hash_node p (root_fuel f (take split (x ∷ y ∷ rest)))
        (root_fuel f (drop split (x ∷ y ∷ rest)))

  unfoldable pub root : List A → Result Bytes
  unfolding root_fuel
  root entries = root_fuel (suc (length entries)) entries
