-- ===== src/Merkle/Reference.antt =====
-- `root` of transparency.rs and revocation.rs, and the Merkle tree hash of RFC 6962 stated
-- by itself, which docs/device-verification.md names as the construction of the root.
use epochgrid.Base.{
  ℕ, zero, suc, ◌+◌, ◌*◌, ◌^◌, ◌≤◌, ◌<◌, Bytes, List, [], ◌∷◌, ◌++◌, length, take, drop, some,
  Result, ok, ◌≡◌, sym, ap₂, ◌∙◌, ◌↔◌, arith, inl, inr, Option-cases, length-take, length-drop,
  length-append, take-append-drop, take-append_self, drop-append_self,
}
use epochgrid.Wire.{Primitives}
use epochgrid.Merkle.{hash, hash_leaf, hash_node, split_at, root_fuel, root}
use epochgrid.Merkle.Split.{next_power_of_two_half, pow_unique, pow-pos}
use epochgrid.Merkle.Binding.{leaf_cases, node_cases}
use epochgrid.Merkle.Fuel.{split_at-lt, length-right-lt, root-eq-node}

-- The digest of an input: 32 bytes that SHA-256 answers.
abbrev pub IsDigest : Primitives → Bytes → Bytes → Type 0
IsDigest p input d = (p.sha256 input ≡ some d) × (length d ≡ 32)

-- The Merkle tree hash of RFC 6962. The left part of an inner node has as many entries as the
-- largest power of two below the number of them all.
pub data IsTree {A : Type 0} (p : Primitives) (leaf : A → Result Bytes)
    : List A → Bytes → Type 0 where
  empty : (d : Bytes) → IsDigest p [] d → IsTree p leaf [] d
  single : (x : A) (b d : Bytes) → leaf x ≡ ok b → IsDigest p (0 ∷ b) d → IsTree p leaf (x ∷ []) d
  node :
      (j : ℕ) (xs ys zs : List A) (l r d : Bytes)
      → xs ++ ys ≡ zs
      → length xs ≡ 2 ^ j
      → 1 ≤ length ys
      → length ys ≤ 2 ^ j
      → IsTree p leaf xs l
      → IsTree p leaf ys r
      → IsDigest p (1 ∷ l ++ r) d
      → IsTree p leaf zs d

module _ (p : Primitives) where
  hash-IsDigest : (input d : Bytes) → hash p input ≡ ok d → IsDigest p input d
  unfolding hash
  hash-IsDigest input d h = elim (Option-cases (p.sha256 input)) [
    | inl k ↦ absurd (ground arith)
    | inr (b, k) ↦ (ground arith, ground arith)
  ]

  IsDigest-hash : (input d : Bytes) → IsDigest p input d → hash p input ≡ ok d
  unfolding hash
  IsDigest-hash input d (e, n) = rw e (ground arith)

pub split_at_half : (n : ℕ) → 2 ≤ n → (j : ℕ) × (split_at n ≡ 2 ^ j) × (n ≤ 2 * 2 ^ j)
unfolding split_at
split_at_half = next_power_of_two_half

-- The cut of the source is the one power of two that the reference asks for.
split_at_unique : (j n : ℕ) → 2 ^ j < n → n ≤ 2 * 2 ^ j → 2 ≤ n → split_at n ≡ 2 ^ j
split_at_unique j n h k two =
    let (i, e, m) = split_at_half n two in
    e ∙ pow_unique i j n (omega (arith, split_at-lt n two)) m h k

module _ {A : Type 0} (p : Primitives) (leaf : A → Result Bytes) where
  root_fuel-IsTree :
      (f : ℕ) (xs : List A) (d : Bytes) → root_fuel p leaf f xs ≡ ok d → IsTree p leaf xs d
  unfolding root_fuel
  root_fuel-IsTree zero xs d h = absurd (cc)
  root_fuel-IsTree (suc f) [] d h = empty d (hash-IsDigest p [] d h)
  root_fuel-IsTree (suc f) (x ∷ []) d h =
      let (b, e, k) = leaf_cases p (leaf x) d h in single x b d e (hash-IsDigest p (0 ∷ b) d k)
  root_fuel-IsTree (suc f) (x ∷ y ∷ rest) d h =
      let xs : List A = x ∷ y ∷ rest in
      let n = split_at (length xs) in
      let (l, r, el, er, k) = node_cases p _ _ d h in
      let (j, e, m) = split_at_half (length xs) (omega arith) in
      node j (take n xs) (drop n xs) xs l r d (take-append-drop n xs)
        (omega (arith, length-take n xs, split_at-lt (length xs) (omega arith)))
        (omega (
          arith,
          length-right-lt xs (omega arith),
          length-drop n xs,
          split_at-lt (length xs) (omega arith),
        ))
        (omega (arith, length-drop n xs)) (root_fuel-IsTree f (take n xs) l el)
        (root_fuel-IsTree f (drop n xs) r er) (hash-IsDigest p (1 ∷ l ++ r) d k)

  IsTree-root : (xs : List A) (d : Bytes) → IsTree p leaf xs d → root p leaf xs ≡ ok d
  unfolding root root_fuel hash_leaf hash_node
  IsTree-root xs d (empty _ t) = IsDigest-hash p [] d t
  IsTree-root xs d (single x b _ e t) = rw e (IsDigest-hash p (0 ∷ b) d t)
  IsTree-root zs d (node j xs ys _ l r _ e long pos short tl tr t) =
      let total : length zs ≡ length xs + length ys = rw (sym e) (length-append xs ys) in
      let big : 2 ≤ length zs = omega (arith, pow-pos j) in
      let cut : split_at (length zs) ≡ length xs =
        split_at_unique j (length zs) (omega arith) (omega arith) big ∙ sym long in
      let left : take (split_at (length zs)) zs ≡ xs =
        rw cut (rw (sym e) (take-append_self xs ys)) in
      let right : drop (split_at (length zs)) zs ≡ ys =
        rw cut (rw (sym e) (drop-append_self xs ys)) in
      root-eq-node p leaf zs big
      ∙ ap₂ (λ us vs. hash_node p (root p leaf us) (root p leaf vs)) left right
      ∙ ap₂ (hash_node p) (IsTree-root xs l tl) (IsTree-root ys r tr)
      ∙ IsDigest-hash p (1 ∷ l ++ r) d t

  -- The root that the code computes is `d` exactly where `d` is the Merkle tree hash of RFC 6962 of
  -- the entries: the digest of no bytes for none of them, of a zero byte and the leaf for one, and of
  -- a one byte and the two hashes for the parts of more than one, of which the left part has the
  -- largest power of two below their number. Each entry has a leaf, and each digest 32 bytes.
  pub root_iff : (xs : List A) (d : Bytes) → root p leaf xs ≡ ok d ↔ IsTree p leaf xs d
  unfolding root
  root_iff xs d = (root_fuel-IsTree (suc (length xs)) xs d, IsTree-root xs d)
