-- ===== src/Merkle/Entries.antt =====
-- Merkle roots of transparency.rs and revocation.rs, and the entries under them.
use epochgrid.Base.{
  ℕ, zero, suc, Bytes, List, [], ◌∷◌, ◌++◌, map, length, take, drop, All, Result, ok, ◌≡◌, refl,
  sym, ap₂, ◌∙◌, ◌⊎◌, inl, inr, subst, take-append-drop,
}
use epochgrid.Wire.{Primitives}
use epochgrid.Merkle.{split_at, root_fuel, root}
use epochgrid.Merkle.Binding.{Collision, leaf_cases, node_cases, root_binding}

-- Every entry has an encoding.
abbrev Encoded : {A : Type 0} → (A → Result Bytes) → A → Type 0
Encoded leaf x = (b : Bytes) × (leaf x ≡ ok b)

All-join : {A : Type 0} (P : A → Type 0) (xs ys : List A) → All P xs → All P ys → All P (xs ++ ys)
All-join P [] ys h k = k
All-join P (x ∷ xs) ys h k = (h.0, All-join P xs ys h.1 k)

module _ {A : Type 0} (p : Primitives) (leaf : A → Result Bytes) where
  root_fuel-Encoded :
      (f : ℕ) (xs : List A) (d : Bytes) → root_fuel p leaf f xs ≡ ok d → All (Encoded leaf) xs
  unfolding root_fuel
  root_fuel-Encoded zero xs d h = absurd (cc)
  root_fuel-Encoded (suc f) [] d h = tt
  root_fuel-Encoded (suc f) (x ∷ []) d h = let (b, e, k) = leaf_cases p (leaf x) d h in ((b, e), tt)
  root_fuel-Encoded (suc f) (x ∷ y ∷ rest) d h =
      let xs : List A = x ∷ y ∷ rest in
      let n = split_at (length xs) in
      let (l, r, el, er, k) = node_cases p _ _ d h in
      subst (All (Encoded leaf)) (take-append-drop n xs) (
        All-join (Encoded leaf) (take n xs) (drop n xs) (root_fuel-Encoded f (take n xs) l el)
          (root_fuel-Encoded f (drop n xs) r er))

  -- Different entries have different encodings.
  abbrev pub Distinguishes : Type 0
  Distinguishes = (a b : A) (bytes : Bytes) → leaf a ≡ ok bytes → leaf b ≡ ok bytes → a ≡ b

  same_entries :
      Distinguishes → (xs ys : List A) → All (Encoded leaf) xs → map leaf xs ≡ map leaf ys → xs ≡ ys
  same_entries inj [] [] h e = refl
  same_entries inj [] (y ∷ ys) h e = absurd (cc)
  same_entries inj (x ∷ xs) [] h e = absurd (cc)
  same_entries inj (x ∷ xs) (y ∷ ys) ((b, k), h) e =
      let first : leaf x ≡ leaf y = cc in
      let rest : map leaf xs ≡ map leaf ys = cc in
      ap₂ (λ z zs. z ∷ zs) (inj x y b k (sym first ∙ k)) (same_entries inj xs ys h rest)

  -- Two lists of the same length with the same root are the same, unless a collision is at hand.
  pub root_entries :
      Distinguishes
      → (xs ys : List A) (d : Bytes) → length xs ≡ length ys
      → root p leaf xs ≡ ok d
      → root p leaf ys ≡ ok d
      → Collision p ⊎ (xs ≡ ys)
  unfolding root
  root_entries inj xs ys d e h k = elim (root_binding p leaf xs ys d e h k) [
    | inl c ↦ inl c
    | inr q ↦ inr (same_entries inj xs ys (root_fuel-Encoded (suc (length xs)) xs d h) q)
  ]
