-- ===== src/Merkle/Binding.antt =====
-- Merkle roots of transparency.rs and revocation.rs, the leaves under them, and collisions of the hash.
use epochgrid.Base.{
  ℕ, zero, suc, Bytes, List, [], ◌∷◌, ◌++◌, map, length, take, drop, Result, ok, err, ◌≡◌, ◌≢◌,
  refl, sym, ap, ap₂, ◌∙◌, ◌⊎◌, inl, inr, arith, bytes_discrete, length-take, length-drop, map-take,
  map-drop, take-append-drop, subst, take-append_self, drop-append_self,
}
use epochgrid.Wire.{Primitives}
use epochgrid.Merkle.{hash, hash_leaf, hash_node, split_at, root_fuel, root}

-- Two different inputs with one digest.
pub record Collision (p : Primitives) : Type 0 where
  pub one : Bytes
  pub other : Bytes
  pub differ : one ≢ other
  pub digest : Bytes
  pub hash_one : hash p one ≡ ok digest
  pub hash_other : hash p other ≡ ok digest

module _ (p : Primitives) where
  pub length-hash : (b d : Bytes) → hash p b ≡ ok d → length d ≡ 32
  unfolding hash
  length-hash b d h = ground arith

  same_input : (a b d : Bytes) → hash p a ≡ ok d → hash p b ≡ ok d → Collision p ⊎ (a ≡ b)
  same_input a b d h k = elim (bytes_discrete a b) [
    | yes e ↦ inr e
    | no n ↦
        inl (record { one = a; other = b; differ = n; digest = d; hash_one = h; hash_other = k })
  ]

  pub leaf_cases :
      (m : Result Bytes) (d : Bytes)
      → hash_leaf p m ≡ ok d
      → (b : Bytes) × (m ≡ ok b) × (hash p (0 ∷ b) ≡ ok d)
  unfolding hash_leaf
  leaf_cases (ok b) d h = (b, refl, h)
  leaf_cases (err e) d h = cc

  pub node_cases :
      (m n : Result Bytes) (d : Bytes)
      → hash_node p m n ≡ ok d
      → (l : Bytes) × (r : Bytes) × (m ≡ ok l) × (n ≡ ok r) × (hash p (1 ∷ l ++ r) ≡ ok d)
  unfolding hash_node
  node_cases (ok l) (ok r) d h = (l, r, refl, refl, h)
  node_cases (ok l) (err e) d h = cc
  node_cases (err e) n d h = cc

-- Blocks of the same size that are equal when joined are equal.
append-cancel : (a b c d : Bytes) → length a ≡ length c → a ++ b ≡ c ++ d → (a ≡ c) × (b ≡ d)
append-cancel a b c d e h = (
  sym (take-append_self a b) ∙ ap₂ take e h ∙ take-append_self c d,
  sym (drop-append_self a b) ∙ ap₂ drop e h ∙ drop-append_self c d,
)

module _ {A : Type 0} (n : ℕ) (xs ys : List A) (e : length xs ≡ length ys) where
  length-take-eq : length (take n xs) ≡ length (take n ys)
  length-take-eq = omega (arith, length-take n xs, length-take n ys)

  length-drop-eq : length (drop n xs) ≡ length (drop n ys)
  length-drop-eq = omega (arith, length-drop n xs, length-drop n ys)

module _ {A : Type 0} (p : Primitives) (leaf : A → Result Bytes) where
  length-root_fuel :
      (f : ℕ) (xs : List A) (d : Bytes) → root_fuel p leaf f xs ≡ ok d → length d ≡ 32
  unfolding root_fuel
  length-root_fuel zero xs d h = cc
  length-root_fuel (suc f) [] d h = length-hash p [] d h
  length-root_fuel (suc f) (x ∷ []) d h =
      let (b, _, k) = leaf_cases p (leaf x) d h in length-hash p (0 ∷ b) d k
  length-root_fuel (suc f) (x ∷ y ∷ rest) d h =
      let (l, r, _, _, k) = node_cases p _ _ d h in length-hash p (1 ∷ l ++ r) d k

  binding_leaf :
      (x y : A) (d : Bytes)
      → hash_leaf p (leaf x) ≡ ok d
      → hash_leaf p (leaf y) ≡ ok d
      → Collision p ⊎ (map leaf (x ∷ []) ≡ map leaf (y ∷ []))
  binding_leaf x y d h k =
      let (a, ea, ha) = leaf_cases p (leaf x) d h in
      let (b, eb, hb) = leaf_cases p (leaf y) d k in
      elim (same_input p (0 ∷ a) (0 ∷ b) d ha hb) [ inl c ↦ inl c | inr e ↦ inr (cc (ea, eb, e)) ]

  parts_join :
      (n : ℕ) (xs ys : List A)
      → map leaf (take n xs) ≡ map leaf (take n ys)
      → map leaf (drop n xs) ≡ map leaf (drop n ys)
      → map leaf xs ≡ map leaf ys
  parts_join n xs ys h k =
      sym (take-append-drop n (map leaf xs))
      ∙ ap₂ ◌++◌ (sym (map-take leaf n xs) ∙ h ∙ map-take leaf n ys)
          (sym (map-drop leaf n xs) ∙ k ∙ map-drop leaf n ys)
      ∙ take-append-drop n (map leaf ys)

  Bound : List A → List A → Type 0
  Bound xs ys = Collision p ⊎ (map leaf xs ≡ map leaf ys)

  -- Two nodes with one hash: the roots of their parts agree, or there is a collision.
  node_parts :
      (f n : ℕ) (xs ys : List A) (d : Bytes)
      → hash_node p (root_fuel p leaf f (take n xs)) (root_fuel p leaf f (drop n xs)) ≡ ok d
      → hash_node p (root_fuel p leaf f (take n ys)) (root_fuel p leaf f (drop n ys)) ≡ ok d
      → Collision p ⊎ (record {
        l : Bytes;
        r : Bytes;
        lx : root_fuel p leaf f (take n xs) ≡ ok l;
        ly : root_fuel p leaf f (take n ys) ≡ ok l;
        rx : root_fuel p leaf f (drop n xs) ≡ ok r;
        ry : root_fuel p leaf f (drop n ys) ≡ ok r;
      })
  node_parts f n xs ys d h k =
      let (l, r, el, er, hx) = node_cases p _ _ d h in
      let (l', r', el', er', hy) = node_cases p _ _ d k in
      elim (same_input p (1 ∷ l ++ r) (1 ∷ l' ++ r') d hx hy) [
        | inl c ↦ inl c
        | inr e ↦
            let same =
              append-cancel l r l' r'
                (length-root_fuel f (take n xs) l el ∙ sym (length-root_fuel f (take n ys) l' el'))
                (ap (drop 1) e) in
            inr (record {
              l = l;
              r = r;
              lx = el;
              ly = el' ∙ ap ok (sym same.0);
              rx = er;
              ry = er' ∙ ap ok (sym same.1);
            })
      ]

  join-Bound :
      (n : ℕ) (xs ys : List A)
      → Bound (take n xs) (take n ys)
      → Bound (drop n xs) (drop n ys)
      → Bound xs ys
  unfolding Bound
  join-Bound n xs ys (inl c) k = inl c
  join-Bound n xs ys (inr h) (inl c) = inl c
  join-Bound n xs ys (inr h) (inr k) = inr (parts_join n xs ys h k)

  binding_fuel :
      (f : ℕ) (xs ys : List A) (d : Bytes)
      → length xs ≡ length ys
      → root_fuel p leaf f xs ≡ ok d
      → root_fuel p leaf f ys ≡ ok d
      → Bound xs ys
  unfolding root_fuel Bound
  binding_fuel zero xs ys d e h k = cc
  binding_fuel (suc f) [] [] d e h k = inr refl
  binding_fuel (suc f) [] (y ∷ ys) d e h k = absurd (omega arith)
  binding_fuel (suc f) (x ∷ xs) [] d e h k = absurd (omega arith)
  binding_fuel (suc f) (x ∷ []) (y ∷ []) d e h k = binding_leaf x y d h k
  binding_fuel (suc f) (x ∷ []) (y ∷ z ∷ ys) d e h k = absurd (omega arith)
  binding_fuel (suc f) (x ∷ z ∷ xs) (y ∷ []) d e h k = absurd (omega arith)
  binding_fuel (suc f) (x ∷ x' ∷ xs) (y ∷ y' ∷ ys) d e h k =
      let left : List A = x ∷ x' ∷ xs in
      let right : List A = y ∷ y' ∷ ys in
      let n = split_at (length left) in
      let k' =
        subst
          (λ (m : ℕ).
            hash_node p (root_fuel p leaf f (take m right)) (root_fuel p leaf f (drop m right))
            ≡ ok d)
          (ap split_at (sym e)) k in
      elim (node_parts f n left right d h k') [
        | inl c ↦ inl c
        | inr q ↦
            join-Bound n left right
              (binding_fuel f (take n left) (take n right) q.l (length-take-eq n left right e) q.lx
                q.ly)
              (binding_fuel f (drop n left) (drop n right) q.r (length-drop-eq n left right e) q.rx
                q.ry)
      ]

  -- Two lists of the same length with the same root have the same leaves' encodings in the same
  -- order, unless a collision of the hash is at hand.
  pub root_binding :
      (xs ys : List A) (d : Bytes)
      → length xs ≡ length ys
      → root p leaf xs ≡ ok d
      → root p leaf ys ≡ ok d
      → Collision p ⊎ (map leaf xs ≡ map leaf ys)
  unfolding root Bound
  root_binding xs ys d e h k =
      binding_fuel (suc (length xs)) xs ys d e h
        (subst (λ (m : ℕ). root_fuel p leaf (suc m) ys ≡ ok d) (sym e) k)
