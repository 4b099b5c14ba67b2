-- ===== src/Base/Members.antt =====
-- Lists as the sets of their elements: membership that can be taken apart, and lists that are
-- strictly ordered, of which there is one to a set.
use mathlib.Core.Path.{◌≡◌, refl, ap₂, sym, subst}
use mathlib.Core.Logic.{◌⊎◌, inl, inr, ◌≢◌}
use mathlib.Core.Bool.{Bool, true}
use mathlib.Core.List.{List, [], ◌∷◌, ◌++◌}
use native.Mathlib.Omega.{arith}
use epochgrid.Base.Tests.{Bool-cases}
use epochgrid.Base.Lists.{retain, All, Unique, length, length-append}

module _ {A : Type 0} where
  abbrev pub In : A → List A → Type 0
  In a [] = ⊥
  In a (b ∷ bs) = (a ≡ b) ⊎ In a bs

  pub All-In : (P : A → Type 0) (xs : List A) (a : A) → All P xs → In a xs → P a
  All-In P [] a h i = absurd i
  All-In P (x ∷ xs) a h (inl e) = subst P (sym e) h.0
  All-In P (x ∷ xs) a h (inr i) = All-In P xs a h.1 i

  pub In-All : (P : A → Type 0) (xs : List A) → ((a : A) → In a xs → P a) → All P xs
  In-All P [] h = tt
  In-All P (x ∷ xs) h = (h x (inl refl), In-All P xs (λ a i. h a (inr i)))

  pub In-retain : (p : A → Bool) (xs : List A) (a : A) → In a (retain p xs) → In a xs × (p a ≡ true)
  In-retain p [] a i = absurd i
  In-retain p (x ∷ xs) a i = elim (Bool-cases (p x)) [
    | inl e ↦ elim (kept e i) [
      | inl q ↦ (inl q, rw q e)
      | inr j ↦ let (k, t) = In-retain p xs a j in (inr k, t)
    ]
    | inr e ↦ let (k, t) = In-retain p xs a (rw e at i) in (inr k, t)
  ]
    where
      kept : p x ≡ true → In a (retain p (x ∷ xs)) → (a ≡ x) ⊎ In a (retain p xs)
      kept e i = rw e at i

  pub retain-In : (p : A → Bool) (xs : List A) (a : A) → In a xs → p a ≡ true → In a (retain p xs)
  retain-In p [] a i t = i
  retain-In p (x ∷ xs) a i t = elim (Bool-cases (p x)) [
    | inl e ↦ rw e (elim i [ inl q ↦ inl q | inr j ↦ inr (retain-In p xs a j t) ])
    | inr e ↦ rw e (elim i [ inl q ↦ absurd (cc) | inr j ↦ retain-In p xs a j t ])
  ]

  pub In-append : (xs ys : List A) (a : A) → In a (xs ++ ys) → In a xs ⊎ In a ys
  In-append [] ys a i = inr i
  In-append (x ∷ xs) ys a (inl q) = inl (inl q)
  In-append (x ∷ xs) ys a (inr i) = elim (In-append xs ys a i) [
    | inl j ↦ inl (inr j)
    | inr j ↦ inr j
  ]

  pub In-left : (xs ys : List A) (a : A) → In a xs → In a (xs ++ ys)
  In-left [] ys a i = absurd i
  In-left (x ∷ xs) ys a (inl q) = inl q
  In-left (x ∷ xs) ys a (inr i) = inr (In-left xs ys a i)

  pub In-right : (xs ys : List A) (a : A) → In a ys → In a (xs ++ ys)
  In-right [] ys a i = i
  In-right (x ∷ xs) ys a i = inr (In-right xs ys a i)

  pub In-split :
      (xs : List A) (a : A)
      → In a xs
      → (before : List A) × (after : List A) × (xs ≡ before ++ a ∷ after)
  In-split [] a i = absurd i
  In-split (x ∷ xs) a (inl q) = ([], xs, rw q refl)
  In-split (x ∷ xs) a (inr i) =
      let (before, after, e) = In-split xs a i in (x ∷ before, after, rw e refl)

  without :
      (x : A) (xs before after : List A)
      → All (λ y. x ≢ y) xs
      → ((a : A) → In a xs → In a (before ++ x ∷ after))
      → (a : A) → In a xs
      → In a (before ++ after)
  without x xs before after d sub a i = elim (In-append before (x ∷ after) a (sub a i)) [
    | inl j ↦ In-left before after a j
    | inr j ↦ elim j [
      | inl q ↦ absurd (All-In (λ y. x ≢ y) xs a d i (sym q))
      | inr k ↦ In-right before after a k
    ]
  ]

  -- A list of distinct elements that stand in another of the same length has all of the other's.
  pub pigeonhole :
      (xs ys : List A)
      → Unique xs
      → length ys ≡ length xs
      → ((a : A) → In a xs → In a ys)
      → (a : A) → In a ys
      → In a xs
  pigeonhole [] [] u e sub a i = i
  pigeonhole [] (y ∷ ys) u e sub a i = absurd (omega (arith, e))
  pigeonhole (x ∷ xs) ys u e sub a i =
      let (before, after, q) = In-split ys x (sub x (inl refl)) in
      let sub' : (b : A) → In b (x ∷ xs) → In b (before ++ x ∷ after) = rw q at sub in
      let fewer = without x xs before after u.0 (λ b j. sub' b (inr j)) in
      let long : length (before ++ after) ≡ length xs =
        omega (arith, length-append before after, length-append before (x ∷ after), rw q at e) in
      elim (In-append before (x ∷ after) a (rw q at i)) [
        | inl j ↦ inr (pigeonhole xs (before ++ after) u.1 long fewer a (In-left before after a j))
        | inr j ↦ elim j [
          | inl same ↦ inl same
          | inr k ↦
              inr (pigeonhole xs (before ++ after) u.1 long fewer a (In-right before after a k))
        ]
      ]

module _ {A : Type 0} (below : A → A → Type 0) where
  abbrev pub Ordered : List A → Type 0
  Ordered [] = Unit
  Ordered (x ∷ xs) = All (below x) xs × Ordered xs

module _ {A : Type 0} {below : A → A → Type 0} (apart : (a b : A) → below a b → below b a → ⊥) where
  ordered_tail :
      (x : A) (xs ys : List A)
      → All (below x) xs
      → ((a : A) → In a (x ∷ xs) → In a (x ∷ ys))
      → (a : A) → In a xs
      → In a ys
  ordered_tail x xs ys h same a i = elim (same a (inr i)) [
    | inl q ↦
        let b = All-In (below x) xs a h i in
        absurd
          (apart x a b (subst (λ (y : A). below a y) q (subst (λ (y : A). below y a) (sym q) b)))
    | inr j ↦ j
  ]

  -- Two ordered lists with the same elements are the same.
  pub Ordered-unique :
      (xs ys : List A)
      → Ordered below xs
      → Ordered below ys
      → ((a : A) → In a xs → In a ys)
      → ((a : A) → In a ys → In a xs)
      → xs ≡ ys
  Ordered-unique [] [] o p f g = refl
  Ordered-unique [] (y ∷ ys) o p f g = absurd (g y (inl refl))
  Ordered-unique (x ∷ xs) [] o p f g = absurd (f x (inl refl))
  Ordered-unique (x ∷ xs) (y ∷ ys) o p f g =
      let head : x ≡ y = elim (f x (inl refl)) [
        | inl q ↦ q
        | inr i ↦ elim (g y (inl refl)) [
          | inl q ↦ sym q
          | inr j ↦ absurd (apart x y (All-In (below x) xs y o.0 j) (All-In (below y) ys x p.0 i))
        ]
      ] in
      let f' = subst (λ (z : A). (a : A) → In a (x ∷ xs) → In a (z ∷ ys)) (sym head) f in
      let g' = subst (λ (z : A). (a : A) → In a (z ∷ ys) → In a (x ∷ xs)) (sym head) g in
      let p' = subst (λ (z : A). All (below z) ys) (sym head) p.0 in
      ap₂ (λ (z : A) (zs : List A). z ∷ zs) head
        (Ordered-unique xs ys o.1 p.1 (ordered_tail x xs ys o.0 f') (ordered_tail x ys xs p' g'))
