-- ===== src/Conversation/UpdateOrder.antt =====
-- The order of the updates of relationships.rs on what they say, and the list without the repetitions.
use epochgrid.Base.{
  List, [], ◌∷◌, map, retain, All, All-map, ltb, ◌==◌, nat_eq, bytes_eq, not, Bool, true, false,
  ◌≡◌, ◌≢◌, refl, inl, inr, arith, Bool-cases, if◌then◌else◌, none,
}
use epochgrid.Conversation.Ordered.{
  text_leb, text_leb_refl, text_leb_trans, text_leb_antisym, text_leb_total,
}
use epochgrid.Base.Members.{In, All-In, In-All, In-retain, retain-In, Ordered}
use epochgrid.Conversation.Projection.{Joined, update_leb, insert_row, order_rows}

-- What a row says: all but its number and its place in the stream.
abbrev pub bare : Joined → Joined
bare a = record a { row = 0; sequence = none }

abbrev pub key_leb : Joined → Joined → Bool
key_leb a b = if a.counter == b.counter then text_leb a.id b.id else ltb a.counter b.counter

key_leb_trans : (a b d : Joined) → key_leb a b ≡ true → key_leb b d ≡ true → key_leb a d ≡ true
key_leb_trans a b d h k = ground (arith, text_leb_trans a.id b.id d.id)

key_leb_of_update : (a b : Joined) → update_leb a b ≡ true → key_leb (bare a) (bare b) ≡ true
key_leb_of_update a b h = ground (arith, text_leb_refl a.id)

key_leb_of_not : (a b : Joined) → update_leb a b ≡ false → key_leb (bare b) (bare a) ≡ true
key_leb_of_not a b h = ground (arith, text_leb_refl a.id, text_leb_total a.id b.id)

abbrev pub Weak : Joined → Joined → Type 0
Weak a b = key_leb a b ≡ true

abbrev pub Strict : Joined → Joined → Type 0
Strict a b = (key_leb a b ≡ true) × (a.id ≢ b.id)

pub Strict-apart : (a b : Joined) → Strict a b → Strict b a → ⊥
Strict-apart a b h k = ground (arith, text_leb_antisym a.id b.id, h.1)

All-insert :
    (P : Joined → Type 0) (a : Joined) (xs : List Joined)
    → P (bare a)
    → All P (map bare xs)
    → All P (map bare (insert_row a xs))
unfolding insert_row
All-insert P a [] p h = (p, tt)
All-insert P a (x ∷ xs) p h = elim (Bool-cases (update_leb a x)) [
  | inl e ↦ rw e (p, h)
  | inr e ↦ rw e (h.0, All-insert P a xs p h.1)
]

insert-Ordered :
    (a : Joined) (xs : List Joined)
    → Ordered Weak (map bare xs)
    → Ordered Weak (map bare (insert_row a xs))
unfolding insert_row
insert-Ordered a [] o = (tt, tt)
insert-Ordered a (x ∷ xs) o = elim (Bool-cases (update_leb a x)) [
  | inl e ↦
      let first = key_leb_of_update a x e in
      rw e ((first, All-map (λ b. key_leb_trans (bare a) (bare x) b first) (map bare xs) o.0), o)
  | inr e ↦
      rw e (All-insert (Weak (bare x)) a xs (key_leb_of_not a x e) o.0, insert-Ordered a xs o.1)
]

pub order_rows-Ordered : (xs : List Joined) → Ordered Weak (map bare (order_rows xs))
unfolding order_rows
order_rows-Ordered [] = tt
order_rows-Ordered (x ∷ xs) = insert-Ordered x (order_rows xs) (order_rows-Ordered xs)

insert-In :
    (f : Joined) (a : Joined) (xs : List Joined)
    → In f (map bare (insert_row a xs))
    → In f (map bare (a ∷ xs))
unfolding insert_row
insert-In f a [] i = i
insert-In f a (x ∷ xs) i = elim (Bool-cases (update_leb a x)) [
  | inl e ↦ rw e at i
  | inr e ↦
      let moved : In f (map bare (x ∷ insert_row a xs)) = rw e at i in
      elim moved [
        | inl q ↦ inr (inl q)
        | inr j ↦ elim (insert-In f a xs j) [ inl q ↦ inl q | inr k ↦ inr (inr k) ]
      ]
]

In-insert :
    (f : Joined) (a : Joined) (xs : List Joined)
    → In f (map bare (a ∷ xs))
    → In f (map bare (insert_row a xs))
unfolding insert_row
In-insert f a [] i = i
In-insert f a (x ∷ xs) i = elim (Bool-cases (update_leb a x)) [
  | inl e ↦ rw e i
  | inr e ↦ rw e (elim i [
    | inl q ↦ inr (In-insert f a xs (inl q))
    | inr j ↦ elim j [ inl q ↦ inl q | inr k ↦ inr (In-insert f a xs (inr k)) ]
  ])
]

pub order_rows-In :
    (f : Joined) (xs : List Joined) → In f (map bare (order_rows xs)) → In f (map bare xs)
unfolding order_rows
order_rows-In f [] i = i
order_rows-In f (x ∷ xs) i = elim (insert-In f x (order_rows xs) i) [
  | inl q ↦ inl q
  | inr j ↦ inr (order_rows-In f xs j)
]

pub In-order_rows :
    (f : Joined) (xs : List Joined) → In f (map bare xs) → In f (map bare (order_rows xs))
unfolding order_rows
In-order_rows f [] i = i
In-order_rows f (x ∷ xs) i =
    In-insert f x (order_rows xs) (elim i [ inl q ↦ inl q | inr j ↦ inr (In-order_rows f xs j) ])

-- The list without the later rows of an identifier.
unfoldable pub strip : List Joined → List Joined
strip [] = []
strip (a ∷ rest) = a ∷ retain (λ (b : Joined). not (b.id == a.id)) (strip rest)

pub strip-In : (f : Joined) (xs : List Joined) → In f (strip xs) → In f xs
unfolding strip
strip-In f [] i = i
strip-In f (x ∷ xs) i = elim i [
  | inl q ↦ inl q
  | inr j ↦ inr (strip-In f xs (In-retain (λ (b : Joined). not (b.id == x.id)) (strip xs) f j).0)
]

-- Where an identifier names one row.
abbrev pub Determined : List Joined → Type 0
Determined xs = (a b : Joined) → In a xs → In b xs → a.id ≡ b.id → a ≡ b

pub In-strip : (f : Joined) (xs : List Joined) → Determined xs → In f xs → In f (strip xs)
unfolding strip
In-strip f [] d i = i
In-strip f (x ∷ xs) d (inl q) = inl q
In-strip f (x ∷ xs) d (inr j) = elim (Bool-cases (not (f.id == x.id))) [
  | inl e ↦ inr (
      retain-In (λ (b : Joined). not (b.id == x.id)) (strip xs) f
        (In-strip f xs (λ a b i k. d a b (inr i) (inr k)) j) e)
  | inr e ↦ inl (d f x (inr j) (inl refl) (ground arith))
]

retain-All :
    (P : Joined → Type 0) (p : Joined → Bool) (xs : List Joined) → All P xs → All P (retain p xs)
retain-All P p xs h = In-All P (retain p xs) (λ a i. All-In P xs a h (In-retain p xs a i).0)

retain-Ordered :
    (p : Joined → Bool) (xs : List Joined) → Ordered Strict xs → Ordered Strict (retain p xs)
retain-Ordered p [] o = tt
retain-Ordered p (x ∷ xs) o = elim (Bool-cases (p x)) [
  | inl e ↦ rw e (retain-All (Strict x) p xs o.0, retain-Ordered p xs o.1)
  | inr e ↦ rw e (retain-Ordered p xs o.1)
]

pub strip-Ordered : (xs : List Joined) → Ordered Weak xs → Ordered Strict (strip xs)
unfolding strip
strip-Ordered [] o = tt
strip-Ordered (x ∷ xs) o = (
  In-All (Strict x) (retain (λ (b : Joined). not (b.id == x.id)) (strip xs)) λ b i.
      let (j, t) = In-retain (λ (b : Joined). not (b.id == x.id)) (strip xs) b i in
      (All-In (Weak x) xs b o.0 (strip-In b xs j), ground arith),
  retain-Ordered (λ (b : Joined). not (b.id == x.id)) (strip xs) (strip-Ordered xs o.1),
)
