-- ===== src/Conversation/Same.antt =====
-- `projected` of relationships.rs over the tables of two devices.
use mathlib.Core.Path.{fun_ext}
use epochgrid.Base.{
  ℕ, List, [], ◌∷◌, map, retain, any, All, >>=-eq-ok, ==→≡, ◌==◌, nat_eq, bytes_eq, ==_refl, not,
  Bool, true, ◌&&◌, Text, Option, none, some, Option-cases, Result, ok, Result-cases, context,
  ◌>>=◌, ◌≡◌, refl, sym, ap, ◌∙◌, subst, inl, inr, arith, Bool-cases,
}
use epochgrid.Conversation.Event.{Relation, reply_to, replace, reaction, EventCodec}
use epochgrid.Base.Members.{In, In-All, Ordered-unique}
use epochgrid.Conversation.Projection.{
  Joined, Unpacked, Shown, unpack, update, updates, apply_relation, order_rows,
}
use epochgrid.Conversation.UpdateOrder.{
  bare, strip, Strict-apart, strip-Ordered, order_rows-Ordered, order_rows-In, In-order_rows,
  strip-In, In-strip, Determined,
}

module _ {T : Type 0} (c : EventCodec) where
  -- What does not read the number of a row is the same of the bare row.
  pub unpack-bare :
      (a : Joined) (f : Unpacked → Result T)
      → ((u : Unpacked) (n : ℕ) → f (record u { row = n }) ≡ f u)
      → (unpack c (bare a) >>= f) ≡ (unpack c a >>= f)
  unfolding unpack
  unpack-bare a f h = elim (Option-cases a.sender) [
    | inl e ↦ rw e refl
    | inr (sender, e) ↦ elim (Option-cases (c.take_event a.event)) [
      | inl k ↦ rw (e, k) refl
      | inr ((event, rest), k) ↦
          rw (e, k) (h (record { row = a.row; sender = sender; id = a.id; event = event }) 0)
    ]
  ]

unpack-id : (c : EventCodec) (a : Joined) (u : Unpacked) → unpack c a ≡ ok u → u.id ≡ a.id
unfolding unpack
unpack-id c a u h =
    let (sender, k, rest) = >>=-eq-ok (context a.sender "invalid column type") _ h in
    let ((event, behind), l, last) = >>=-eq-ok (context (c.take_event a.event) "encoding") _ rest in
    let eq : record { row = a.row; sender = sender; id = a.id; event = event } ≡ u = cc in
    ap (λ (v : Unpacked). v.id) (sym eq)

module _ (c : EventCodec) (sender : Text) (editable : Bool) where
  relation-row :
      (u : Unpacked) (n : ℕ) (r : Option Relation) (s : Shown)
      → apply_relation c sender editable (record u { row = n }) r s
        ≡ apply_relation c sender editable u r s
  unfolding apply_relation
  relation-row u n none s = refl
  relation-row u n (some (reply_to id)) s = refl
  relation-row u n (some (replace id)) s = refl
  relation-row u n (some (reaction id value add)) s = refl

  update-row :
      (u : Unpacked) (n : ℕ) (s : Shown)
      → update c sender editable (record u { row = n }) s ≡ update c sender editable u s
  unfolding update
  update-row u n s = rw (relation-row u n u.event.relation (record s { seen = u.id ∷ s.seen })) refl

  relation-seen :
      (u : Unpacked) (r : Option Relation) (s : Shown)
      → (apply_relation c sender editable u r s).seen ≡ s.seen
  unfolding apply_relation
  relation-seen u none s = refl
  relation-seen u (some (reply_to id)) s = refl
  relation-seen u (some (replace id)) s = elim (Bool-cases (u.sender == sender && editable)) [
    | inl e ↦ rw e refl
    | inr e ↦ rw e refl
  ]
  relation-seen u (some (reaction id value add)) s = refl

  -- What has been seen stays so, and the update's own identifier has been.
  update-seen :
      (u : Unpacked) (s : Shown) (id : Text)
      → any (λ t. t == id) s.seen ≡ true
      → any (λ t. t == id) (update c sender editable u s).seen ≡ true
  unfolding update
  update-seen u s id h = elim (Bool-cases (any (λ t. t == u.id) s.seen)) [
    | inl e ↦ rw e h
    | inr e ↦
        rw e
          (rw (relation-seen u u.event.relation (record s { seen = u.id ∷ s.seen })) (ground arith))
  ]

  update-own :
      (u : Unpacked) (s : Shown) → any (λ t. t == u.id) (update c sender editable u s).seen ≡ true
  unfolding update
  update-own u s = elim (Bool-cases (any (λ t. t == u.id) s.seen)) [
    | inl e ↦ rw e e
    | inr e ↦ rw e (
        rw (relation-seen u u.event.relation (record s { seen = u.id ∷ s.seen }), ==_refl u.id)
          refl)
  ]

  update-skips :
      (u : Unpacked) (s : Shown)
      → any (λ t. t == u.id) s.seen ≡ true
      → update c sender editable u s ≡ s
  unfolding update
  update-skips u s h = rw h refl

  updates-bare :
      (xs : List Joined) (s : Shown)
      → updates c sender editable (map bare xs) s ≡ updates c sender editable xs s
  unfolding updates
  updates-bare [] s = refl
  updates-bare (x ∷ xs) s =
      unpack-bare c x (λ u. updates c sender editable (map bare xs) (update c sender editable u s))
        (λ u n. ap (updates c sender editable (map bare xs)) (update-row u n s))
      ∙ ap (λ (f : Unpacked → Result Shown). unpack c x >>= f)
          (fun_ext (λ (u : Unpacked). updates-bare xs (update c sender editable u s)))

  updates-skip :
      (a : Joined) (u : Unpacked)
      → unpack c a ≡ ok u
      → (xs : List Joined) → All (λ b. b.id ≡ a.id → b ≡ a) xs
      → (s : Shown) → any (λ t. t == a.id) s.seen ≡ true
      → updates c sender editable xs s
        ≡ updates c sender editable (retain (λ (b : Joined). not (b.id == a.id)) xs) s
  unfolding updates
  updates-skip a u k [] h s seen = refl
  updates-skip a u k (x ∷ xs) h s seen = elim (Bool-cases (x.id == a.id)) [
    | inl e ↦
        let x_ok : unpack c x ≡ ok u = rw (h.0 (==→≡ x.id a.id e)) k in
        let seen' : any (λ t. t == u.id) s.seen ≡ true = rw (unpack-id c a u k) seen in
        rw (e, x_ok, update-skips u s seen') (updates-skip a u k xs h.1 s seen)
    | inr e ↦ elim (Result-cases (unpack c x)) [
      | inr (m, f) ↦ rw (e, f) refl
      | inl (v, f) ↦
          rw (e, f)
            (updates-skip a u k xs h.1 (update c sender editable v s) (update-seen v s a.id seen))
    ]
  ]

  updates-strip :
      (xs : List Joined) (s : Shown)
      → Determined xs
      → updates c sender editable xs s ≡ updates c sender editable (strip xs) s
  unfolding updates strip
  updates-strip [] s d = refl
  updates-strip (x ∷ xs) s d = elim (Result-cases (unpack c x)) [
    | inr (m, f) ↦ rw f refl
    | inl (u, f) ↦
        let s' = update c sender editable u s in
        let own : any (λ t. t == x.id) s'.seen ≡ true =
          subst (λ (t : Text). any (λ r. r == t) s'.seen ≡ true) (unpack-id c x u f)
            (update-own u s) in
        rw f (
          updates-strip xs s' (λ a b i j. d a b (inr i) (inr j))
          ∙ updates-skip x u f (strip xs)
              (In-All (λ b. b.id ≡ x.id → b ≡ x) (strip xs)
                (λ b i q. d b x (inr (strip-In b xs i)) (inl refl) q))
              s' own)
  ]

-- The rows say the same, in whatever order they came.
pub record SameEvents (xs ys : List Joined) : Type 0 where
  pub forth : (f : Joined) → In f (map bare xs) → In f (map bare ys)
  pub back : (f : Joined) → In f (map bare ys) → In f (map bare xs)
  pub determined : Determined (map bare xs)

module _ (c : EventCodec) (sender : Text) (editable : Bool) where
  pub updates-same :
      (xs ys : List Joined) (s : Shown)
      → SameEvents xs ys
      → updates c sender editable (order_rows xs) s ≡ updates c sender editable (order_rows ys) s
  updates-same xs ys s same =
      let l = map bare (order_rows xs) in
      let r = map bare (order_rows ys) in
      let to_l = λ (f : Joined) (i : In f l). order_rows-In f xs i in
      let to_r = λ (f : Joined) (i : In f r). order_rows-In f ys i in
      let dl : Determined l = λ a b i j. same.determined a b (to_l a i) (to_l b j) in
      let dr : Determined r =
        λ a b i j. same.determined a b (same.back a (to_r a i)) (same.back b (to_r b j)) in
      let forth = λ (f : Joined) (i : In f (strip l)).
        In-strip f r dr (In-order_rows f ys (same.forth f (to_l f (strip-In f l i)))) in
      let back = λ (f : Joined) (i : In f (strip r)).
        In-strip f l dl (In-order_rows f xs (same.back f (to_r f (strip-In f r i)))) in
      sym (updates-bare c sender editable (order_rows xs) s)
      ∙ updates-strip c sender editable l s dl
      ∙ ap (λ (z : List Joined). updates c sender editable z s)
          (Ordered-unique Strict-apart (strip l) (strip r) (strip-Ordered l (order_rows-Ordered xs))
            (strip-Ordered r (order_rows-Ordered ys)) forth back)
      ∙ sym (updates-strip c sender editable r s dr)
      ∙ updates-bare c sender editable (order_rows ys) s
