-- ===== src/Conversation/Projected.antt =====
-- `application` and `projected` of relationships.rs over rows that say the same.
use mathlib.Core.Option
use epochgrid.Base.{
  ℕ, List, [], ◌∷◌, ◌++◌, map, retain, ◌==◌, nat_eq, bytes_eq, subst, text, ==→≡, Bool, false, Text,
  Bytes, Option, none, some, Result, ok, Result-cases, ◌>>=◌, ◌≡◌, refl, sym, ap, ◌∙◌, ◌⊎◌, inl,
  inr, arith, Bool-cases, if◌then◌else◌, is_utf8, context,
}
use epochgrid.Attachments.{ManifestCodec, display}
use epochgrid.Conversation.Event.{
  Relation, reply_to, replace, reaction, EventCodec, is_root, short_id, id_text, target_of,
}
use epochgrid.Base.Members.{In, In-retain, retain-In}
use epochgrid.Conversation.Projection.{
  Joined, Unpacked, Shown, unpack, updates, earlier, sequence_leb, found, with_parent, control,
  projected_root, parent_name, application, first_with, relates, order_rows, projected,
}
use epochgrid.Conversation.UpdateOrder.{bare}
use epochgrid.Conversation.Same.{SameEvents, unpack-bare, updates-same}

map-retain :
    (p : Joined → Bool)
    → ((a : Joined) → p (bare a) ≡ p a)
    → (xs : List Joined) → map bare (retain p xs) ≡ retain p (map bare xs)
map-retain p h [] = refl
map-retain p h (x ∷ xs) = elim (Bool-cases (p x)) [
  | inl e ↦ rw (h x, e) (ap (λ (l : List Joined). bare x ∷ l) (map-retain p h xs))
  | inr e ↦ rw (h x, e) (map-retain p h xs)
]

retain-SameEvents :
    (p : Joined → Bool)
    → ((a : Joined) → p (bare a) ≡ p a)
    → (xs ys : List Joined) → SameEvents xs ys
    → SameEvents (retain p xs) (retain p ys)
retain-SameEvents p h xs ys same = record {
  forth = λ f i.
      let (j, t) = In-retain p (map bare xs) f (rw (← map-retain p h xs) i) in
      rw (map-retain p h ys) (retain-In p (map bare ys) f (same.forth f j) t);
  back = λ f i.
      let (j, t) = In-retain p (map bare ys) f (rw (← map-retain p h ys) i) in
      rw (map-retain p h xs) (retain-In p (map bare xs) f (same.back f j) t);
  determined = λ a b i j q.
      same.determined a b (In-retain p (map bare xs) a (rw (← map-retain p h xs) i)).0
        (In-retain p (map bare xs) b (rw (← map-retain p h xs) j)).0 q;
}

-- The first row of an identifier, or that there is none.
FirstOf : Text → List Joined → Option Joined → Type 0
FirstOf id xs none = (f : Joined) → In f (map bare xs) → (f.id == id) ≡ false
FirstOf id xs (some a) = In (bare a) (map bare xs) × (a.id ≡ id)

earlier-one : (a b : Joined) → (earlier a (some b) ≡ a) ⊎ (earlier a (some b) ≡ b)
earlier-one a b = elim (Bool-cases (sequence_leb a.sequence a.row b.sequence b.row)) [
  | inl e ↦ inl (rw e refl)
  | inr e ↦ inr (rw e refl)
]

first-step :
    (id : Text) (x : Joined) (xs : List Joined) (o : Option Joined)
    → FirstOf id xs o
    → x.id ≡ id
    → FirstOf id (x ∷ xs) (some (earlier x o))
unfolding FirstOf
first-step id x xs none h q = (inl refl, q)
first-step id x xs (some b) h q =
    let P : Joined → Type 0 = λ y. In (bare y) (map bare (x ∷ xs)) × (y.id ≡ id) in
    elim (earlier-one x b) [
      | inl e ↦ subst P (sym e) (inl refl, q)
      | inr e ↦ subst P (sym e) (inr h.0, h.1)
    ]

first-skip :
    (id : Text) (x : Joined) (xs : List Joined) (o : Option Joined)
    → FirstOf id xs o
    → (x.id == id) ≡ false
    → FirstOf id (x ∷ xs) o
unfolding FirstOf
first-skip id x xs none h e = λ f i. elim i [ inl q ↦ rw q e | inr j ↦ h f j ]
first-skip id x xs (some b) h e = (inr h.0, h.1)

first_with-FirstOf : (id : Text) (xs : List Joined) → FirstOf id xs (first_with id xs)
unfolding first_with
first_with-FirstOf id [] = nothing
  where
    nothing : FirstOf id [] none
    nothing = unfold FirstOf in λ f i. absurd i
first_with-FirstOf id (x ∷ xs) = elim (Bool-cases (x.id == id)) [
  | inl e ↦ rw e (first-step id x xs (first_with id xs) (first_with-FirstOf id xs) (==→≡ x.id id e))
  | inr e ↦ rw e (first-skip id x xs (first_with id xs) (first_with-FirstOf id xs) e)
]

first-both :
    (id : Text) (xs ys : List Joined)
    → SameEvents xs ys
    → (o r : Option Joined) → FirstOf id xs o
    → FirstOf id ys r
    → Option.map bare o ≡ Option.map bare r
unfolding FirstOf
first-both id xs ys same none none h k = refl
first-both id xs ys same none (some b) h k =
    absurd (ground (arith, h (bare b) (same.back (bare b) k.0), k.1))
first-both id xs ys same (some a) none h k =
    absurd (ground (arith, k (bare a) (same.forth (bare a) h.0), h.1))
first-both id xs ys same (some a) (some b) h k =
    ap some (same.determined (bare a) (bare b) h.0 (same.back (bare b) k.0) (h.1 ∙ sym k.1))

module _ {T : Type 0} (c : EventCodec) (next : Option Unpacked → Result T)
    (rowless : (u : Unpacked) (n : ℕ) → next (some (record u { row = n })) ≡ next (some u)) where
  found-next : (a : Joined) → (found c (some a) >>= next) ≡ (unpack c a >>= λ u. next (some u))
  unfolding found
  found-next a = elim (Result-cases (unpack c a)) [
    | inl (u, e) ↦ rw e refl
    | inr (m, e) ↦ rw e refl
  ]

  found-bare :
      (o r : Option Joined)
      → Option.map bare o ≡ Option.map bare r
      → (found c o >>= next) ≡ (found c r >>= next)
  found-bare none none h = refl
  found-bare none (some b) h = cc
  found-bare (some a) none h = cc
  found-bare (some a) (some b) h =
      let same : bare a ≡ bare b = cc in
      found-next a
      ∙ sym (unpack-bare c a (λ u. next (some u)) rowless)
      ∙ ap (λ (x : Joined). unpack c x >>= λ u. next (some u)) same
      ∙ unpack-bare c b (λ u. next (some u)) rowless
      ∙ sym (found-next b)

  application-same :
      (xs ys : List Joined) (id : Bytes)
      → SameEvents xs ys
      → (application c xs id >>= next) ≡ (application c ys id >>= next)
  unfolding application
  application-same xs ys id same =
      (found-bare (first_with (id_text id) xs) (first_with (id_text id) ys) (
        first-both (id_text id) xs ys same (first_with (id_text id) xs) (first_with (id_text id) ys)
          (first_with-FirstOf (id_text id) xs) (first_with-FirstOf (id_text id) ys)))

module _ (c : EventCodec) (m : ManifestCodec) (xs ys : List Joined) (same : SameEvents xs ys) where
  with_parent-same :
      (r : Option Relation) (shown : Text) → with_parent c m xs r shown ≡ with_parent c m ys r shown
  unfolding with_parent
  with_parent-same none shown = refl
  with_parent-same (some (replace id)) shown = refl
  with_parent-same (some (reaction id value add)) shown = refl
  with_parent-same (some (reply_to id)) shown =
      application-same c
        (λ p. ok (
          text "[reply to "
          ++ parent_name p
          ++ text " "
          ++ short_id id
          ++ (text "]" ++ 10 ∷ [])
          ++ shown))
        (λ u n. refl) xs ys id same

  related-same :
      (id sender : Text) (editable : Bool) (s : Shown)
      → updates c sender editable (order_rows (retain (relates id) xs)) s
        ≡ updates c sender editable (order_rows (retain (relates id) ys)) s
  unfolding relates
  related-same id sender editable s =
      updates-same c sender editable (retain (relates id) xs) (retain (relates id) ys) s
        (retain-SameEvents (relates id) (λ a. refl) xs ys same)

  root-same : (root : Unpacked) → projected_root c m xs root ≡ projected_root c m ys root
  unfolding projected_root
  root-same root =
      let editable = is_utf8 root.event.content in
      let first : Shown = record {
        seen = [];
        content = root.event.content;
        edited = false;
        reactions = [];
      } in
      rw (related-same root.id root.sender editable first)
        (elim (Result-cases
          (updates c root.sender editable (order_rows (retain (relates root.id) ys)) first)) [
            | inr (e, k) ↦ rw k refl
            | inl (s, k) ↦
                rw
                  (
                    k,
                    with_parent-same root.event.relation (
                        if s.edited
                        then display m s.content ++ text " [edited]"
                        else display m s.content),
                  )
                  refl
          ])

  control-same :
      (root : Unpacked) (r : Option Relation)
      → ((context r "control relation missing") >>= λ relation.
          application c xs (target_of relation) >>= control c m root relation)
        ≡ ((context r "control relation missing") >>= λ relation.
            application c ys (target_of relation) >>= control c m root relation)
  control-same root none = refl
  control-same root (some relation) =
      application-same c (control c m root relation) (unfold control in λ u n. refl) xs ys
        (target_of relation) same

-- Two devices that hold the same events of a group, where an identifier names one event, show the
-- same text for a message or a control event, whatever order the events arrived in, however often
-- each was stored, and whatever place in the stream each has.
pub projected-same :
    (c : EventCodec) (m : ManifestCodec) (xs ys : List Joined)
    → SameEvents xs ys
    → (root : Unpacked) (row : ℕ)
    → projected c m xs root ≡ projected c m ys (record root { row = row })
unfolding projected
projected-same c m xs ys same root row = elim (Bool-cases (is_root root.event.relation)) [
  | inl e ↦ rw e (root-same c m xs ys same root ∙ unfold projected_root in refl)
  | inr e ↦ rw e (control-same c m xs ys same root root.event.relation ∙ unfold control in refl)
]
