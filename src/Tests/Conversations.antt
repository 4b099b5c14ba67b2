-- ===== src/Tests/Conversations.antt =====
-- Application events and what a conversation shows of them: the theorems at concrete events.
use mathlib.Core.List.{map}
use epochgrid.Base.{
  ℕ, List, [], ◌∷◌, ◌++◌, true, false, Bool, Bytes, Text, text, Option, none, some, ok, ◌≡◌, ◌↔◌,
  refl, sym, ap, subst, ◌∙◌, ◌⊎◌, inl, inr, ◌==◌, nat_eq, bytes_eq, ◌&&◌, if◌then◌else◌, arith,
  ℕ_discrete, bytes_discrete, from_utf8_lossy, Bool-cases,
}
use epochgrid.Base.Members.{In}
use epochgrid.Attachments.{ManifestCodec, decode_manifest, display}
use epochgrid.Conversation.Event.{
  Relation, reaction, ApplicationEvent, EventCodec, wire, decode_event, event_prefix,
}
use epochgrid.Conversation.RoundTrip.{IsCodec, decode_iff-wire}
use epochgrid.Conversation.Ordered.{insert_pair, insert_text, add_under, split_once, join_comma}
use epochgrid.Conversation.Projection.{
  Joined, Unpacked, projected, projected_root, unpack, update, updates, apply_relation, first_with,
  application, relates, insert_row, order_rows, by_value, found, with_parent,
}
use epochgrid.Conversation.UpdateOrder.{bare}
use epochgrid.Conversation.Same.{SameEvents}
use epochgrid.Conversation.Projected.{projected-same}

abbrev pub nonce : Bytes
nonce = 1 ∷ 2 ∷ []

abbrev is_none : Option Relation → Bool
is_none none = true
is_none (some r) = false

abbrev pub hello : ApplicationEvent
hello = record { nonce = nonce; counter = 1; content = text "hello"; relation = none }

abbrev pub thumb : Bool → ApplicationEvent
thumb add = record {
  nonce = nonce;
  counter = 2;
  content = [];
  relation = some (reaction (7 ∷ []) (text "+1") add);
}

abbrev is_hello : ApplicationEvent → Bool
is_hello e =
    e.nonce == hello.nonce
    && e.counter == hello.counter
    && e.content == hello.content
    && is_none e.relation

-- An encoding of one event.
abbrev greeting : EventCodec
greeting = record {
  bytes_of = λ e. if is_hello e then some (1 ∷ []) else none;
  take_event = λ b. if b == 1 ∷ [] then some (hello, []) else none;
  application_id = λ gid sender wire. some (gid ++ sender ++ wire);
  legacy_id = λ gid ciphertext. some (gid ++ ciphertext);
}

is_none-none : (r : Option Relation) → is_none r ≡ true → r ≡ none
is_none-none none h = refl
is_none-none (some r) h = cc

some_eq : {a b : Bytes} → some a ≡ some b → a ≡ b
some_eq h = cc

is_hello-eq : (e : ApplicationEvent) → is_hello e ≡ true → e ≡ hello
is_hello-eq e h =
    let n : e.nonce ≡ nonce = ground arith in
    let k : e.counter ≡ 1 = ground arith in
    let t : e.content ≡ text "hello" = ground arith in
    let r : e.relation ≡ none = is_none-none e.relation (ground arith) in
    λ i. record { nonce = n i; counter = k i; content = t i; relation = r i }

greeting-IsCodec : IsCodec greeting
greeting-IsCodec = record {
  read_back = λ e b h. elim (Bool-cases (is_hello e)) [
    | inl q ↦
        let one : 1 ∷ [] ≡ b = some_eq (rw q at h) in
        subst (λ (x : Bytes). greeting.take_event x ≡ some (e, [])) one
          (unfold ℕ_discrete bytes_discrete in
            ap (λ (x : ApplicationEvent). some (x, [])) (sym (is_hello-eq e q)))
    | inr q ↦ absurd (ground arith)
  ];
  short = λ e b h. ground arith;
}

decode_iff-wire_example :
    (decode_event greeting (event_prefix ++ 1 ∷ 1 ∷ []) ≡ ok (some hello))
    ↔ (wire greeting hello ≡ ok (event_prefix ++ 1 ∷ 1 ∷ []))
decode_iff-wire_example =
    decode_iff-wire greeting greeting-IsCodec hello (event_prefix ++ 1 ∷ 1 ∷ [])

-- A codec that knows a message and two reactions to it.
abbrev reactions : EventCodec
reactions = record greeting {
  take_event = λ b.
      if b == 1 ∷ []
      then some (hello, [])
      else if b == 2 ∷ []
      then some (thumb true, [])
      else if b == 3 ∷ []
      then some (thumb false, [])
      else none;
}

abbrev no_manifests : ManifestCodec
no_manifests = record { bytes_of = λ m. none; take = λ b. none }

abbrev seven : Text
seven = 48 ∷ 55 ∷ []

abbrev nine : Text
nine = 48 ∷ 57 ∷ []

abbrev hello_row : ℕ → Joined
hello_row row = record {
  row = row;
  sender = some (text "ann/pc");
  id = seven;
  target = none;
  kind = 0;
  counter = 1;
  event = 1 ∷ [];
  sequence = some row;
}

abbrev thumb_row : ℕ → Joined
thumb_row row = record {
  row = row;
  sender = some (text "bob/pc");
  id = nine;
  target = some (seven);
  kind = 3;
  counter = 2;
  event = 2 ∷ [];
  sequence = none;
}

abbrev root_of : ℕ → Unpacked
root_of row = record { row = row; sender = text "ann/pc"; id = seven; event = hello }

abbrev first_device : List Joined
first_device = hello_row 1 ∷ thumb_row 2 ∷ []

-- The reaction came first, and again.
abbrev second_device : List Joined
second_device = thumb_row 1 ∷ hello_row 2 ∷ thumb_row 3 ∷ []

shown :
    projected reactions no_manifests first_device (root_of 1)
    ≡ ok (text "hello" ++ (10 ∷ text "[reaction +1: bob]"))
unfolding projected projected_root unpack update updates apply_relation first_with application
    relates insert_row order_rows by_value found with_parent display decode_manifest insert_pair
    insert_text add_under split_once join_comma from_utf8_lossy ℕ_discrete bytes_discrete
shown = refl

abbrev IsKnown : Joined → Type 0
IsKnown f = (f ≡ bare (hello_row 0)) ⊎ (f ≡ bare (thumb_row 0))

known : (f : Joined) → In f (map bare first_device) → IsKnown f
known f (inl q) = inl q
known f (inr (inl q)) = inr q
known f (inr (inr i)) = absurd i

ids_differ : seven ≡ nine → ⊥
ids_differ h = ground arith

known-one : (a b : Joined) → IsKnown a → IsKnown b → a.id ≡ b.id → a ≡ b
known-one a b (inl p) (inl q) h = p ∙ sym q
known-one a b (inr p) (inr q) h = p ∙ sym q
known-one a b (inl p) (inr q) h =
    absurd (ids_differ (sym (ap (λ (x : Joined). x.id) p) ∙ h ∙ ap (λ (x : Joined). x.id) q))
known-one a b (inr p) (inl q) h =
    absurd (ids_differ (sym (ap (λ (x : Joined). x.id) q) ∙ sym h ∙ ap (λ (x : Joined). x.id) p))

devices_agree : SameEvents first_device second_device
devices_agree = record {
  forth = λ f i. elim (known f i) [ inl q ↦ inr (inl q) | inr q ↦ inl q ];
  back = λ f i. second f i;
  determined = λ a b i j. known-one a b (known a i) (known b j);
}
  where
    second : (f : Joined) → In f (map bare second_device) → In f (map bare first_device)
    second f (inl q) = inr (inl q)
    second f (inr (inl q)) = inl q
    second f (inr (inr (inl q))) = inr (inl q)
    second f (inr (inr (inr i))) = absurd i

projected-same_example :
    projected reactions no_manifests first_device (root_of 1)
    ≡ projected reactions no_manifests second_device (root_of 2)
projected-same_example =
    projected-same reactions no_manifests first_device second_device devices_agree (root_of 1) 2
