-- ===== src/Client/Rekey/Waiting.antt =====
-- The unsent messages with a subject, which rekey.rs holds back.
use epochgrid.Base.{
  ℕ, List, [], ◌∷◌, ◌++◌, ◌==◌, nat_eq, bytes_eq, ==→≡, ==_refl, ◌&&◌, not, Bool, true, false,
  Bool-cases, if◌then◌else◌, Text, ◌≡◌, refl, sym, ◌⊎◌, inl, inr, subst, arith,
}
use epochgrid.Base.Members.{In, In-append, In-left, In-right}
use epochgrid.Client.Tables.{Outgoing}
use epochgrid.Client.Rekey.{contains, block_subject}

-- An unsent message with a subject.
pub record Waits (subject : Text) (rows : List Outgoing) (id : ℕ) : Type 0 where
  pub row : Outgoing
  pub there : In row rows
  pub unsent : row.sent ≡ false
  pub addressed : row.subject ≡ subject
  pub named : row.id ≡ id

contains-In : (ns : List ℕ) (n : ℕ) → contains ns n ≡ true → In n ns
contains-In [] n h = absurd (cc)
contains-In (m ∷ ns) n h = elim (Bool-cases (m == n)) [
  | inl e ↦ inl (sym (==→≡ m n e))
  | inr e ↦ inr (contains-In ns n (rw e at h))
]

abbrev holds : Text → Outgoing → List ℕ → Bool
holds subject o blocked = not o.sent && o.subject == subject && not (contains blocked o.id)

abbrev step : Text → Outgoing → List ℕ → List ℕ
step subject o blocked = if holds subject o blocked then blocked ++ o.id ∷ [] else blocked

step-keeps :
    (subject : Text) (o : Outgoing) (blocked : List ℕ) (n : ℕ)
    → In n blocked
    → In n (step subject o blocked)
step-keeps subject o blocked n i = elim (Bool-cases (holds subject o blocked)) [
  | inl e ↦ rw e (In-left blocked (o.id ∷ []) n i)
  | inr e ↦ rw e i
]

step-holds :
    (subject : Text) (o : Outgoing) (blocked : List ℕ)
    → o.sent ≡ false
    → o.subject ≡ subject
    → In o.id (step subject o blocked)
step-holds subject o blocked u a = elim (Bool-cases (contains blocked o.id)) [
  | inl e ↦ step-keeps subject o blocked o.id (contains-In blocked o.id e)
  | inr e ↦
      let h : holds subject o blocked ≡ true = rw (u, e, a, ==_refl subject) refl in
      rw h (In-right blocked (o.id ∷ []) o.id (inl refl))
]

step-only :
    (subject : Text) (o : Outgoing) (rest : List Outgoing) (blocked : List ℕ) (n : ℕ)
    → In n (step subject o blocked)
    → In n blocked ⊎ Waits subject (o ∷ rest) n
step-only subject o rest blocked n i = elim (Bool-cases (holds subject o blocked)) [
  | inr e ↦ inl (rw e at i)
  | inl e ↦ elim (In-append blocked (o.id ∷ []) n (rw e at i)) [
    | inl j ↦ inl j
    | inr (inr j) ↦ absurd j
    | inr (inl q) ↦ inr (record {
      row = o;
      there = inl refl;
      unsent = ground arith;
      addressed = ==→≡ o.subject subject (ground arith);
      named = sym q;
    })
  ]
]

Waits-later :
    (subject : Text) (o : Outgoing) (rest : List Outgoing) (n : ℕ)
    → Waits subject rest n
    → Waits subject (o ∷ rest) n
Waits-later subject o rest n w = record {
  row = w.row;
  there = inr w.there;
  unsent = w.unsent;
  addressed = w.addressed;
  named = w.named;
}

pub block_subject-keeps :
    (subject : Text) (rows : List Outgoing) (blocked : List ℕ) (n : ℕ)
    → In n blocked
    → In n (block_subject subject rows blocked)
unfolding block_subject
block_subject-keeps subject [] blocked n i = i
block_subject-keeps subject (o ∷ rest) blocked n i =
    block_subject-keeps subject rest (step subject o blocked) n (step-keeps subject o blocked n i)

pub block_subject-holds :
    (subject : Text) (rows : List Outgoing) (blocked : List ℕ) (o : Outgoing)
    → In o rows
    → o.sent ≡ false
    → o.subject ≡ subject
    → In o.id (block_subject subject rows blocked)
unfolding block_subject
block_subject-holds subject [] blocked o i u a = absurd i
block_subject-holds subject (x ∷ rest) blocked o (inl q) u a =
    block_subject-keeps subject rest (step subject x blocked) o.id
      (subst (λ y. In o.id (step subject y blocked)) q (step-holds subject o blocked u a))
block_subject-holds subject (x ∷ rest) blocked o (inr i) u a =
    block_subject-holds subject rest (step subject x blocked) o i u a

pub block_subject-only :
    (subject : Text) (rows : List Outgoing) (blocked : List ℕ) (n : ℕ)
    → In n (block_subject subject rows blocked)
    → In n blocked ⊎ Waits subject rows n
unfolding block_subject
block_subject-only subject [] blocked n i = inl i
block_subject-only subject (o ∷ rest) blocked n i =
    elim (block_subject-only subject rest (step subject o blocked) n i) [
      | inr w ↦ inr (Waits-later subject o rest n w)
      | inl j ↦ step-only subject o rest blocked n j
    ]
