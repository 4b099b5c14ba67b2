-- ===== src/Client/Rekey/Blocked.antt =====
-- Which messages of the outbox rekey.rs holds back.
use epochgrid.Base.{
  ℕ, List, [], ◌∷◌, nat_eq, bytes_eq, ◌&&◌, not, Bool, true, false, Bool-cases, text, ok, >>=-eq-ok,
  is_empty, ◌≡◌, refl, sym, ap, ◌∙◌, ◌⊎◌, inl, inr, subst,
}
use epochgrid.Base.Members.{In}
use epochgrid.Client.Tables.{Tables, Group, MlsGroup}
use epochgrid.Client.Groups.{load_group, subject_of}
use epochgrid.Client.Rekey.Waiting.{
  Waits, block_subject-keeps, block_subject-holds, block_subject-only,
}
use epochgrid.Client.Rekey.{revoked_leaves, block_subject, block_groups, block_revoked_outbox}

ok_injective {ℓ} : {A : Type ℓ} {a b : A} → ok a ≡ ok b → a ≡ b
ok_injective h = cc

-- This device may not send to the group: it is out of it, or a revoked device is still in it.
abbrev pub is_closed : Tables → MlsGroup → Bool
is_closed t m = not (m.is_active && is_empty (revoked_leaves t m))

-- A group to which it may not, with a message that waits for it.
pub record Held (groups : List Group) (t : Tables) (n : ℕ) : Type 0 where
  pub g : Group
  pub m : MlsGroup
  pub listed : In g groups
  pub loaded : load_group g t ≡ ok m
  pub closed : is_closed t m ≡ true
  pub waits : Waits (subject_of g (text "message")) t.outbox n

-- The tables when the messages of some of the groups are held back.
pub record Holds (groups : List Group) (t t' : Tables) : Type 0 where
  pub rest : t' ≡ record t { blocked = t'.blocked }
  pub kept : (n : ℕ) → In n t.blocked → In n t'.blocked
  pub held : (n : ℕ) → Held groups t n → In n t'.blocked
  pub only : (n : ℕ) → In n t'.blocked → In n t.blocked ⊎ Held groups t n

Held-later :
    (g : Group) (rest : List Group) (t : Tables) (n : ℕ) → Held rest t n → Held (g ∷ rest) t n
Held-later g rest t n w = record {
  g = w.g;
  m = w.m;
  listed = inr w.listed;
  loaded = w.loaded;
  closed = w.closed;
  waits = w.waits;
}

module _ (g : Group) (rest : List Group) (t : Tables) (m : MlsGroup)
    (loaded : load_group g t ≡ ok m) where
  -- The group at the head is this one, or it is one of the others.
  head-or :
      (n : ℕ)
      → Held (g ∷ rest) t n
      → ((is_closed t m ≡ true) × Waits (subject_of g (text "message")) t.outbox n) ⊎ Held rest t n
  head-or n w =
      elim w.listed
        as (λ i.
          ((is_closed t m ≡ true) × Waits (subject_of g (text "message")) t.outbox n)
          ⊎ Held rest t n) [
            | inl q ↦
                let same : ok w.m ≡ ok m = sym w.loaded ∙ ap (λ x. load_group x t) q ∙ loaded in
                inl (
                  subst (λ x. is_closed t x ≡ true) (ok_injective same) w.closed,
                  subst (λ x. Waits (subject_of x (text "message")) t.outbox n) q w.waits,
                )
            | inr i ↦ inr (record {
              g = w.g;
              m = w.m;
              listed = i;
              loaded = w.loaded;
              closed = w.closed;
              waits = w.waits;
            })
          ]

  open-Holds : (t' : Tables) → is_closed t m ≡ false → Holds rest t t' → Holds (g ∷ rest) t t'
  open-Holds t' e h = record {
    rest = h.rest;
    kept = h.kept;
    held = λ n w. elim (head-or n w) [ inl p ↦ absurd (cc) | inr v ↦ h.held n v ];
    only = λ n i. elim (h.only n i) [ inl j ↦ inl j | inr w ↦ inr (Held-later g rest t n w) ];
  }

  abbrev blocked : List ℕ
  blocked = block_subject (subject_of g (text "message")) t.outbox t.blocked

  -- The column of what is held back has no part in what is closed.
  Held-blocked : (n : ℕ) → Held rest (record t { blocked = blocked }) n → Held rest t n
  unfolding load_group revoked_leaves
  Held-blocked n w = record {
    g = w.g;
    m = w.m;
    listed = w.listed;
    loaded = w.loaded;
    closed = w.closed;
    waits = w.waits;
  }

  blocked-Held : (n : ℕ) → Held rest t n → Held rest (record t { blocked = blocked }) n
  unfolding load_group revoked_leaves
  blocked-Held n w = record {
    g = w.g;
    m = w.m;
    listed = w.listed;
    loaded = w.loaded;
    closed = w.closed;
    waits = w.waits;
  }

  head-blocked : (n : ℕ) → Waits (subject_of g (text "message")) t.outbox n → In n blocked
  head-blocked n w =
      subst (λ x. In x blocked) w.named
        (block_subject-holds (subject_of g (text "message")) t.outbox t.blocked w.row w.there
          w.unsent w.addressed)

  closed-Holds :
      (t' : Tables)
      → is_closed t m ≡ true
      → Holds rest (record t { blocked = blocked }) t'
      → Holds (g ∷ rest) t t'
  closed-Holds t' e h = record {
    rest = h.rest;
    kept = λ n i.
        h.kept n (block_subject-keeps (subject_of g (text "message")) t.outbox t.blocked n i);
    held = λ n w. elim (head-or n w) [
      | inl (c, v) ↦ h.kept n (head-blocked n v)
      | inr v ↦ h.held n (blocked-Held n v)
    ];
    only = λ n i. elim (h.only n i) [
      | inr w ↦ inr (Held-later g rest t n (Held-blocked n w))
      | inl j ↦ elim (block_subject-only (subject_of g (text "message")) t.outbox t.blocked n j) [
        | inl k ↦ inl k
        | inr v ↦
            inr (record { g = g; m = m; listed = inl refl; loaded = loaded; closed = e; waits = v })
      ]
    ];
  }

groups-Holds :
    (groups : List Group) (t t' : Tables) → block_groups groups t ≡ ok t' → Holds groups t t'
unfolding block_groups
groups-Holds [] t t' h =
    subst (Holds [] t) (ok_injective h)
      (record { rest = refl; kept = λ n i. i; held = λ n w. absurd w.listed; only = λ n i. inl i })
groups-Holds (g ∷ rest) t t' h =
    let (m, loaded, h1) = >>=-eq-ok (load_group g t) _ h in
    elim (Bool-cases (m.is_active && is_empty (revoked_leaves t m))) [
      | inl e ↦ open-Holds g rest t m loaded t' (rw e refl) (groups-Holds rest t t' (rw e at h1))
      | inr e ↦
          closed-Holds g rest t m loaded t' (rw e refl)
            (groups-Holds rest (record t { blocked = blocked g rest t m loaded }) t' (rw e at h1))
    ]

-- `block_revoked_outbox`, where it succeeds, holds back exactly those unsent chat messages, beside
-- what was held back before, whose group this device has left or still has a revoked device among
-- its members; nothing else in the store changes.
pub block_revoked_outbox-Holds :
    (t t' : Tables) → block_revoked_outbox t ≡ ok t' → Holds t.groups t t'
unfolding block_revoked_outbox
block_revoked_outbox-Holds t t' h = groups-Holds t.groups t t' h
