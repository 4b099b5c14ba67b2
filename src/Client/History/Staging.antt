-- ===== src/Client/History/Staging.antt =====
-- `stage_chat` of history.rs: the staged ciphertexts as a record of the stream.
use epochgrid.Base.{
  ℕ, ◌<◌, ◌≤◌, ◌^◌, List, [], ◌∷◌, length, All, ltb, leb, ◌==◌, nat_eq, bytes_eq, ==→≡, ◌&&◌, false,
  Bytes, Text, Option, none, some, ok, err, Bool-cases, >>=-eq-ok, String, ◌≡◌, refl, sym, subst,
  ◌⊎◌, inl, inr, arith, if◌then◌else◌, i64_max,
}
use epochgrid.Base.Members.{Ordered}
use epochgrid.Wire.{max_wire}
use epochgrid.Capacity.{Capacity, check_database}
use epochgrid.Store.{Sqlite, transaction_atomic}
use epochgrid.Client.History.{Delivery, pending, Store, insert_delivery, at, stage_row, stage_chat}
use epochgrid.Client.History.Progress.{Before}

at-insert :
    (d : Delivery) (rows : List Delivery) (n : ℕ)
    → at d.sequence rows ≡ none
    → at n (insert_delivery d rows) ≡ (if d.sequence == n then some d else at n rows)
unfolding insert_delivery
at-insert d [] n h = refl
at-insert d (e ∷ rest) n h = elim (Bool-cases (ltb d.sequence e.sequence)) [
  | inl q ↦ rw q refl
  | inr q ↦ rw q (ground (arith, at-insert d rest n))
]

insert-All :
    (e d : Delivery) (rows : List Delivery)
    → Before e d
    → All (Before e) rows
    → All (Before e) (insert_delivery d rows)
unfolding insert_delivery
insert-All e d [] b h = (b, tt)
insert-All e d (x ∷ xs) b h = elim (Bool-cases (ltb d.sequence x.sequence)) [
  | inl q ↦ rw q (b, h)
  | inr q ↦ rw q (h.0, insert-All e d xs b h.1)
]

below-All :
    (d e : Delivery) (rows : List Delivery) → Before d e → All (Before e) rows → All (Before d) rows
below-All d e [] b h = tt
below-All d e (x ∷ xs) b h = (omega (arith, b, h.0), below-All d e xs b h.1)

insert-Ordered :
    (d : Delivery) (rows : List Delivery)
    → at d.sequence rows ≡ none
    → Ordered Before rows
    → Ordered Before (insert_delivery d rows)
unfolding insert_delivery
insert-Ordered d [] h o = (tt, tt)
insert-Ordered d (x ∷ xs) h o = elim (Bool-cases (ltb d.sequence x.sequence)) [
  | inl q ↦ let b : Before d x = ground arith in rw q ((b, below-All d x xs b o.0), o)
  | inr q ↦ elim (Bool-cases (x.sequence == d.sequence)) [
    | inl k ↦ absurd (ground arith)
    | inr k ↦
        let b : Before x d = ground arith in
        rw q (insert-All x d xs b o.0, insert-Ordered d xs (ground arith) o.1)
  ]
]

-- What a delivery that was staged leaves.
pub record Staged (sequence : ℕ) (subject : Text) (payload : Bytes) (s s' : Store) : Type 0 where
  pub row : Delivery
  pub there : at sequence s'.deliveries ≡ some row
  pub same_subject : row.subject ≡ subject
  pub same_payload : row.payload ≡ payload
  pub kept : (n : ℕ) (d : Delivery) → at n s.deliveries ≡ some d → at n s'.deliveries ≡ some d
  pub others :
      (n : ℕ) (d : Delivery)
      → at n s'.deliveries ≡ some d
      → (n ≡ sequence) ⊎ (at n s.deliveries ≡ some d)
  pub ordered : Ordered Before s'.deliveries
  pub tables : s'.tables ≡ s.tables

abbrev new_row : ℕ → Text → Bytes → Delivery
new_row sequence subject payload = record {
  sequence = sequence;
  subject = subject;
  payload = payload;
  state = pending;
}

inserted-Staged :
    (sequence : ℕ) (subject : Text) (payload : Bytes) (s : Store)
    → Ordered Before s.deliveries
    → at sequence s.deliveries ≡ none
    → Staged sequence subject payload s
        (record s { deliveries = insert_delivery (new_row sequence subject payload) s.deliveries })
inserted-Staged sequence subject payload s o h =
    let d = new_row sequence subject payload in
    let look = λ (n : ℕ). at-insert d s.deliveries n h in
    record {
      row = d;
      there = ground (arith, look sequence);
      same_subject = refl;
      same_payload = refl;
      kept = λ n e k. ground (arith, look n, h);
      others = λ n e k. elim (Bool-cases (d.sequence == n)) [
        | inl q ↦ inl (sym (==→≡ sequence n q))
        | inr q ↦ inr (ground (arith, look n))
      ];
      ordered = insert-Ordered d s.deliveries h o;
      tables = refl;
    }

stage_row-Staged :
    (sql : Sqlite Store) (capacity : Capacity) (sequence : ℕ) (subject : Text) (payload : Bytes)
    (s : Store) (o : Option Delivery) (s' : Store)
    → Ordered Before s.deliveries
    → at sequence s.deliveries ≡ o
    → stage_row sql capacity sequence subject payload o s ≡ ok (tt, s')
    → Staged sequence subject payload s s'
unfolding stage_row
stage_row-Staged sql capacity sequence subject payload s (some old) s' ordered h k =
    elim (Bool-cases (old.subject == subject && old.payload == payload)) [
      | inr q ↦ absurd (ground arith)
      | inl q ↦
          let e : s ≡ s' = ground arith in
          subst (Staged sequence subject payload s) e (record {
            row = old;
            there = h;
            same_subject = ground arith;
            same_payload = ground arith;
            kept = λ n d i. i;
            others = λ n d i. inr i;
            ordered = ordered;
            tables = refl;
          })
    ]
stage_row-Staged sql capacity sequence subject payload s none s' ordered h k =
    let (u, fits, q) =
      >>=-eq-ok (check_database capacity false (sql.page_count s) (sql.page_size s)) _ k in
    let staged : Store = record s {
      deliveries = insert_delivery (new_row sequence subject payload) s.deliveries;
    } in
    let e : staged ≡ s' = cc in
    subst (Staged sequence subject payload s) e
      (inserted-Staged sequence subject payload s ordered h)

-- A delivery either fails and leaves the store, or it succeeds, for a sequence and a size within the
-- limits: then its bytes stand under its sequence, every delivery that was staged before is still
-- there as it was, there is no other, and no other table has changed. So no sequence ever has
-- two contents.
pub stage_chat_lem :
    (sql : Sqlite Store) (capacity : Capacity) (sequence : ℕ) (subject : Text) (payload : Bytes)
    (s : Store)
    → Ordered Before s.deliveries
    → ((e : String) × (stage_chat sql capacity sequence subject payload s ≡ (err e, s)))
      ⊎ ((s' : Store) × (stage_chat sql capacity sequence subject payload s ≡ (ok tt, s'))
          × ((0 < sequence) × (sequence < 2 ^ 63) × (length payload ≤ max_wire))
          × Staged sequence subject payload s s')
unfolding stage_chat
stage_chat_lem sql capacity sequence subject payload s o =
    elim (Bool-cases (ltb 0 sequence && leb sequence i64_max)) [
      | inr q ↦ inl ("invalid CHAT sequence", rw q refl)
      | inl q ↦ elim (Bool-cases (leb (length payload) max_wire && leb (length subject) 256)) [
        | inr k ↦ inl ("invalid CHAT delivery size", rw (q, k) refl)
        | inl k ↦
            elim (transaction_atomic sql capacity false
              (λ (t : Store).
                stage_row sql capacity sequence subject payload (at sequence t.deliveries) t)
              s) [
                | inr (e, f) ↦ inl (e, rw (q, k) f)
                | inl r ↦ inr (
                  r.after,
                  rw (q, k) r.result,
                  (ground arith, ground arith, ground arith),
                  stage_row-Staged sql capacity sequence subject payload s
                      (at sequence s.deliveries) r.after o refl r.acted,
                )
              ]
      ]
    ]
