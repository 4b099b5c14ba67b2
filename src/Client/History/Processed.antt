-- ===== src/Client/History/Processed.antt =====
-- `process_history` of history.rs.
use epochgrid.Base.{
  ℕ, zero, suc, ◌+◌, ◌<◌, length, Bool, true, false, Text, none, some, Option-cases, Result, ok,
  err, Bool-cases, >>=-eq-ok, String, ◌≡◌, refl, sym, ap, inl, inr, arith,
}
use package.text.Mathlib.Text.{◌==◌ as str_eq}
use epochgrid.Base.Members.{Ordered}
use epochgrid.Wire.{Primitives}
use epochgrid.Capacity.{Capacity}
use epochgrid.Store.{Sqlite, transaction, transaction_atomic}
use epochgrid.Attachments.{ManifestCodec}
use epochgrid.Conversation.Event.{EventCodec}
use epochgrid.Client.Tables.{Group}
use epochgrid.Client.Library.{Mls}
use epochgrid.Client.Groups.{group}
use epochgrid.Client.Rekey.{invalid_message}
use epochgrid.Client.History.{
  DeliveryState, is_pending, done, rejected, Delivery, Store, SyncReport, next_pending, set_state,
  process_row, process_delivery, process_loop, process_history, add_row,
}
use epochgrid.Client.History.Progress.{
  Before, AllMoved, AllMoved-refl, AllMoved-trans, waiting, waiting-le-length, waiting-none,
  set_state-next, set_state-Ordered,
}

module _ (p : Primitives) (c : EventCodec) (mc : ManifestCodec) (mls : Mls) (sql : Sqlite Store)
    (capacity : Capacity) where
  -- How a run ends: with nothing of the group that waits, or on the error of the transaction of the
  -- first row that does, which is no invalid message and has left the store.
  abbrev Verdict : Text → Group → Result SyncReport → Store → Type 0
  Verdict name g (ok report) s = waiting g s.deliveries ≡ 0
  Verdict name g (err e) s =
      (str_eq e invalid_message ≡ false)
      × ((d : Delivery) × (next_pending g s.deliveries ≡ some d)
          × (transaction sql capacity false (process_delivery p c mc mls name g d) s ≡ (err e, s)))

  pub record Ends (name : Text) (g : Group) (s : Store) (r : Result SyncReport) (s' : Store)
      : Type 0 where
    pub moved : AllMoved g s.deliveries s'.deliveries
    pub ordered : Ordered Before s'.deliveries
    pub verdict : Verdict name g r s'

  process_delivery-deliveries :
      (name : Text) (g : Group) (d : Delivery) (s : Store) (flags : Bool × Bool) (s' : Store)
      → process_delivery p c mc mls name g d s ≡ ok (flags, s')
      → s'.deliveries ≡ set_state d.sequence done s.deliveries
  unfolding process_delivery
  process_delivery-deliveries name g d s flags s' h =
      let ((f, tables), k, q) = >>=-eq-ok (process_row p c mc mls name g d s.tables) _ h in
      let eq : record { deliveries = set_state d.sequence done s.deliveries; tables = tables }
          ≡ s' =
        cc in
      ap (λ (x : Store). x.deliveries) (sym eq)

  Ends_after :
      (name : Text) (g : Group) (s t : Store) (r : Result SyncReport) (s' : Store)
      → AllMoved g s.deliveries t.deliveries
      → Ends name g t r s'
      → Ends name g s r s'
  Ends_after name g s t r s' h e = record {
    moved = AllMoved-trans g s.deliveries t.deliveries s'.deliveries h e.moved;
    ordered = e.ordered;
    verdict = e.verdict;
  }

  module _ (fuel : ℕ) (name : Text) (g : Group) (report : SyncReport) (s : Store) where
    loop-none :
        next_pending g s.deliveries ≡ none
        → process_loop p c mc mls sql capacity (suc fuel) name g report s ≡ (ok report, s)
    unfolding process_loop
    loop-none h = rw (h, process_loop) refl

    module _ (d : Delivery) (next : next_pending g s.deliveries ≡ some d) where
      loop-ok :
          (flags : Bool × Bool) (s' : Store)
          → transaction sql capacity false (process_delivery p c mc mls name g d) s ≡ (ok flags, s')
          → process_loop p c mc mls sql capacity (suc fuel) name g report s
            ≡ process_loop p c mc mls sql capacity fuel name g (add_row flags report) s'
      unfolding process_loop
      loop-ok flags s' h =
          let e0 = ap (λ (x : Result (Bool × Bool) × Store). x.0) h in
          let e1 = ap (λ (x : Result (Bool × Bool) × Store). x.1) h in
          rw (next, e0, e1, process_loop) refl

      loop-invalid :
          (e : String) (s' : Store)
          → transaction sql capacity false (process_delivery p c mc mls name g d) s ≡ (err e, s')
          → str_eq e invalid_message ≡ true
          → process_loop p c mc mls sql capacity (suc fuel) name g report s
            ≡ process_loop p c mc mls sql capacity fuel name g
                (record report { rejected = report.rejected + 1 })
                (record s' { deliveries = set_state d.sequence rejected s'.deliveries })
      unfolding process_loop
      loop-invalid e s' h k =
          let e0 = ap (λ (x : Result (Bool × Bool) × Store). x.0) h in
          let e1 = ap (λ (x : Result (Bool × Bool) × Store). x.1) h in
          rw (next, e0, k, e1, process_loop) refl

      loop-err :
          (e : String) (s' : Store)
          → transaction sql capacity false (process_delivery p c mc mls name g d) s ≡ (err e, s')
          → str_eq e invalid_message ≡ false
          → process_loop p c mc mls sql capacity (suc fuel) name g report s ≡ (err e, s')
      unfolding process_loop
      loop-err e s' h k =
          let e0 = ap (λ (x : Result (Bool × Bool) × Store). x.0) h in
          let e1 = ap (λ (x : Result (Bool × Bool) × Store). x.1) h in
          rw (next, e0, k, e1, process_loop) refl

  -- A row that has its verdict, and what follows.
  settle :
      (fuel : ℕ) (name : Text) (g : Group) (report : SyncReport) (s t : Store) (d : Delivery)
      (state : DeliveryState)
      → Ordered Before s.deliveries
      → waiting g s.deliveries < suc fuel
      → next_pending g s.deliveries ≡ some d
      → is_pending state ≡ false
      → t.deliveries ≡ set_state d.sequence state s.deliveries
      → ((report' : SyncReport)
          → Ordered Before t.deliveries
          → waiting g t.deliveries < fuel
          → Ends name g t
              (process_loop p c mc mls sql capacity fuel name g report' t).0
              (process_loop p c mc mls sql capacity fuel name g report' t).1)
      → Ends name g s
          (process_loop p c mc mls sql capacity fuel name g report t).0
          (process_loop p c mc mls sql capacity fuel name g report t).1
  settle fuel name g report s t d state o enough next settled eq rest =
      let (moved, counted) = set_state-next g d state s.deliveries o next settled in
      Ends_after name g s t (process_loop p c mc mls sql capacity fuel name g report t).0
        (process_loop p c mc mls sql capacity fuel name g report t).1 (rw eq moved)
        (rest report (rw eq (set_state-Ordered d.sequence state s.deliveries o))
          (rw eq (omega (arith, counted, enough))))

  loop-Ends :
      (fuel : ℕ) (name : Text) (g : Group) (report : SyncReport) (s : Store)
      → Ordered Before s.deliveries
      → waiting g s.deliveries < fuel
      → Ends name g s
          (process_loop p c mc mls sql capacity fuel name g report s).0
          (process_loop p c mc mls sql capacity fuel name g report s).1
  loop-Ends zero name g report s o enough = absurd (omega arith)
  loop-Ends (suc fuel) name g report s o enough =
      elim (Option-cases (next_pending g s.deliveries)) [
        | inl h ↦ rw (loop-none fuel name g report s h) (record {
          moved = AllMoved-refl g s.deliveries;
          ordered = o;
          verdict = waiting-none g s.deliveries h;
        })
        | inr (d, h) ↦
            elim (transaction_atomic sql capacity false (process_delivery p c mc mls name g d) s) [
              | inl r ↦ rw (loop-ok fuel name g report s d h r.value r.after r.result) (
                  settle fuel name g (add_row r.value report) s r.after d done o enough h refl
                    (process_delivery-deliveries name g d s r.value r.after r.acted)
                    (λ report'. loop-Ends fuel name g report' r.after))
              | inr (e, k) ↦ elim (Bool-cases (str_eq e invalid_message)) [
                | inl q ↦
                    let t : Store = record s {
                      deliveries = set_state d.sequence rejected s.deliveries;
                    } in
                    rw (loop-invalid fuel name g report s d h e s k q) (
                      settle fuel name g (record report { rejected = report.rejected + 1 }) s t d
                        rejected o enough h refl refl (λ report'. loop-Ends fuel name g report' t))
                | inr q ↦ rw (loop-err fuel name g report s d h e s k q) (record {
                  moved = AllMoved-refl g s.deliveries;
                  ordered = o;
                  verdict = (q, (d, h, k));
                })
              ]
            ]
      ]

  -- `process_history` of a channel that is known comes to an end. It keeps every delivery with its
  -- bytes, and changes a state only where a delivery of the group was pending, which is then
  -- processed or rejected. If it succeeds, no delivery of the group is pending, so no invalid message
  -- holds up what follows it; if it fails, it is with the error of the transaction of the first
  -- delivery that is pending, which is no invalid message and has left the store as it then is.
  pub process_history_lem :
      (name : Text) (g : Group) (s : Store)
      → group name s.tables ≡ ok g
      → Ordered Before s.deliveries
      → Ends name g s
          (process_history p c mc mls sql capacity name s).0
          (process_history p c mc mls sql capacity name s).1
  unfolding process_history
  process_history_lem name g s h o =
      rw (h, process_history)
        (loop-Ends (suc (length s.deliveries)) name g
          (record { staged = 0; decrypted = 0; rejected = 0; unavailable = 0 }) s o
          (omega (arith, waiting-le-length g s.deliveries)))
