-- ===== src/Audit/Bounded.antt =====
-- The numbering, the counters and the limits of the log of audit.rs.
use epochgrid.Base.{
  ℕ, suc, ◌+◌, ◌-◌, List, [], ◌∷◌, ◌++◌, length, Bool, Text, ok, ◌≡◌, ◌≤◌, arith, Result-cases, inl,
  inr, length-append, >>=-eq-ok, if◌then◌else◌,
}
use epochgrid.Audit.Events.{Event}
use epochgrid.Audit.Log.{
  AuditLog, Surroundings, max_events, max_bytes, reserve_events, reserve_bytes, max_event_bytes,
  info, payload_of, append_operation, append,
}

abbrev pub total : List (ℕ × Text) → ℕ
total [] = 0
total ((n, payload) ∷ rest) = length payload + total rest

-- The rows in their order, numbered from `n`.
abbrev pub Numbered : ℕ → List (ℕ × Text) → Type 0
Numbered n [] = Unit
Numbered n ((k, payload) ∷ rest) =
    (k ≡ n) × (length payload ≤ max_event_bytes) × Numbered (suc n) rest

pub record IsSound (a : AuditLog) : Type 0 where
  pub numbered : Numbered a.retained_from a.log
  pub newest : a.next_sequence ≡ a.retained_from + length a.log
  pub events_count : a.events ≡ length a.log
  pub bytes_count : a.bytes ≡ total a.log
  pub few : length a.log ≤ max_events
  pub small : total a.log ≤ max_bytes

total-append : (xs ys : List (ℕ × Text)) → total (xs ++ ys) ≡ total xs + total ys
total-append [] ys = omega arith
total-append ((n, t) ∷ xs) ys = omega (arith, total-append xs ys)

Numbered-snoc :
    (n : ℕ) (xs : List (ℕ × Text)) (k : ℕ) (t : Text)
    → Numbered n xs
    → k ≡ n + length xs
    → length t ≤ max_event_bytes
    → Numbered n (xs ++ (k, t) ∷ [])
Numbered-snoc n [] k t h e b = (omega (arith, e), b, tt)
Numbered-snoc n ((m, u) ∷ xs) k t h e b =
    (h.0, h.1, Numbered-snoc (suc n) xs k t h.2 (omega (arith, e)) b)

-- One row more, and nothing else but the counters.
pub record Grown (a : AuditLog) (reserve : Bool) (sequence : ℕ) (a' : AuditLog) : Type 0 where
  pub payload : Text
  pub row : a'.log ≡ a.log ++ (sequence, payload) ∷ []
  pub number : sequence ≡ a.next_sequence
  pub size : length payload ≤ max_event_bytes
  pub next : a'.next_sequence ≡ suc sequence
  pub events_after : a'.events ≡ suc a.events
  pub bytes_after : a'.bytes ≡ a.bytes + length payload
  pub room : a'.events ≤ max_events - (if reserve then 0 else reserve_events)
  pub space : a'.bytes ≤ max_bytes - (if reserve then 0 else reserve_bytes)
  pub from : a'.retained_from ≡ a.retained_from

module _ (around : Surroundings) where
  append_operation-Grown :
      (event : Event) (reserve : Bool) (operation : Text) (a : AuditLog) (sequence : ℕ)
      (a' : AuditLog)
      → append_operation around event reserve operation a ≡ ok (sequence, a')
      → Grown a reserve sequence a'
  unfolding append_operation info
  append_operation-Grown event reserve operation a sequence a' h =
      elim (Result-cases (
        payload_of around
          (record {
            store_id = a.store_id;
            retained_from = a.retained_from;
            upper_sequence = a.next_sequence - 1;
            events = a.events;
            bytes = a.bytes;
            known_coverage_gaps = a.gaps;
            policy_version = a.policy_version;
            prune_through = a.prune_through;
            unresolved_effects = a.pending;
            degraded = a.degraded;
          })
          (a.next_sequence - 1 + 1) operation event)) [
            | inr (e, k) ↦ absurd (ground arith)
            | inl (payload, k) ↦ record {
              payload = payload;
              row = ground arith;
              number = ground arith;
              size = ground arith;
              next = ground arith;
              events_after = ground arith;
              bytes_after = ground arith;
              room = ground arith;
              space = ground arith;
              from = ground arith;
            }
          ]

  append-Grown :
      (event : Event) (reserve : Bool) (a : AuditLog) (sequence : ℕ) (a' : AuditLog)
      → append around event reserve a ≡ ok (sequence, a')
      → Grown a reserve sequence a'
  unfolding append
  append-Grown event reserve a sequence a' h =
      let (operation, e, k) = >>=-eq-ok around.operation _ h in
      append_operation-Grown event reserve operation a sequence a' k

Grown-IsSound :
    (a : AuditLog) (reserve : Bool) (sequence : ℕ) (a' : AuditLog)
    → IsSound a
    → Grown a reserve sequence a'
    → IsSound a'
Grown-IsSound a reserve sequence a' v g =
    let len = length-append a.log ((sequence, g.payload) ∷ []) in
    let sum = total-append a.log ((sequence, g.payload) ∷ []) in
    record {
      numbered =
          rw (g.from, g.row)
            (Numbered-snoc a.retained_from a.log sequence g.payload v.numbered
              (omega (arith, g.number, v.newest)) g.size);
      newest = rw (g.from, g.row) (omega (arith, g.next, g.number, v.newest, len));
      events_count = rw g.row (omega (arith, g.events_after, v.events_count, len));
      bytes_count = rw g.row (omega (arith, g.bytes_after, v.bytes_count, sum));
      few = rw g.row (ground (arith, g.events_after, v.events_count, len, g.room));
      small = rw g.row (ground (arith, g.bytes_after, v.bytes_count, sum, g.space));
    }

module _ (around : Surroundings) where
  -- An append that succeeds adds one row behind the others under the next number, of at most 2048
  -- bytes; the log stays sound and within its limits, and an ordinary event leaves the reserve of
  -- 1024 events and 2 MiB free.
  pub append-IsSound :
      (event : Event) (reserve : Bool) (a : AuditLog) (sequence : ℕ) (a' : AuditLog)
      → IsSound a
      → append around event reserve a ≡ ok (sequence, a')
      → Grown a reserve sequence a' × IsSound a'
  append-IsSound event reserve a sequence a' v h =
      let g = append-Grown around event reserve a sequence a' h in
      (g, Grown-IsSound a reserve sequence a' v g)
