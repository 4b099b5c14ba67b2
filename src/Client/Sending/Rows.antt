-- ===== src/Client/Sending/Rows.antt =====
-- The rows that messaging.rs adds to the outbox and the transcript.
use epochgrid.Base.{
  ◌+◌, ◌*◌, List, [], ◌∷◌, ◌++◌, length, any, leb, ltb, ◌==◌, nat_eq, bytes_eq, ◌&&◌, not, Bool,
  true, false, Bytes, Text, none, some, ok, ensure, >>=-eq-ok, u64_max, ◌≡◌, ap, ◌∙◌,
}
use epochgrid.Wire.{max_wire}
use epochgrid.Capacity.{check_database}
use epochgrid.Client.Tables.{Tables, Entry, Outgoing, insert_new}
use epochgrid.Client.Library.{Session}
use epochgrid.Client.Outbox.{queue, next_id, pending, sum_bytes, reserve_messages}
use epochgrid.Client.Messaging.{insert_entry, next_row}

ok_injective {ℓ} : {A : Type ℓ} {a b : A} → ok a ≡ ok b → a ≡ b
ok_injective h = cc

insert_new-row {ℓ} :
    {A : Type ℓ} (same : A → Bool) (row : A) (rows rows' : List A)
    → insert_new same row rows ≡ ok rows'
    → rows ++ row ∷ [] ≡ rows'
insert_new-row same row rows rows' h =
    let (u, a, h1) = >>=-eq-ok (ensure (not (any same rows)) "UNIQUE constraint failed") _ h in
    ok_injective h1

abbrev pub waiting_row : Text → Bytes → Tables → Outgoing
waiting_row subject payload t = record {
  id = next_id t.outbox;
  subject = subject;
  payload = payload;
  sent = false;
}

pub queue-row :
    (s : Session) (subject : Text) (payload : Bytes) (t t' : Tables)
    → queue s subject payload t ≡ ok t'
    → record t { outbox = t.outbox ++ waiting_row subject payload t ∷ [] } ≡ t'
unfolding queue
queue-row s subject payload t t' h =
    let (u1, a1, h1) =
      >>=-eq-ok (ensure (leb (length payload) max_wire) "MLS message exceeds transport limit") _
        h in
    let (u2, a2, h2) =
      >>=-eq-ok (ensure (not s.is_autocommit) "outbox insertion requires MLS transaction") _ h1 in
    let (u3, a3, h3) =
      >>=-eq-ok
        (check_database s.capacity s.recovery_budget (s.sqlite.page_count t) (s.sqlite.page_size t))
        _ h2 in
    let (u4, a4, h4) =
      >>=-eq-ok
        (ensure
          (ltb (length (pending t.outbox)) (s.capacity.pending_messages + reserve_messages s)
            && leb (sum_bytes (pending t.outbox) + length payload) u64_max
            && leb (sum_bytes (pending t.outbox) + length payload)
                (s.capacity.pending_bytes + reserve_messages s * max_wire))
          "capacity exhausted: outbox; pending messages retained")
        _ h3 in
    let (rows, a5, h5) =
      >>=-eq-ok
        (insert_new (λ (o : Outgoing). o.payload == payload) (waiting_row subject payload t)
          t.outbox)
        _ h4 in
    ap (λ r. record t { outbox = r })
      (insert_new-row (λ (o : Outgoing). o.payload == payload) (waiting_row subject payload t)
        t.outbox rows a5)
    ∙ ok_injective h5

abbrev pub own_row : Text → Bytes → Text → Bytes → Tables → Entry
own_row gid payload sender plaintext t = record {
  id = next_row t.transcript;
  gid = gid;
  payload = payload;
  sender = some sender;
  plaintext = some plaintext;
  outgoing = true;
  stream_sequence = none;
  displayed = true;
}

pub insert_entry-row :
    (gid : Text) (payload : Bytes) (sender : Text) (plaintext : Bytes) (t t' : Tables)
    → insert_entry gid payload sender plaintext true true t ≡ ok t'
    → record t { transcript = t.transcript ++ own_row gid payload sender plaintext t ∷ [] } ≡ t'
unfolding insert_entry
insert_entry-row gid payload sender plaintext t t' h =
    let (rows, a, h1) =
      >>=-eq-ok
        (insert_new (λ (e : Entry). e.payload == payload) (own_row gid payload sender plaintext t)
          t.transcript)
        _ h in
    ap (λ r. record t { transcript = r })
      (insert_new-row (λ (e : Entry). e.payload == payload) (own_row gid payload sender plaintext t)
        t.transcript rows a)
    ∙ ok_injective h1
