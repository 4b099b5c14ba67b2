-- ===== src/Client/Outbox.antt =====
-- delivery.rs: the outbox, with the budget of what waits in it, and the messages of authorization/
-- delivery.rs that enter it.
use epochgrid.Base.{
  ℕ, ◌+◌, ◌*◌, List, [], ◌∷◌, length, map, retain, leb, ltb, ◌==◌, bytes_eq, ◌&&◌, not, Bool, true,
  false, Bytes, Text, text, Result, ok, err, context, ensure, ◌>>=◌, ◌>>◌, u64_max, if◌then◌else◌,
}
use epochgrid.Wire.{Primitives, max_wire}
use epochgrid.Capacity.{check_database}
use epochgrid.Registry.Admission.{user_id_of}
use epochgrid.Client.Tables.{Tables, Outgoing, MlsGroup, largest, insert_new}
use epochgrid.Client.Library.{Session, Mls}
use epochgrid.Client.Groups.{from_mls_id}

abbrev pub pending : List Outgoing → List Outgoing
pending rows = retain (λ (o : Outgoing). not o.sent) rows

-- `COALESCE(SUM(length(payload)),0)`
abbrev pub sum_bytes : List Outgoing → ℕ
sum_bytes [] = 0
sum_bytes (o ∷ rest) = length o.payload + sum_bytes rest

abbrev pub reserve_messages : Session → ℕ
reserve_messages s = if s.recovery_budget then 32 else 0

abbrev pub next_id : List Outgoing → ℕ
next_id rows = largest (map (λ (o : Outgoing). o.id) rows) + 1

unfoldable pub queue : Session → Text → Bytes → Tables → Result Tables
queue s subject payload t = do
  ensure (leb (length payload) max_wire) "MLS message exceeds transport limit"
  ensure (not s.is_autocommit) "outbox insertion requires MLS transaction"
  check_database s.capacity s.recovery_budget (s.sqlite.page_count t) (s.sqlite.page_size t)
  let waiting = pending t.outbox
  ensure
      (ltb (length waiting) (s.capacity.pending_messages + reserve_messages s)
        && leb (sum_bytes waiting + length payload) u64_max
        && leb (sum_bytes waiting + length payload)
            (s.capacity.pending_bytes + reserve_messages s * max_wire))
      "capacity exhausted: outbox; pending messages retained"
  rows ←
      insert_new (λ (o : Outgoing). o.payload == payload)
        (record { id = next_id t.outbox; subject = subject; payload = payload; sent = false })
        t.outbox
  ok (record t { outbox = rows })

-- `SUBJECT` of authorization.rs
abbrev pub policy_subject : Text
policy_subject = text "epochgrid.v1.channel.policy"

module _ (p : Primitives) (m : Mls) where
  unfoldable pub dynamic_authorization : Tables → Bool
  dynamic_authorization t = elim (user_id_of p t.registration.user_id) [
    | err e ↦ false
    | ok u ↦ true
  ]

  queue_intent : Session → MlsGroup → Tables → Result Tables
  queue_intent s g t = do
    descriptor ← from_mls_id g.group_id
    bytes ← context (m.intent_bytes descriptor.gid g) "encoding"
    queue s policy_subject bytes t

  unfoldable pub queue_policy : Session → MlsGroup → Tables → Result Tables
  unfolding dynamic_authorization queue_intent
  queue_policy s g t = if dynamic_authorization t then queue_intent s g t else ok t
