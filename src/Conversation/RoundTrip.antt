-- ===== src/Conversation/RoundTrip.antt =====
-- The encoding of an application event and the text of a message's identifier, there and back.
use epochgrid.Base.{
  ℕ_discrete, ℕ, ◌+◌, ◌≤◌, [], ◌∷◌, ◌++◌, length, drop, All, all, leb, ◌==◌, bytes_eq, nat_eq,
  ==_refl, ==→≡, Bytes, Text, String, Option, none, some, ok, ◌≡◌, ◌↔◌, refl, ap, sym, ◌∙◌, subst,
  inl, inr, ◌&&◌, i64_max, arith, >>=-eq-ok, is_empty, Bool-cases, starts_with, Bool, true, false,
  ensure, context,
}
use epochgrid.Base.Hex.{unhex, unhex-hex, hex-unhex, length-hex, hex-all, IsByte, is_hex_lower}
use epochgrid.Attachments.{max_plaintext}
use epochgrid.Conversation.Event.{
  Relation, reply_to, replace, reaction, ApplicationEvent, EventCodec, wire, decode_event,
  decode_behind, validate_event, check_content, event_prefix, max_application, parse_id, id_text,
}

-- The bytes of a reaction's value.
abbrev pub value_bytes : Option Relation → ℕ
value_bytes (some (reaction target value add)) = length value
value_bytes _ = 0

-- postcard: what is encoded is read back with nothing behind it, and takes at most 128 bytes more
-- than the content and the value of a reaction.
pub record IsCodec (c : EventCodec) : Type 0 where
  pub read_back :
      (e : ApplicationEvent) (b : Bytes) → c.bytes_of e ≡ some b → c.take_event b ≡ some (e, [])
  pub short :
      (e : ApplicationEvent) (b : Bytes)
      → c.bytes_of e ≡ some b
      → length b ≤ length e.content + value_bytes e.relation + 128

ensure-true : (b : Bool) (message : String) → ensure b message ≡ ok tt → b ≡ true
ensure-true true message h = refl
ensure-true false message h = cc

context-some {ℓ} :
    {A : Type ℓ} (o : Option A) (message : String) (a : A) → context o message ≡ ok a → o ≡ some a
context-some none message a h = cc
context-some (some b) message a h = cc

content_bound :
    (e : ApplicationEvent) (r : Option Relation)
    → check_content e r ≡ ok tt
    → length e.content + value_bytes r ≤ max_plaintext + 32
unfolding check_content
content_bound e none h = ground arith
content_bound e (some (reply_to id)) h = ground arith
content_bound e (some (replace id)) h = ground arith
content_bound e (some (reaction target value add)) h = ground arith

validate-length :
    (c : EventCodec)
    → IsCodec c
    → (e : ApplicationEvent) (b : Bytes) → validate_event e ≡ ok tt
    → c.bytes_of e ≡ some b
    → leb (length (event_prefix ++ 1 ∷ b)) max_application ≡ true
unfolding validate_event
validate-length c laws e b v k =
    let (u, counted, rest) =
      >>=-eq-ok (ensure (leb 1 e.counter && leb e.counter i64_max) "invalid application counter") _
        v in
    let (w, content, last) = >>=-eq-ok (check_content e e.relation) _ rest in
    ground (arith, content_bound e e.relation content, laws.short e b k)

decode-encoded :
    (c : EventCodec) (e : ApplicationEvent) (b : Bytes)
    → validate_event e ≡ ok tt
    → wire c e ≡ ok (event_prefix ++ 1 ∷ b)
    → c.take_event b ≡ some (e, [])
    → leb (length (event_prefix ++ 1 ∷ b)) max_application ≡ true
    → decode_event c (event_prefix ++ 1 ∷ b) ≡ ok (some e)
unfolding decode_event ℕ_discrete
decode-encoded c e b v w t l = rw (l, t, v, w, ==_refl (event_prefix ++ 1 ∷ b)) refl

wire-decode :
    (c : EventCodec)
    → IsCodec c
    → (e : ApplicationEvent) (b : Bytes) → wire c e ≡ ok b
    → decode_event c b ≡ ok (some e)
unfolding wire
wire-decode c laws e b h =
    let (u, v, rest) = >>=-eq-ok (validate_event e) _ h in
    let (encoded, k, q) = >>=-eq-ok (context (c.bytes_of e) "encoding") _ rest in
    let coded = context-some (c.bytes_of e) "encoding" encoded k in
    let bytes : event_prefix ++ 1 ∷ encoded ≡ b = cc in
    subst (λ (x : Bytes). decode_event c x ≡ ok (some e)) bytes
      (decode-encoded c e encoded v (h ∙ ap ok (sym bytes)) (laws.read_back e encoded coded)
        (validate-length c laws e encoded v coded))

decode_behind-wire :
    (c : EventCodec) (e : ApplicationEvent) (b : Bytes)
    → decode_behind c b ≡ ok (some e)
    → wire c e ≡ ok b
unfolding decode_behind
decode_behind-wire c e b h =
    let (u, k, rest) =
      >>=-eq-ok
        (ensure (leb (length b) max_application && starts_with (1 ∷ []) (drop 6 b))
          "unsupported application envelope")
        _ h in
    let ((event, behind), t, rest') =
      >>=-eq-ok (context (c.take_event (drop 7 b)) "encoding") _ rest in
    let (u', n, rest2) =
      >>=-eq-ok (ensure (is_empty behind) "trailing application bytes") _ rest' in
    let (u2, v, rest3) = >>=-eq-ok (validate_event event) _ rest2 in
    let (again, w, rest4) = >>=-eq-ok (wire c event) _ rest3 in
    let (u3, same, last) =
      >>=-eq-ok (ensure (again == b) "noncanonical application envelope") _ rest4 in
    let eq = ==→≡ again b (ensure-true (again == b) "noncanonical application envelope" same) in
    let which : event ≡ e = cc in rw (← which) (w ∙ ap ok eq)

-- Where postcard reads back what it writes, `decode` returns an event exactly for the bytes that
-- `wire` writes of it: every event that can be sent is read back as it was, within the limit of
-- its size, and no other bytes are taken for it.
pub decode_iff-wire :
    (c : EventCodec)
    → IsCodec c
    → (e : ApplicationEvent) (b : Bytes) → (decode_event c b ≡ ok (some e)) ↔ (wire c e ≡ ok b)
unfolding decode_event
decode_iff-wire c laws e b = (
  λ h. elim (Bool-cases (starts_with event_prefix b)) [
    | inl p ↦ decode_behind-wire c e b (rw p at h)
    | inr p ↦ absurd (ground arith)
  ],
  wire-decode c laws e b,
)

pub record Is32 (id : Bytes) : Type 0 where
  pub long : length id ≡ 32
  pub bytes : All IsByte id

pub parse_id-id_text : (id : Bytes) → Is32 id → parse_id (id_text id) ≡ ok id
unfolding parse_id ℕ_discrete
parse_id-id_text id h = rw (length-hex id, h.long, hex-all id h.bytes, unhex-hex id h.bytes) refl

pub id_text-parse_id : (t : Text) (id : Bytes) → parse_id t ≡ ok id → id_text id ≡ t
unfolding parse_id
id_text-parse_id t id h =
    let (u, k, q) =
      >>=-eq-ok
        (ensure (length t == 64 && all is_hex_lower t)
          "message ID must be 64 lowercase hexadecimal characters")
        _ h in
    let test =
      ensure-true (length t == 64 && all is_hex_lower t)
        "message ID must be 64 lowercase hexadecimal characters" k in
    let which : unhex t ≡ id = cc in rw (← which) (hex-unhex t 32 (ground arith) (ground arith))
