-- ===== src/Conversation/Event.antt =====
-- The application events of relationships.rs: their content, their bounds, their one encoding, and
-- what of them enters the transcript.
use epochgrid.Base.{
  ℕ, ◌+◌, [], ◌∷◌, ◌++◌, length, take, drop, all, leb, ◌==◌, nat_eq, bytes_eq, ◌&&◌, ◌||◌, not,
  Bool, true, false, Text, Bytes, text, Option, none, some, Result, ok, context, ensure, ◌>>=◌,
  ◌>>◌, starts_with, is_empty, is_utf8, from_utf8_lossy, has_control, has_whitespace, i64_max,
  if◌then◌else◌,
}
use epochgrid.Base.Hex.{hex, unhex, is_hex_lower}
use epochgrid.Attachments.{max_plaintext}

pub data Relation : Type 0 where
  reply_to replace : Bytes → Relation
  reaction : (target : Bytes) (value : Text) (add : Bool) → Relation

abbrev pub target_of : Relation → Bytes
target_of (reply_to id) = id
target_of (replace id) = id
target_of (reaction id value add) = id

pub record ApplicationEvent : Type 0 where
  pub nonce : Bytes
  pub counter : ℕ
  pub content : Bytes
  pub relation : Option Relation

-- postcard and SHA-256 as relationships.rs calls them: an event, and the two tuples that a message's
-- identifier is the hash of.
pub record EventCodec : Type 0 where
  pub bytes_of : ApplicationEvent → Option Bytes
  pub take_event : Bytes → Option (ApplicationEvent × Bytes)
  pub application_id : (gid sender : Text) (wire : Bytes) → Option Bytes
  pub legacy_id : (gid : Text) (ciphertext : Bytes) → Option Bytes

-- `PREFIX`, `MAX_APPLICATION`
abbrev pub event_prefix : Bytes
event_prefix = 0xff ∷ text "EGMSG"

abbrev pub max_application : ℕ
max_application = max_plaintext + 512

unfoldable pub check_content : ApplicationEvent → Option Relation → Result (Unit {0})
check_content e (some (reaction target value add)) =
    ensure
      (is_empty e.content
        && not (is_empty value)
        && leb (length value) 32
        && not (has_control value || has_whitespace value))
      "reaction must contain 1–32 non-whitespace UTF-8 bytes and no content"
check_content e (some (reply_to id)) =
    ensure (not (is_empty e.content) && leb (length e.content) max_plaintext)
      "message content must contain 1–16384 bytes"
check_content e (some (replace id)) =
    ensure (not (is_empty e.content) && leb (length e.content) max_plaintext)
      "message content must contain 1–16384 bytes"
check_content e none =
    ensure (not (is_empty e.content) && leb (length e.content) max_plaintext)
      "message content must contain 1–16384 bytes"

abbrev pub is_replace : Option Relation → Bool
is_replace (some (replace id)) = true
is_replace _ = false

unfoldable pub validate_event : ApplicationEvent → Result (Unit {0})
unfolding check_content
validate_event e = do
  ensure (leb 1 e.counter && leb e.counter i64_max) "invalid application counter"
  check_content e e.relation
  ensure (not (is_replace e.relation) || is_utf8 e.content) "replacement must be text"

module _ (c : EventCodec) where
  unfoldable pub wire : ApplicationEvent → Result Bytes
  unfolding validate_event
  wire e = do
    validate_event e
    encoded ← context (c.bytes_of e) "encoding"
    ok (event_prefix ++ 1 ∷ encoded)

  unfoldable pub decode_behind : Bytes → Result (Option ApplicationEvent)
  decode_behind bytes = do
    ensure (leb (length bytes) max_application && starts_with (1 ∷ []) (drop 6 bytes))
        "unsupported application envelope"
    taken ← context (c.take_event (drop 7 bytes)) "encoding"
    let (event, rest) = taken
    ensure (is_empty rest) "trailing application bytes"
    validate_event event
    again ← wire event
    ensure (again == bytes) "noncanonical application envelope"
    ok (some event)

  legacy : Bytes → Result (Option ApplicationEvent)
  legacy bytes = do ensure (leb (length bytes) max_plaintext) "oversized legacy message"; ok none

  unfoldable pub decode_event : Bytes → Result (Option ApplicationEvent)
  unfolding decode_behind legacy
  decode_event bytes = if starts_with event_prefix bytes then decode_behind bytes else legacy bytes

-- `root`: a message or a reply, to which other events relate.
abbrev pub is_root : Option Relation → Bool
is_root (some (replace id)) = false
is_root (some (reaction target value add)) = false
is_root (some (reply_to id)) = true
is_root none = true

abbrev pub root : ApplicationEvent → Bool
root e = is_root e.relation

abbrev pub id_text : Bytes → Text
id_text = hex

abbrev pub short_id : Bytes → Text
short_id id = take 12 (id_text id)

unfoldable pub parse_id : Text → Result Bytes
parse_id t = do
  ensure (length t == 64 && all is_hex_lower t)
      "message ID must be 64 lowercase hexadecimal characters"
  ok (unhex t)

unfoldable pub transcript_of : ApplicationEvent → Option Relation → Bytes
transcript_of e none = e.content
transcript_of e (some (reply_to id)) = e.content
transcript_of e (some (replace id)) =
    text "[edit " ++ short_id id ++ text "] " ++ from_utf8_lossy e.content
transcript_of e (some (reaction target value add)) =
    text "[reaction "
    ++ (if add then text "add" else text "remove")
    ++ text " "
    ++ short_id target
    ++ text " "
    ++ value
    ++ text "]"

abbrev pub transcript : ApplicationEvent → Bytes
transcript e = transcript_of e e.relation
