-- ===== src/Attachments.antt =====
-- crates/epochgrid-core/src/attachments.rs: the manifest that stands for a file in a message, its
-- limits, and what is displayed of it.
use epochgrid.Base.{
  ℕ, ◌+◌, ◌∷◌, ◌++◌, length, all, any, ltb, leb, ◌==◌, nat_eq, bytes_eq, ◌&&◌, ◌||◌, not, Bool,
  Text, Bytes, text, Option, none, some, Result, ok, err, context, ensure, ◌>>=◌, ◌>>◌, starts_with,
  drop, is_empty, has_control, from_utf8_lossy, is_ascii_digit, is_ascii_lowercase, [],
  if◌then◌else◌,
}
use epochgrid.Base.Hex.{is_hex_lower, decimal}

pub record Limits : Type 0 where
  pub max_bytes : ℕ
  pub ttl_seconds : ℕ

abbrev pub hard_max_bytes : ℕ
hard_max_bytes = 67108864

abbrev pub max_plaintext : ℕ
max_plaintext = 16384

unfoldable pub validate_limits : Limits → Result (Unit {0})
validate_limits l = do
  ensure (leb 1 l.max_bytes && leb l.max_bytes hard_max_bytes)
      "attachment size limit must be 1–67108864 bytes"
  ensure (leb 1 l.ttl_seconds && leb l.ttl_seconds 31536000)
      "attachment lifetime must be 1–31536000 seconds"

unfoldable pub object_id : Text → Result (Unit {0})
object_id id = ensure (length id == 32 && all is_hex_lower id) "invalid attachment ID"

pub record Manifest : Type 0 where
  pub id : Text
  pub filename : Text
  pub mime : Text
  pub size : ℕ
  pub ciphertext_size : ℕ
  pub expires_at : ℕ
  pub hash : Bytes
  pub key : Bytes
  pub nonce : Bytes

abbrev is_mime_byte : ℕ → Bool
is_mime_byte c =
    is_ascii_digit c
    || is_ascii_lowercase c
    || (leb b'A' c && leb c b'Z')
    || any (λ b. b == c) (text "/.-+_")

unfoldable pub validate_manifest : Manifest → Result (Unit {0})
unfolding object_id
validate_manifest m = do
  object_id m.id
  ensure
      (not (is_empty m.filename)
        && leb (length m.filename) 255
        && not (m.filename == text "." || m.filename == text "..")
        && not (has_control m.filename || any (λ c. c == b'/' || c == 92) m.filename))
      "invalid attachment filename"
  ensure
      (not (is_empty m.mime)
        && leb (length m.mime) 127
        && any (λ c. c == b'/') m.mime
        && all is_mime_byte m.mime)
      "invalid attachment MIME type"
  ensure (leb m.size hard_max_bytes && m.ciphertext_size == m.size + 16 && ltb 0 m.expires_at)
      "invalid attachment size or expiration"

-- The prefix and the version of an encoded manifest.
abbrev pub prefix : Bytes
prefix = 0xff ∷ text "EGATT"

unfoldable pub summary : Manifest → Text
unfolding decimal
summary m =
    text "[attachment "
    ++ m.id
    ++ text "] "
    ++ m.filename
    ++ text " ("
    ++ decimal m.size
    ++ text " bytes, "
    ++ m.mime
    ++ text ")"

-- postcard's encoding of a manifest.
pub record ManifestCodec : Type 0 where
  pub bytes_of : Manifest → Option Bytes
  pub take : Bytes → Option (Manifest × Bytes)

module _ (c : ManifestCodec) where
  unfoldable pub encode_manifest : Manifest → Result Bytes
  unfolding validate_manifest
  encode_manifest m = do
    validate_manifest m
    encoded ← context (c.bytes_of m) "encoding"
    let bytes = prefix ++ 1 ∷ encoded
    ensure (leb (length bytes) max_plaintext) "attachment manifest too large"
    ok bytes

  -- What stands behind the prefix.
  decode_behind : Bytes → Result (Option Manifest)
  decode_behind bytes = do
    ensure (leb (length bytes) max_plaintext && starts_with (1 ∷ []) (drop 6 bytes))
        "unsupported attachment manifest version"
    taken ← context (c.take (drop 7 bytes)) "encoding"
    let (manifest, rest) = taken
    ensure (is_empty rest) "trailing attachment manifest bytes"
    validate_manifest manifest
    ok (some manifest)

  unfoldable pub decode_manifest : Bytes → Result (Option Manifest)
  unfolding decode_behind
  decode_manifest bytes = if starts_with prefix bytes then decode_behind bytes else ok none

  shown : Bytes → Result (Option Manifest) → Text
  shown bytes (ok (some manifest)) = summary manifest
  shown bytes (ok none) = from_utf8_lossy bytes
  shown bytes (err e) = text "[unsupported or invalid attachment]"

  unfoldable pub display : Bytes → Text
  unfolding shown
  display bytes = shown bytes (decode_manifest bytes)
