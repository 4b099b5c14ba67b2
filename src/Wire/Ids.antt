-- ===== src/Wire/Ids.antt =====
-- `validate_id` of wire.rs: the identifiers that may stand in a NATS subject.
use epochgrid.Base.{
  ℕ, Bool, ◌||◌, Text, length, all, ltb, ◌==◌, nat_eq, Result, ok, err, is_ascii_lowercase,
  is_ascii_digit, if◌then◌else◌, not,
}

abbrev pub is_id_byte : ℕ → Bool
is_id_byte b = is_ascii_lowercase b || is_ascii_digit b || b == b'-'

unfoldable pub validate_id : Text → Result (Unit {0})
validate_id id =
    if length id == 0 || ltb 32 (length id) || not (all is_id_byte id)
    then err "invalid subject identifier"
    else ok tt
