-- ===== src/Base/Text8.antt =====
-- Byte strings. A Rust `String` is its UTF-8 bytes: `len`, `bytes` and `==` read them.
use Prim.Native.Nat.{ℕ}
use Prim.Native.Char.{code}
use Prim.Native.String.{String}
use mathlib.Core.Bool.{Bool, true, false, ◌&&◌}
use mathlib.Core.List.{List, [], ◌∷◌}
use epochgrid.Base.Tests.{leb, ◌==◌, nat_eq}

abbrev pub Bytes : Type 0
Bytes = List ℕ

abbrev pub Text : Type 0
Text = List ℕ

-- The bytes of an ASCII literal.
abbrev pub text : String → Text
text String.[] = []
text (String.◌∷◌ c s) = code c ∷ text s

abbrev pub is_ascii_lowercase : ℕ → Bool
is_ascii_lowercase b = leb b'a' b && leb b b'z'

abbrev pub is_ascii_digit : ℕ → Bool
is_ascii_digit b = leb b'0' b && leb b b'9'

abbrev pub starts_with : Bytes → Bytes → Bool
starts_with [] s = true
starts_with (p ∷ ps) [] = false
starts_with (p ∷ ps) (c ∷ cs) = p == c && starts_with ps cs

-- Machine integers: the largest `u64` and the largest `i64`.
abbrev pub u64_max : ℕ
u64_max = 0xffffffffffffffff

abbrev pub i64_max : ℕ
i64_max = 0x7fffffffffffffff
