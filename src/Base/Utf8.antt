-- ===== src/Base/Utf8.antt =====
-- UTF-8 of Rust's standard library over bytes: `std::str::from_utf8`, `String::from_utf8_lossy`, and
-- whether a text holds a control or a white-space character.
use Prim.Native.Nat.{ℕ, zero, suc, ◌-◌}
use mathlib.Core.Bool.{Bool, true, false, ◌&&◌, ◌||◌}
use mathlib.Core.List.{[], ◌∷◌}
use epochgrid.Base.Tests.{leb, ◌==◌, nat_eq, if◌then◌else◌}
use epochgrid.Base.Text8.{Bytes}

abbrev pub between : ℕ → ℕ → ℕ → Bool
between low high b = leb low b && leb b high

is_tail : ℕ → Bool
is_tail b = between 0x80 0xbf b

-- The range of the second byte behind a lead byte.
second_ok : ℕ → ℕ → Bool
unfolding is_tail
second_ok lead b =
    if lead == 0xe0
    then between 0xa0 0xbf b
    else if lead == 0xed
    then between 0x80 0x9f b
    else if lead == 0xf0
    then between 0x90 0xbf b
    else if lead == 0xf4
    then between 0x80 0x8f b
    else is_tail b

-- The bytes of the character that its lead byte announces; 0 for a byte that leads none.
width : ℕ → ℕ
width b =
    if leb b 0x7f
    then 1
    else if between 0xc2 0xdf b
    then 2
    else if between 0xe0 0xef b
    then 3
    else if between 0xf0 0xf4 b
    then 4
    else 0

-- Whether the text begins with a whole character, and the bytes of it, or of the part of it that is
-- replaced by one replacement character.
tails : ℕ → ℕ → Bytes → Bool × ℕ
unfolding is_tail
tails zero read rest = (true, read)
tails (suc n) read [] = (false, read)
tails (suc n) read (b ∷ rest) =
    let more = tails n (suc read) rest in if is_tail b then more else (false, read)

first_char : ℕ → Bytes → Bool × ℕ
unfolding width second_ok tails
first_char lead rest = elim (width lead) [
  | zero ↦ (false, 1)
  | suc zero ↦ (true, 1)
  | suc (suc n) ↦ elim rest [
    | [] ↦ (false, 1)
    | b ∷ rest' ↦ if second_ok lead b then tails n 2 rest' else (false, 1)
  ]
]

valid_from : ℕ → Bytes → Bool
valid_from k [] = true
valid_from (suc k) (b ∷ rest) = valid_from k rest
valid_from zero (b ∷ rest) =
    let (whole, n) = first_char b rest in let more = valid_from (n - 1) rest in whole && more

unfoldable pub is_utf8 : Bytes → Bool
unfolding first_char valid_from
is_utf8 bytes = valid_from 0 bytes

-- `k` bytes are left of a character, which is copied, or of a part that has been replaced.
lossy_from : Bool → ℕ → Bytes → Bytes
lossy_from copied k [] = []
lossy_from copied (suc k) (b ∷ rest) =
    let more = lossy_from copied k rest in if copied then b ∷ more else more
lossy_from copied zero (b ∷ rest) =
    let (whole, n) = first_char b rest in
    let more = lossy_from whole (n - 1) rest in
    if whole then b ∷ more else 0xef ∷ 0xbf ∷ 0xbd ∷ more

unfoldable pub from_utf8_lossy : Bytes → Bytes
unfolding first_char lossy_from
from_utf8_lossy bytes = lossy_from true 0 bytes

-- `chars().any(char::is_control)`: the codes below 0x20 and from 0x7f to 0x9f.
abbrev pub has_control : Bytes → Bool
has_control [] = false
has_control (b ∷ []) = leb b 0x1f || b == 0x7f
has_control (b ∷ c ∷ rest) =
    leb b 0x1f || b == 0x7f || (b == 0xc2 && between 0x80 0x9f c) || has_control (c ∷ rest)

abbrev is_space : ℕ → Bytes → Bool
is_space b (c ∷ d ∷ rest) =
    between 0x09 0x0d b
    || b == 0x20
    || (b == 0xc2 && (c == 0x85 || c == 0xa0))
    || (b == 0xe1 && c == 0x9a && d == 0x80)
    || (b == 0xe2 && c == 0x80 && (between 0x80 0x8a d || d == 0xa8 || d == 0xa9 || d == 0xaf))
    || (b == 0xe2 && c == 0x81 && d == 0x9f)
    || (b == 0xe3 && c == 0x80 && d == 0x80)
is_space b (c ∷ []) = between 0x09 0x0d b || b == 0x20 || (b == 0xc2 && (c == 0x85 || c == 0xa0))
is_space b [] = between 0x09 0x0d b || b == 0x20

-- `chars().any(char::is_whitespace)`
abbrev pub has_whitespace : Bytes → Bool
has_whitespace [] = false
has_whitespace (b ∷ rest) = is_space b rest || has_whitespace rest
