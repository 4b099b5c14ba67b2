-- ===== src/Base/Hex.antt =====
-- Lower-case hexadecimal: `format!("{b:02x}")` of each byte, `u8::from_str_radix(.., 16)` of two
-- digits, and the decimal text of a number.
use Prim.Native.Nat.{ℕ, zero, suc, ◌+◌, ◌-◌, ◌*◌, ◌/◌, ◌%◌, ◌<◌}
use mathlib.Core.Path.{◌≡◌, refl}
use mathlib.Core.Bool.{Bool, true, false, ◌&&◌, ◌||◌}
use mathlib.Core.List.{[], ◌∷◌}
use native.Mathlib.Omega.{arith}
use epochgrid.Base.Tests.{leb, ltb, nat_eq, if◌then◌else◌}
use epochgrid.Base.Text8.{Bytes, Text, is_ascii_digit}
use epochgrid.Base.Lists.{length, all, All}

abbrev pub hex_digit : ℕ → ℕ
hex_digit n = if ltb n 10 then 48 + n else 87 + n

-- `is_ascii_digit() || (b'a'..=b'f').contains(..)`
abbrev pub is_hex_lower : ℕ → Bool
is_hex_lower b = is_ascii_digit b || (leb b'a' b && leb b b'f')

unfoldable pub hex : Bytes → Text
hex [] = []
hex (b ∷ bytes) = hex_digit (b / 16) ∷ hex_digit (b % 16) ∷ hex bytes

-- The value of a digit, in either case as `from_str_radix` reads it.
abbrev pub digit_value : ℕ → ℕ
digit_value c =
    if is_ascii_digit c then c - 48 else if leb b'a' c && leb c b'f' then c - 87 else c - 55

unfoldable pub unhex : Text → Bytes
unhex (h ∷ l ∷ rest) = (digit_value h * 16 + digit_value l) ∷ unhex rest
unhex _ = []

abbrev pub IsByte : ℕ → Type 0
IsByte b = b < 256

pub unhex-hex : (bytes : Bytes) → All IsByte bytes → unhex (hex bytes) ≡ bytes
unfolding hex unhex
unhex-hex [] h = refl
unhex-hex (b ∷ bytes) h = ground (arith, unhex-hex bytes h.1)

pub length-hex : (bytes : Bytes) → length (hex bytes) ≡ 2 * length bytes
unfolding hex
length-hex [] = refl
length-hex (b ∷ bytes) = omega (arith, length-hex bytes)

&&-split : (a b : Bool) → (a && b) ≡ true → (a ≡ true) × (b ≡ true)
&&-split true b h = (refl, h)
&&-split false b h = cc

pub hex-all : (bytes : Bytes) → All IsByte bytes → all is_hex_lower (hex bytes) ≡ true
unfolding hex
hex-all [] h = refl
hex-all (b ∷ bytes) h = ground (arith, hex-all bytes h.1)

hex_digit-value :
    (c : ℕ) → is_hex_lower c ≡ true → (hex_digit (digit_value c) ≡ c) × (digit_value c < 16)
hex_digit-value c h = ground arith

pair : (x y : ℕ) → y < 16 → ((x * 16 + y) / 16 ≡ x) × ((x * 16 + y) % 16 ≡ y)
pair x y h = (omega arith, omega arith)

pub hex-unhex :
    (t : Text) (n : ℕ) → length t ≡ 2 * n → all is_hex_lower t ≡ true → hex (unhex t) ≡ t
unfolding hex unhex
hex-unhex [] n e h = refl
hex-unhex (c ∷ []) n e h = absurd (omega arith)
hex-unhex (c ∷ d ∷ t) n e h =
    let (hc, rest) = &&-split (is_hex_lower c) _ h in
    let (hd, ht) = &&-split (is_hex_lower d) _ rest in
    let (dc, bc) = hex_digit-value c hc in
    let (dd, bd) = hex_digit-value d hd in
    let (q, r) = pair (digit_value c) (digit_value d) bd in
    rw (q, r, dc, dd, hex-unhex t (n - 1) (omega arith) ht)

decimal_go : ℕ → ℕ → Text → Text
decimal_go zero n rest = rest
decimal_go (suc fuel) n rest =
    let more = decimal_go fuel (n / 10) ((48 + n % 10) ∷ rest) in
    if ltb n 10 then (48 + n) ∷ rest else more

-- The decimal text of a `u64`, which has at most 20 digits.
unfoldable pub decimal : ℕ → Text
unfolding decimal_go
decimal n = decimal_go 20 n []
